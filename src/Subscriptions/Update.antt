-- ===== src/Subscriptions/Update.antt =====
-- Changing the plan: what a change that goes through has done, and what a refused one has not.
use blackrock.Users.Laws.{find_by_id-update_user}
use blackrock.Plans.Laws.{stripe_plan-NamesPlan, NamesPlan}
use blackrock.Prelude.{
  ◌∙◌, ap, ◌≡◌, refl, inl, inr, false, Option, none, some, ◌∷◌, arith, Bool-cases, Option-cases,
  if◌then◌else◌,
}
use blackrock.Text.{Lacks, Text, text_eq}
use blackrock.Users.{update_user, User, find_by_id, customer_id, set_plan, free}
use blackrock.Stripe.{
  Result, Failure, card_error, Result-cases, ok, err, Customer, Plan, Request, create_subscription,
  update_subscription, Services,
}
use blackrock.Stripe.Objects.{current_subscription, is_card_error}
use blackrock.Plans.{stripe_plan}
use blackrock.Action.{perform, World, try_catch}
use blackrock.Action.Keeps.{KeepsUsers}
use blackrock.Cards.{logged_in_user}
use blackrock.Subscriptions.{
  Changes, subscribed_to, card_message, subscribe, report_card, record_plan,
  update_user_subscription,
}
use blackrock.Subscriptions.Cancel.{cancel-KeepsUsers}

module _ {S : Type 0} (v : Services S) where
  -- The request by which a customer gets a plan with this id in Stripe: the current subscription is
  -- changed, or a new one made.
  abbrev pub plan_request : Text → Text → Customer → Request
  plan_request id plan_id customer = elim (current_subscription customer) [
    | some s ↦ update_subscription id s.id plan_id
    | none ↦ create_subscription id plan_id
  ]

  -- The failure that the browser gets: of a declined card it is Stripe's message.
  abbrev pub shown : Failure → Failure
  shown e = if is_card_error e then card_error (card_message e) else e

  -- What a change of plan has come to, by Stripe's answer to its request.
  abbrev pub IsSettled :
      Text → User → Text → World S → Request → Result (Unit {0}) → Result Changes × World S → Type 0
  IsSettled user_id user plan w request (ok _) end =
      (end ≡ (
        ok (subscribed_to plan),
        record w {
          users = update_user user_id (set_plan plan) w.users;
          requests = request ∷ w.requests;
          outside = (v.request request w.outside).1;
        },
      ))
      × (find_by_id user_id end.1.users ≡ some (set_plan plan user))
  IsSettled user_id user plan w request (err e) end =
      (end ≡ (
        err (shown e),
        record w { requests = request ∷ w.requests; outside = (v.request request w.outside).1 },
      ))

  subscribe-KeepsUsers :
      (id plan : Text) (customer : Customer) → KeepsUsers (subscribe v id plan customer)
  unfolding subscribe
  subscribe-KeepsUsers id plan customer w = ground arith

  subscribe_lem :
      (id plan : Text) (customer : Customer) (w : World S)
      → subscribe v id plan customer w
        ≡ perform (plan_request id (stripe_plan v.out_of_beta plan) customer) v.request w
  unfolding subscribe
  subscribe_lem id plan customer w = elim (Option-cases (current_subscription customer)) [
    | inl none_now ↦ ground arith
    | inr (s, now) ↦ ground arith
  ]

  report_card_thrown :
      (e : Failure) (w : World S) → (e' : Failure) × (report_card v e w ≡ (err e', w))
  unfolding report_card
  report_card_thrown e w = elim (Bool-cases (is_card_error e)) [
    | inl card ↦ (card_error (card_message e), rw card)
    | inr other ↦ (e, rw other)
  ]

  module _ (user_id plan id : Text) (info : Plan) (user : User) (w : World S)
      (known : v.get_plan plan none w.outside ≡ ok info) (offered : info.hidden ≡ false)
      (found : find_by_id user_id w.users ≡ some user) (has : customer_id user ≡ some id)
      (paid : text_eq plan free ≡ false) (customer : Customer)
      (fetched : v.retrieve_customer id w.outside ≡ ok customer) where
    settled :
        let request = plan_request id (stripe_plan v.out_of_beta plan) customer in
        IsSettled user_id user plan w request
          (v.request request w.outside).0
          (update_user_subscription v (some user_id) plan w)
    unfolding update_user_subscription logged_in_user report_card record_plan
    settled =
        let request = plan_request id (stripe_plan v.out_of_beta plan) customer in
        elim (Result-cases (v.request request w.outside).0) [
          | inl (u, accepted) ↦
              let step : update_user_subscription v (some user_id) plan w ≡ (
                ok (subscribed_to plan),
                record w {
                  users = update_user user_id (set_plan plan) w.users;
                  requests = request ∷ w.requests;
                  outside = (v.request request w.outside).1;
                },
              ) =
                ground (arith, subscribe_lem id plan customer w) in
              rw accepted (
                step,
                ap (λ end. find_by_id user_id end.1.users) step
                    ∙ find_by_id-update_user user_id (set_plan plan) w.users (λ u. refl) {u = user}
                        found,
              )
          | inr (e, refused) ↦ rw refused (ground (arith, subscribe_lem id plan customer w))
        ]

    -- A user with a Stripe customer that can be fetched, who chooses an offered paid plan, whose name has
    -- no dash: the one request changes the current subscription, or makes a new one if there is none, to an id that
    -- the webhook reads back as this plan, with the suffix "-beta" exactly if the service is in beta.
    -- If Stripe accepts it, the method returns the plan and stores it with the user; if Stripe refuses
    -- it, the method throws, of a declined card Stripe's message as a card error, and stores nothing.
    -- Nothing else of the world changes.
    pub update_user_subscription_paid :
        Lacks b'-' plan
        → (plan_id : Text) × NamesPlan v.out_of_beta plan plan_id
          × (let request = plan_request id plan_id customer in
              IsSettled user_id user plan w request
                (v.request request w.outside).0
                (update_user_subscription v (some user_id) plan w))
    update_user_subscription_paid plain =
        (stripe_plan v.out_of_beta plan, stripe_plan-NamesPlan v.out_of_beta plan plain, settled)

  -- A change of plan that goes through, of any user to any plan, is to a plan that exists and is not
  -- discontinued.
  pub update_user_subscription_offered :
      (session : Option Text) (plan : Text) (w : World S) {changes : Changes}
      → (update_user_subscription v session plan w).0 ≡ ok changes
      → (info : Plan) × (v.get_plan plan none w.outside ≡ ok info) × (info.hidden ≡ false)
  unfolding update_user_subscription
  update_user_subscription_offered none plan w done = cc
  update_user_subscription_offered (some user_id) plan w done =
      elim (Result-cases (v.get_plan plan none w.outside)) [
        | inr (e, unknown) ↦ absurd (ground arith)
        | inl (info, known) ↦ elim (Bool-cases info.hidden) [
          | inl hidden ↦ absurd (ground arith)
          | inr offered ↦ (info, known, offered)
        ]
      ]

  declined_keeps :
      (user_id id plan : Text) (customer : Customer) (w : World S) (e : Failure)
      → ((try_catch (subscribe v id plan customer) (report_card v)) w).0 ≡ err e
      → ((try_catch (subscribe v id plan customer) (report_card v)) w).1.users ≡ w.users
  unfolding report_card
  declined_keeps user_id id plan customer w e thrown =
      ground (arith, subscribe-KeepsUsers id plan customer w)

  -- A change of plan that throws, for whatever reason, leaves all users as they were.
  pub update_user_subscription_thrown :
      (session : Option Text) (plan : Text) (w : World S) (e : Failure)
      → (update_user_subscription v session plan w).0 ≡ err e
      → (update_user_subscription v session plan w).1.users ≡ w.users
  unfolding update_user_subscription logged_in_user record_plan
  update_user_subscription_thrown none plan w e thrown = refl
  update_user_subscription_thrown (some user_id) plan w e thrown =
      elim (Result-cases (v.get_plan plan none w.outside)) [
        | inr (e', unknown) ↦ ground arith
        | inl (info, known) ↦ elim (Option-cases (find_by_id user_id w.users)) [
          | inl gone ↦ ground arith
          | inr (user, found) ↦ elim (Option-cases (customer_id user)) [
            | inl fresh ↦ ground arith
            | inr (id, has) ↦ elim (Result-cases (v.retrieve_customer id w.outside)) [
              | inr (e', failed) ↦ ground (arith, cancel-KeepsUsers v user_id id w)
              | inl (customer, fetched) ↦ ground (
                arith,
                cancel-KeepsUsers v user_id id w,
                declined_keeps user_id id plan customer w e,
              )
            ]
          ]
        ]
      ]
