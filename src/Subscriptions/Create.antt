-- ===== src/Subscriptions/Create.antt =====
-- The first subscription of a user, bought together with a card.
use blackrock.Users.Laws.{find_by_id-update_user}
use blackrock.Prelude.{
  ◌∙◌, ap, false, ◌≡◌, inl, inr, Option, none, some, ◌∷◌, arith, Option-cases, refl,
}
use blackrock.Text.{Text, Lacks}
use blackrock.Users.{update_user, User, find_by_id, customer_id, set_plan, set_customer}
use blackrock.Stripe.{
  Result-cases, Result, err, Request, Source, ok, Customer, create_customer, create_source,
  create_subscription, Services,
}
use blackrock.Plans.{stripe_plan}
use blackrock.Plans.Laws.{NamesPlan, stripe_plan-NamesPlan}
use blackrock.Action.{World}
use blackrock.Cards.{
  CleanSource, first_source, sanitize_source, logged_in_user, create_user, add_card_for_user,
}
use blackrock.Subscriptions.{customer_for_card, create_user_subscription}

-- The card of a purchase, where it makes the customer.
module _ {S : Type 0} (v : Services S) (user_id token email : Text) (user : User)
    (w : World S) where
  -- The card that the browser is told of, with a new customer.
  abbrev pub card_of : Customer → Option CleanSource
  card_of customer = elim (first_source customer) [
    | none ↦ none
    | some source ↦ some (sanitize_source v source none)
  ]

  -- The collection and the requests once the new customer is stored.
  abbrev pub joined : Customer → World S
  joined customer = record w {
    users = update_user user_id (set_customer customer.id) w.users;
    requests = create_customer token email (some user_id) ∷ w.requests;
    outside = (v.request_customer (create_customer token email (some user_id)) w.outside).1;
  }

  customer_for_card_first :
      (customer : Customer)
      → customer_id user ≡ none
      → (v.request_customer (create_customer token email (some user_id)) w.outside).0 ≡ ok customer
      → customer_for_card v user_id token email user w
        ≡ (ok (customer.id, card_of customer), joined customer)
  unfolding customer_for_card create_user
  customer_for_card_first customer fresh made = elim (Option-cases (first_source customer)) [
    | inl bare ↦ ground arith
    | inr (source, has) ↦ ground arith
  ]

module _ {S : Type 0} (v : Services S) (user_id token email plan : Text) (user : User) (w : World S)
    (found : find_by_id user_id w.users ≡ some user) (plain : Lacks b'-' plan) where
  -- The world in which the subscription is asked for, after a card is added to a customer.
  abbrev pub with_card : Text → World S
  with_card id = record w {
    requests = create_source id token ∷ w.requests;
    outside = (v.request_source (create_source id token) w.outside).1;
  }

  -- How a purchase ends that has come from this world to the request for a subscription, with this card
  -- to return and this document of the user: it stores the plan with the user, or throws what Stripe
  -- has answered and stores nothing.
  abbrev pub IsBought :
      User
      → Option CleanSource
      → World S
      → Request
      → Result (Unit {0})
      → Result (Option CleanSource) × World S
      → Type 0
  IsBought user1 card w1 request (ok _) end =
      (end ≡ (
        ok card,
        record w1 {
          users = update_user user_id (set_plan plan) w1.users;
          requests = request ∷ w1.requests;
          outside = (v.request request w1.outside).1;
        },
      ))
      × (find_by_id user_id end.1.users ≡ some (set_plan plan user1))
  IsBought user1 card w1 request (err e) end =
      (end ≡ (
        err e,
        record w1 { requests = request ∷ w1.requests; outside = (v.request request w1.outside).1 },
      ))

  -- The end of a purchase, behind the card.
  bought :
      (id : Text) (user1 : User) (card : Option CleanSource) (w1 : World S)
      → find_by_id user_id w1.users ≡ some user1
      → customer_for_card v user_id token email user w ≡ (ok (id, card), w1)
      → let request = create_subscription id (stripe_plan v.out_of_beta plan) in
        IsBought user1 card w1 request
          (v.request request w1.outside).0
          (create_user_subscription v (some user_id) token email plan w)
  unfolding create_user_subscription logged_in_user
  bought id user1 card w1 now paid =
      let request = create_subscription id (stripe_plan v.out_of_beta plan) in
      elim (Result-cases (v.request request w1.outside).0) [
        | inl (u, accepted) ↦
            let step : create_user_subscription v (some user_id) token email plan w ≡ (
              ok card,
              record w1 {
                users = update_user user_id (set_plan plan) w1.users;
                requests = request ∷ w1.requests;
                outside = (v.request request w1.outside).1;
              },
            ) =
              ground (arith, paid) in
            rw accepted (
              step,
              ap (λ end. find_by_id user_id end.1.users) step
                  ∙ find_by_id-update_user user_id (set_plan plan) w1.users (λ u. refl) {u = user1}
                      now,
            )
        | inr (e, refused) ↦ rw refused (ground (arith, paid))
      ]

  -- A user without a Stripe customer buys any plan whose name has no dash, also one that is
  -- discontinued or unknown, and Stripe makes the customer: the purchase never refuses the plan by
  -- itself. It asks for the customer and then for a subscription, to an id that the webhook reads back
  -- as this plan and the service's beta state. If Stripe accepts, it returns the new card, and the
  -- user is the new customer and on the plan; if Stripe refuses, it throws that, and the user is
  -- the new customer all the same, on the plan from before. Nothing else of the world changes.
  pub create_user_subscription_first :
      (customer : Customer)
      → customer_id user ≡ none
      → (v.request_customer (create_customer token email (some user_id)) w.outside).0 ≡ ok customer
      → (plan_id : Text) × NamesPlan v.out_of_beta plan plan_id
        × (let w1 = joined v user_id token email user w customer in
            let request = create_subscription customer.id plan_id in
            IsBought
              (set_customer customer.id user)
              (card_of v user_id token email user w customer)
              w1
              request
              (v.request request w1.outside).0
              (create_user_subscription v (some user_id) token email plan w))
  create_user_subscription_first customer fresh made = (
    stripe_plan v.out_of_beta plan,
    stripe_plan-NamesPlan v.out_of_beta plan plain,
    bought customer.id (set_customer customer.id user)
        (card_of v user_id token email user w customer)
        (joined v user_id token email user w customer)
        (find_by_id-update_user user_id (set_customer customer.id) w.users (λ u. refl) {u = user}
          found)
        (customer_for_card_first v user_id token email user w customer fresh made),
  )

  -- A user who is a Stripe customer already buys any plan whose name has no dash, and Stripe accepts
  -- the card: whatever subscription the customer has, the purchase asks for the card and then for one
  -- more subscription, to an id that the webhook reads back as this plan and the service's beta state.
  -- If Stripe accepts, it returns the card, and the user is on the plan; if Stripe refuses, it throws
  -- that, and the user is as before, although the card was added. Nothing else of the world changes.
  pub create_user_subscription_again :
      (id : Text) (source : Source)
      → customer_id user ≡ some id
      → (v.request_source (create_source id token) w.outside).0 ≡ ok source
      → (plan_id : Text) × NamesPlan v.out_of_beta plan plan_id
        × (let w1 = with_card id in
            let request = create_subscription id plan_id in
            IsBought user
              (some (sanitize_source v source (some false)))
              w1
              request
              (v.request request w1.outside).0
              (create_user_subscription v (some user_id) token email plan w))
  unfolding customer_for_card add_card_for_user logged_in_user
  create_user_subscription_again id source has added = (
    stripe_plan v.out_of_beta plan,
    stripe_plan-NamesPlan v.out_of_beta plan plain,
    bought id user (some (sanitize_source v source (some false))) (with_card id) found
        (ground arith),
  )
