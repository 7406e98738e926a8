-- ===== src/Fiber/Serial.antt =====
-- A fiber that nobody interrupts does what the method does.
use blackrock.Prelude.{
  true, ◌≡◌, refl, inl, inr, Option, none, some, arith, Bool-cases, Option-cases,
}
use blackrock.Text.{Text, text_eq}
use blackrock.Users.{User, find_by_id, customer_id, free}
use blackrock.Stripe.{Result-cases, cancel_subscription, ok, create_customer, Services}
use blackrock.Action.{World}
use blackrock.Cards.{CleanSource, logged_in_user, first_source, create_user, add_card_for_user}
use blackrock.Fiber.{done, alone}
use blackrock.Fiber.Alone.{alone->>=}
use blackrock.Stripe.Objects.{current_subscription}
use blackrock.Subscriptions.{
  set_this_user, cancel_subscription_of, customer_for_card, create_user_subscription,
  update_user_subscription, subscribe, report_card,
}
use blackrock.Fiber.Methods.{
  customer_for_card_fiber, pay_plan_fiber, buy_plan_fiber, cancel_fiber, update_plan_fiber,
  create_user_fiber, add_card_fiber,
}

module _ {S : Type 0} (v : Services S) where
  alone-create_user :
      (user_id token email : Text) (w : World S)
      → alone (create_user_fiber v user_id token email) w ≡ create_user v user_id token email w
  unfolding alone create_user_fiber create_user
  alone-create_user user_id token email w = ground arith

  pub alone-add_card :
      (session : Option Text) (token email : Text) (w : World S)
      → alone (add_card_fiber v session token email) w ≡ add_card_for_user v session token email w
  unfolding alone add_card_fiber add_card_for_user logged_in_user create_user_fiber create_user
  alone-add_card none token email w = refl
  alone-add_card (some user_id) token email w = elim (Option-cases (find_by_id user_id w.users)) [
    | inl gone ↦ ground arith
    | inr (user, found) ↦ elim (Option-cases (customer_id user)) [
      | inr (id, has) ↦ ground arith
      | inl fresh ↦
          elim (Result-cases
            (v.request_customer (create_customer token email (some user_id)) w.outside).0) [
              | inr (e, refused) ↦ ground arith
              | inl (customer, made) ↦ elim (Option-cases (first_source customer)) [
                | inl bare ↦ ground arith
                | inr (source, has) ↦ ground arith
              ]
            ]
    ]
  ]

  alone-customer_for_card :
      (user_id token email : Text) (user : User) (w : World S)
      → alone (customer_for_card_fiber v user_id token email user) w
        ≡ customer_for_card v user_id token email user w
  unfolding alone customer_for_card_fiber create_user_fiber customer_for_card create_user
  alone-customer_for_card user_id token email user w = elim (Option-cases (customer_id user)) [
    | inl fresh ↦
        elim (Result-cases
          (v.request_customer (create_customer token email (some user_id)) w.outside).0) [
            | inr (e, refused) ↦ ground arith
            | inl (customer, made) ↦ elim (Option-cases (first_source customer)) [
              | inl bare ↦ ground arith
              | inr (source, has) ↦ ground arith
            ]
          ]
    | inr (id, has) ↦ ground (
      arith,
      has,
      alone->>= {B = Text × Option CleanSource} (add_card_fiber v (some user_id) token email)
          (λ clean. done (ok (id, some clean))) w,
      alone-add_card (some user_id) token email w,
    )
  ]

  alone-cancel :
      (user_id id : Text) (w : World S)
      → alone (cancel_fiber v id) w ≡ cancel_subscription_of v none user_id id w
  unfolding alone cancel_fiber cancel_subscription_of set_this_user
  alone-cancel user_id id w = elim (Result-cases (v.retrieve_customer id w.outside)) [
    | inr (e, refused) ↦ ground arith
    | inl (customer, read') ↦ elim (Option-cases (current_subscription customer)) [
      | inl none' ↦ ground arith
      | inr (current, is) ↦ elim (Bool-cases current.cancel_at_period_end) [
        | inl ends ↦ ground arith
        | inr runs ↦
            elim (Result-cases
              (v.request_subscription (cancel_subscription id current.id true) w.outside).0) [
                | inl (info, canceled) ↦ ground arith
                | inr (e, thrown) ↦ ground arith
              ]
      ]
    ]
  ]

  pub alone-buy_plan :
      (session : Option Text) (token email plan : Text) (w : World S)
      → alone (buy_plan_fiber v session token email plan) w
        ≡ create_user_subscription v session token email plan w
  unfolding alone buy_plan_fiber pay_plan_fiber create_user_subscription logged_in_user
  alone-buy_plan none token email plan w = refl
  alone-buy_plan (some user_id) token email plan w =
      elim (Option-cases (find_by_id user_id w.users)) [
        | inl gone ↦ ground arith
        | inr (user, found) ↦ ground (
          arith,
          found,
          alone->>= {B = Option CleanSource} (customer_for_card_fiber v user_id token email user)
              (pay_plan_fiber v user_id plan) w,
          alone-customer_for_card user_id token email user w,
        )
      ]

  pub alone-update_plan :
      (session : Option Text) (plan : Text) (w : World S)
      → alone (update_plan_fiber v session plan) w ≡ update_user_subscription v session plan w
  unfolding alone update_plan_fiber update_user_subscription logged_in_user
  alone-update_plan none plan w = refl
  alone-update_plan (some user_id) plan w = elim (Result-cases (v.get_plan plan none w.outside)) [
    | inr (e, refused) ↦ ground arith
    | inl (info, known) ↦ elim (Bool-cases info.hidden) [
      | inl hidden ↦ ground arith
      | inr offered ↦ elim (Option-cases (find_by_id user_id w.users)) [
        | inl gone ↦ ground arith
        | inr (user, found) ↦ elim (Option-cases (customer_id user)) [
          | inl fresh ↦ ground arith
          | inr (id, has) ↦ elim (Bool-cases (text_eq plan free)) [
            | inl ends ↦ ground (arith, alone-cancel user_id id w)
            | inr paid ↦ elim (Result-cases (v.retrieve_customer id w.outside)) [
              | inr (e, refused) ↦ ground arith
              | inl (customer, is) ↦ elim (Result-cases (subscribe v id plan customer w).0) [
                | inl (done', made) ↦ ground arith
                | inr (e, thrown) ↦
                    elim (Result-cases (report_card v e (subscribe v id plan customer w).1).0) [
                      | inl (done', made) ↦ ground arith
                      | inr (e', thrown') ↦ ground arith
                    ]
              ]
            ]
          ]
        ]
      ]
    ]
  ]
