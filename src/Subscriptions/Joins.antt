-- ===== src/Subscriptions/Joins.antt =====
-- What buying a subscription writes to the users: at most, a user without a Stripe customer gets one,
-- and then the plan.
use blackrock.Prelude.{none, ◌≡◌, refl, inl, inr, ◌⊎◌, some, List, arith, Option-cases}
use blackrock.Text.{Text}
use blackrock.Users.{User, find_by_id, customer_id, set_plan, update_user}
use blackrock.Stripe.{Result-cases, create_subscription, Services}
use blackrock.Plans.{stripe_plan}
use blackrock.Action.{World}
use blackrock.Cards.{logged_in_user, first_source, create_user, add_card_for_user}
use blackrock.Cards.Joins.{JoinsAtMost, create_user_joins, add_card_for_user_joins}
use blackrock.Subscriptions.{customer_for_card, create_user_subscription}

module _ {S : Type 0} (v : Services S) (user_id token email : Text) where
  customer_for_card_joins :
      (user : User) (w : World S)
      → find_by_id user_id w.users ≡ some user
      → JoinsAtMost user_id w.users (customer_for_card v user_id token email user w).1.users
  unfolding customer_for_card
  customer_for_card_joins user w found = elim (Option-cases (customer_id user)) [
    | inr (id, has) ↦
        let step : (customer_for_card v user_id token email user w).1.users
            ≡ (add_card_for_user v (some user_id) token email w).1.users =
          ground arith in
        rw step (add_card_for_user_joins v user_id token email w)
    | inl fresh ↦
        let step : (customer_for_card v user_id token email user w).1.users
            ≡ (create_user v user_id token email w).1.users =
          elim (Result-cases (create_user v user_id token email w).0) [
            | inr (e, refused) ↦ ground arith
            | inl (customer, made) ↦ elim (Option-cases (first_source customer)) [
              | inl bare ↦ ground arith
              | inr (source, has) ↦ ground arith
            ]
          ] in
        rw step (create_user_joins v user_id token email user w found fresh)
  ]

  pub create_user_subscription_joins :
      (plan : Text) (w : World S)
      → let users' = (create_user_subscription v (some user_id) token email plan w).1.users in
        (users : List User) × JoinsAtMost user_id w.users users
        × ((users' ≡ users) ⊎ (users' ≡ update_user user_id (set_plan plan) users))
  unfolding create_user_subscription logged_in_user
  create_user_subscription_joins plan w = elim (Option-cases (find_by_id user_id w.users)) [
    | inl gone ↦ (w.users, inl refl, inl (ground arith))
    | inr (user, found) ↦
        let w' = (customer_for_card v user_id token email user w).1 in
        (
          w'.users,
          customer_for_card_joins user w found,
          elim (Result-cases (customer_for_card v user_id token email user w).0) [
            | inr (e, refused) ↦ inl (ground arith)
            | inl (made, card) ↦
                elim (Result-cases
                  (v.request (create_subscription made.0 (stripe_plan v.out_of_beta plan))
                    w'.outside).0) [
                      | inr (e, refused) ↦ inl (ground arith)
                      | inl (_, subscribed) ↦ inr (ground arith)
                    ]
          ],
        )
  ]

-- Nobody buys anything without a session.
module _ {S : Type 0} (v : Services S) where
  pub create_user_subscription_nobody :
      (token email plan : Text) (w : World S)
      → (create_user_subscription v none token email plan w).1.users ≡ w.users
  unfolding create_user_subscription
  create_user_subscription_nobody token email plan w = refl
