-- ===== src/Cards/Joins.antt =====
-- What adding a card writes to the users: at most, a user without a Stripe customer gets one.
use blackrock.Prelude.{refl, ◌≡◌, inl, inr, ◌⊎◌, none, some, List, arith, Option-cases}
use blackrock.Text.{Text}
use blackrock.Users.{User, find_by_id, customer_id, set_customer, update_user}
use blackrock.Stripe.{Result-cases, create_customer, Services}
use blackrock.Action.{World}
use blackrock.Cards.{logged_in_user, first_source, create_user, add_card_for_user}

-- One user became a Stripe customer, which it was not.
pub record Join (user_id : Text) (users users' : List User) : Type 0 where
  pub user : User
  pub customer : Text
  pub found : find_by_id user_id users ≡ some user
  pub fresh : customer_id user ≡ none
  pub written : users' ≡ update_user user_id (set_customer customer) users

abbrev pub JoinsAtMost : Text → List User → List User → Type 0
JoinsAtMost user_id users users' = (users' ≡ users) ⊎ Join user_id users users'

module _ {S : Type 0} (v : Services S) (user_id token email : Text) where
  pub create_user_joins :
      (user : User) (w : World S)
      → find_by_id user_id w.users ≡ some user
      → customer_id user ≡ none
      → JoinsAtMost user_id w.users (create_user v user_id token email w).1.users
  unfolding create_user
  create_user_joins user w found fresh =
      elim (Result-cases
        (v.request_customer (create_customer token email (some user_id)) w.outside).0) [
          | inr (e, refused) ↦ inl (ground arith)
          | inl (customer, made) ↦ inr (record {
            user = user;
            customer = customer.id;
            found = found;
            fresh = fresh;
            written = ground arith;
          })
        ]

  pub add_card_for_user_joins :
      (w : World S)
      → JoinsAtMost user_id w.users (add_card_for_user v (some user_id) token email w).1.users
  unfolding add_card_for_user logged_in_user
  add_card_for_user_joins w = elim (Option-cases (find_by_id user_id w.users)) [
    | inl gone ↦ inl (ground arith)
    | inr (user, found) ↦ elim (Option-cases (customer_id user)) [
      | inr (id, has) ↦ inl (ground arith)
      | inl fresh ↦
          let step : (add_card_for_user v (some user_id) token email w).1.users
              ≡ (create_user v user_id token email w).1.users =
            elim (Result-cases (create_user v user_id token email w).0) [
              | inr (e, refused) ↦ ground arith
              | inl (customer, made) ↦ elim (Option-cases (first_source customer)) [
                | inl bare ↦ ground arith
                | inr (source, has) ↦ ground arith
              ]
            ] in
          rw step (create_user_joins user w found fresh)
    ]
  ]

-- Nobody adds a card without a session.
module _ {S : Type 0} (v : Services S) where
  pub add_card_for_user_nobody :
      (token email : Text) (w : World S)
      → (add_card_for_user v none token email w).1.users ≡ w.users
  unfolding add_card_for_user
  add_card_for_user_nobody token email w = refl
