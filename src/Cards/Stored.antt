-- ===== src/Cards/Stored.antt =====
-- What adding the first card stores.
use blackrock.Prelude.{◌≡◌, refl, inl, inr, none, some, ◌∷◌, arith, Option-cases}
use blackrock.Text.{Text}
use blackrock.Users.{User, find_by_id, customer_id, set_customer}
use blackrock.Users.Laws.{find_by_id-update_user}
use blackrock.Stripe.{ok, Customer, create_customer, Services}
use blackrock.Action.{World}
use blackrock.Cards.{first_source, logged_in_user, create_user, add_card_for_user}

module _ {S : Type 0} (v : Services S) (user_id : Text) (w : World S) where
  -- A user without a Stripe customer who adds a card becomes the customer that Stripe makes, by the
  -- one request there is; the document's `payments` then holds that id alone. This holds also where
  -- Stripe returns the new customer without a source and the method throws.
  pub add_card_for_user_first :
      (token email : Text) (user : User) (customer : Customer)
      → find_by_id user_id w.users ≡ some user
      → customer_id user ≡ none
      → (v.request_customer (create_customer token email (some user_id)) w.outside).0 ≡ ok customer
      → let w' = (add_card_for_user v (some user_id) token email w).1 in
        (find_by_id user_id w'.users ≡ some (set_customer customer.id user))
        × (w'.requests ≡ create_customer token email (some user_id) ∷ w.requests)
  unfolding add_card_for_user logged_in_user create_user
  add_card_for_user_first token email user customer found fresh made =
      elim (Option-cases (first_source customer)) [
        | inl bare ↦ (
          ground (
            arith,
            find_by_id-update_user user_id (set_customer customer.id) w.users (λ u. refl) {u = user}
                found,
          ),
          ground arith,
        )
        | inr (source, has) ↦ (
          ground (
            arith,
            find_by_id-update_user user_id (set_customer customer.id) w.users (λ u. refl) {u = user}
                found,
          ),
          ground arith,
        )
      ]
