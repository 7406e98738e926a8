-- ===== src/Cards/Guards.antt =====
-- What the methods on cards refuse, and what they ask of Stripe where they go through.
use blackrock.Prelude.{◌≡◌, inl, inr, false, some, List, ◌∷◌, arith, Bool-cases, Option-cases}
use blackrock.Text.{Text}
use blackrock.Users.{User, find_by_id}
use blackrock.Stripe.{Result-cases, ok, Customer, Source, delete_card, update_customer, Services}
use blackrock.Action.{World}
use blackrock.Mail.{customer_argument}
use blackrock.Cards.{
  hash_source_id, is_last_card, logged_in_user, find_original_source_id, delete_card_for_user,
  make_card_primary,
}
use blackrock.Cards.Ids.{find_original_source_id_sound}
use mathlib.Core.List.{Memᴰ}

module _ {S : Type 0} (v : Services S) (user_id : Text) (w : World S) where
  -- The Stripe customer of the logged-in user.
  abbrev pub IsOwnCustomer : Text → Type 0
  IsOwnCustomer customer =
      (user : User) × (find_by_id user_id w.users ≡ some user)
      × (customer_argument v user w ≡ (ok customer, w))

  -- A card of a customer, as Stripe lists it at this time.
  abbrev pub IsCardOf : Text → Source → Type 0
  IsCardOf customer source =
      (found : Customer) × (sources : List Source) × (v.retrieve_customer customer w.outside
        ≡ ok found)
      × (found.sources ≡ some sources)
      × Memᴰ source sources

  customer_argument_keeps : (user : User) → (customer_argument v user w).1 ≡ w
  unfolding customer_argument
  customer_argument_keeps user = ground arith

  own_customer :
      {customer : Text} {user : User}
      → find_by_id user_id w.users ≡ some user
      → (customer_argument v user w).0 ≡ ok customer
      → IsOwnCustomer customer
  own_customer {user = user} found e = (user, found, λ i. (e i, customer_argument_keeps user i))

  original :
      (hashed customer : Text) {id : Text}
      → (find_original_source_id v hashed customer w).0 ≡ ok id
      → ((source : Source) × (source.id ≡ id)
          × (hash_source_id v source.id ≡ hashed)
          × IsCardOf customer source)
  original hashed customer {id} e =
      let (found, sources, source, fetched, has, listed, same, hash, _) =
        find_original_source_id_sound v hashed customer w {id = id} e in
      (source, same, hash, (found, sources, fetched, has, listed))

  find_original_keeps :
      (hashed customer : Text) → (find_original_source_id v hashed customer w).1 ≡ w
  unfolding find_original_source_id
  find_original_keeps hashed customer = ground arith

  -- A method that makes a card the primary one and returns has asked Stripe for just that, of a card
  -- of the logged-in user's own customer whose hash was given, and changed no user.
  pub make_card_primary_owned :
      (hashed : Text)
      → (make_card_primary v (some user_id) hashed w).0 ≡ ok tt
      → (customer : Text) × (source : Source) × IsOwnCustomer customer
        × IsCardOf customer source
        × (hash_source_id v source.id ≡ hashed)
        × ((make_card_primary v (some user_id) hashed w).1.requests
            ≡ update_customer customer source.id ∷ w.requests)
        × ((make_card_primary v (some user_id) hashed w).1.users ≡ w.users)
  unfolding make_card_primary logged_in_user
  make_card_primary_owned hashed done = elim (Option-cases (find_by_id user_id w.users)) [
    | inl gone ↦ absurd (ground arith)
    | inr (user, found) ↦ elim (Result-cases (customer_argument v user w).0) [
      | inr (e, failed) ↦ absurd (ground (arith, customer_argument_keeps user))
      | inl (customer, e) ↦ elim (Result-cases (find_original_source_id v hashed customer w).0) [
        | inr (e', failed) ↦ absurd (ground (arith, customer_argument_keeps user))
        | inl (id, e') ↦
            let (source, same, hash, card) = original hashed customer {id = id} e' in
            (
              customer,
              source,
              own_customer found e,
              card,
              hash,
              ground (arith, customer_argument_keeps user, find_original_keeps hashed customer),
              ground (arith, customer_argument_keeps user, find_original_keeps hashed customer),
            )
      ]
    ]
  ]

  -- A deletion that returns has asked Stripe to delete just one card, of the logged-in user's own
  -- customer, whose hash was given; it was not the only card of a customer with a subscription; and
  -- no user changed.
  pub delete_card_for_user_owned :
      (hashed : Text)
      → (delete_card_for_user v (some user_id) hashed w).0 ≡ ok tt
      → (customer : Text) × (found : Customer) × (source : Source) × IsOwnCustomer customer
        × (v.retrieve_customer customer w.outside ≡ ok found)
        × (is_last_card found ≡ false)
        × IsCardOf customer source
        × (hash_source_id v source.id ≡ hashed)
        × ((delete_card_for_user v (some user_id) hashed w).1.requests
            ≡ delete_card customer source.id ∷ w.requests)
        × ((delete_card_for_user v (some user_id) hashed w).1.users ≡ w.users)
  unfolding delete_card_for_user logged_in_user
  delete_card_for_user_owned hashed done = elim (Option-cases (find_by_id user_id w.users)) [
    | inl gone ↦ absurd (ground arith)
    | inr (user, found) ↦ elim (Result-cases (customer_argument v user w).0) [
      | inr (e, failed) ↦ absurd (ground (arith, customer_argument_keeps user))
      | inl (customer, e) ↦ elim (Result-cases (v.retrieve_customer customer w.outside)) [
        | inr (e', failed) ↦ absurd (ground (arith, customer_argument_keeps user))
        | inl (c, fetched) ↦ elim (Bool-cases (is_last_card c)) [
          | inl last ↦ absurd (ground (arith, customer_argument_keeps user))
          | inr spare ↦ elim (Result-cases (find_original_source_id v hashed customer w).0) [
            | inr (e', failed) ↦ absurd (ground (arith, customer_argument_keeps user))
            | inl (id, e') ↦
                let (source, same, hash, card) = original hashed customer {id = id} e' in
                (
                  customer,
                  c,
                  source,
                  own_customer found e,
                  fetched,
                  spare,
                  card,
                  hash,
                  ground (arith, customer_argument_keeps user, find_original_keeps hashed customer),
                  ground (arith, customer_argument_keeps user, find_original_keeps hashed customer),
                )
          ]
        ]
      ]
    ]
  ]
