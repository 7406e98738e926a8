-- ===== src/Charges/Powerbox.antt =====
-- The payment sources that the powerbox offers are those that it accepts, of the user's own customer.
use blackrock.Prelude.{◌≡◌, inl, inr, Option, some, List, [], ◌∷◌, arith, Option-cases}
use blackrock.Text.{Text}
use blackrock.Users.{User, find_by_id, customer_id}
use blackrock.Stripe.{Result-cases, ok, Customer, Source, Services}
use blackrock.Action.{World}
use blackrock.Cards.{is_default, sanitize_source, hash_source_id, find_original_source_id}
use blackrock.Cards.Ids.{
  IsUnmistakable, find_original_source_id-sanitize_source, find_original_source_id_sound,
}
use blackrock.Cards.Guards.{IsCardOf}
use blackrock.Charges.{
  SourceRef, PowerboxOption, pay_with, stripe_customer, validate_source, options_of, query_sources,
}
use mathlib.Core.List.{Memᴰ}

module _ {S : Type 0} (v : Services S) where
  options_of-Mem :
      (default : Option Text) (source : Source) {sources : List Source}
      → Memᴰ source sources
      → Memᴰ
          (pay_with (sanitize_source v source (some (is_default default source))))
          (options_of v default sources)
  options_of-Mem default source {sources = []} m = elim m [ ]
  options_of-Mem default source {sources = x ∷ sources} (Memᴰ.head e) =
      Memᴰ.head (λ i. pay_with (sanitize_source v (e i) (some (is_default default (e i)))))
  options_of-Mem default source {sources = x ∷ sources} (Memᴰ.tail m) =
      Memᴰ.tail (options_of-Mem default source m)

  module _ (user_id : Text) (w : World S) where
    -- Each source of the user's customer is offered by the powerbox, and the id that it is offered
    -- with is accepted for this user and leads to that source; if no other of the customer's sources
    -- has the same hash. Nothing is changed by either.
    pub validate_source-query_sources :
        (user : User) (customer : Text) (found : Customer) (sources : List Source) (source : Source)
        → find_by_id user_id w.users ≡ some user
        → customer_id user ≡ some customer
        → v.retrieve_customer customer w.outside ≡ ok found
        → found.sources ≡ some sources
        → Memᴰ source sources
        → IsUnmistakable v source sources
        → let clean = sanitize_source v source (some (is_default found.default_source source)) in
          ((options : List PowerboxOption) × (query_sources v user_id w ≡ (ok options, w))
            × Memᴰ (pay_with clean) options)
          × (validate_source v (some user_id) clean.id w
              ≡ (ok (record { customer = customer; source = source.id }), w))
    unfolding query_sources validate_source stripe_customer
    validate_source-query_sources user customer found sources source known has fetched listed own
          apart =
        (
          (
            options_of v found.default_source sources,
            ground arith,
            options_of-Mem found.default_source source own,
          ),
          ground (
            arith,
            find_original_source_id-sanitize_source v customer found sources source
                (some (is_default found.default_source source)) w fetched listed own apart,
          ),
        )

    -- A source that is accepted for a user is one of that user's own Stripe customer, the one whose
    -- hash was given.
    pub validate_source_owned :
        (hashed : Text) {ref : SourceRef}
        → (validate_source v (some user_id) hashed w).0 ≡ ok ref
        → (user : User) × (source : Source) × (find_by_id user_id w.users ≡ some user)
          × (customer_id user ≡ some ref.customer)
          × IsCardOf v user_id w ref.customer source
          × (source.id ≡ ref.source)
          × (hash_source_id v source.id ≡ hashed)
    unfolding validate_source stripe_customer
    validate_source_owned hashed {ref} done = elim (Option-cases (find_by_id user_id w.users)) [
      | inl gone ↦ absurd (ground arith)
      | inr (user, known) ↦ elim (Option-cases (customer_id user)) [
        | inl fresh ↦ absurd (ground arith)
        | inr (customer, has) ↦
            elim (Result-cases (find_original_source_id v hashed customer w).0) [
              | inr (e, failed) ↦ absurd (ground arith)
              | inl (id, e) ↦
                  let (found, sources, source, fetched, listed, own, same, hash, _) =
                    find_original_source_id_sound v hashed customer w {id = id} e in
                  let ref_is : ref ≡ record { customer = customer; source = id } = ground arith in
                  rw ref_is
                    (user, source, known, has, (found, sources, fetched, listed, own), same, hash)
            ]
      ]
    ]
