-- ===== src/Cards/Ids.antt =====
-- The ids of cards: what leaves the server is a hash, and a hash that comes back names one of the
-- customer's own cards.
use blackrock.Prelude.{
  ap, ◌≡◌, refl, ◌∙◌, inl, inr, Bool, Option, some, List, [], ◌∷◌, arith, Bool-cases, Option-cases,
  All,
}
use blackrock.Text.{Text, text_eq}
use blackrock.Text.Laws.{text_eq→eq, text_eq_refl}
use blackrock.Stripe.{Result-cases, ok, Customer, Source, Services}
use blackrock.Action.{World}
use blackrock.Cards.{hash_source_id, sanitize_source, find_source, find_original_source_id}
use mathlib.Core.List.{Memᴰ}

module _ {S : Type 0} (v : Services S) where
  -- The hashes of these sources tell them apart from `source`.
  abbrev pub IsUnmistakable : Source → List Source → Type 0
  IsUnmistakable source sources =
      All (λ other. hash_source_id v other.id ≡ hash_source_id v source.id → other.id ≡ source.id)
        sources

  find_source_own :
      (source : Source) {sources : List Source}
      → IsUnmistakable source sources
      → Memᴰ source sources
      → find_source v (hash_source_id v source.id) sources ≡ some source.id
  unfolding find_source
  find_source_own source {sources = []} _ m = elim m [ ]
  find_source_own source {sources = x ∷ sources} (same, rest) (Memᴰ.head e) =
      rw e (rw (text_eq_refl (hash_source_id v x.id)))
  find_source_own source {sources = x ∷ sources} (same, rest) (Memᴰ.tail m) =
      elim (Bool-cases (text_eq (hash_source_id v x.id) (hash_source_id v source.id))) [
        | inl hit ↦ rw hit (ap some (same (text_eq→eq _ _ hit)))
        | inr miss ↦ rw miss (find_source_own source rest m)
      ]

  -- What is found is the id of a listed source, and has the hash that was asked for.
  pub find_source_sound :
      (hashed : Text) (sources : List Source) {id : Text}
      → find_source v hashed sources ≡ some id
      → (source : Source) × Memᴰ source sources
        × (source.id ≡ id)
        × (hash_source_id v source.id ≡ hashed)
  unfolding find_source
  find_source_sound hashed [] e = cc
  find_source_sound hashed (x ∷ sources) {id} e =
      elim (Bool-cases (text_eq (hash_source_id v x.id) hashed)) [
        | inl hit ↦ (x, Memᴰ.head refl, ground arith, text_eq→eq _ _ hit)
        | inr miss ↦
            let (source, listed, same, hash) =
              find_source_sound hashed sources {id = id} (ground arith) in
            (source, Memᴰ.tail listed, same, hash)
      ]

  -- Round trip: the id that a browser is shown of one of the customer's sources leads back to that
  -- source, if no other of the customer's sources has the same hash. Nothing is changed.
  pub find_original_source_id-sanitize_source :
      (customer : Text) (found : Customer) (sources : List Source) (source : Source)
      (is_primary : Option Bool) (w : World S)
      → v.retrieve_customer customer w.outside ≡ ok found
      → found.sources ≡ some sources
      → Memᴰ source sources
      → IsUnmistakable source sources
      → find_original_source_id v (sanitize_source v source is_primary).id customer w
        ≡ (ok source.id, w)
  unfolding find_original_source_id sanitize_source
  find_original_source_id-sanitize_source customer found sources source is_primary w fetched has
        listed apart =
      ground (arith, find_source_own source {sources = sources} apart listed)

  -- An id that is found is that of one of the customer's own sources, and the state is as before; an
  -- id that is not found, or a customer without sources, is a 400.
  pub find_original_source_id_sound :
      (hashed customer : Text) (w : World S) {id : Text}
      → (find_original_source_id v hashed customer w).0 ≡ ok id
      → (found : Customer) × (sources : List Source) × (source : Source) × (v.retrieve_customer
            customer w.outside
          ≡ ok found)
        × (found.sources ≡ some sources)
        × Memᴰ source sources
        × (source.id ≡ id)
        × (hash_source_id v source.id ≡ hashed)
        × ((find_original_source_id v hashed customer w).1 ≡ w)
  unfolding find_original_source_id
  find_original_source_id_sound hashed customer w {id} done =
      elim (Result-cases (v.retrieve_customer customer w.outside)) [
        | inr (e, failed) ↦ absurd (ground arith)
        | inl (found, fetched) ↦ elim (Option-cases found.sources) [
          | inl bare ↦ absurd (ground arith)
          | inr (sources, has) ↦ elim (Option-cases (find_source v hashed sources)) [
            | inl unknown ↦ absurd (ground arith)
            | inr (id', e) ↦
                let (source, listed, same, hash) = find_source_sound hashed sources {id = id'} e in
                let same' : id' ≡ id = ground arith in
                (found, sources, source, fetched, has, listed, same ∙ same', hash, ground arith)
          ]
        ]
      ]
