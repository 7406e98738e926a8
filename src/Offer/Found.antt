-- ===== src/Offer/Found.antt =====
-- The users that last, in a collection whose ids are distinct.
use blackrock.Prelude.{◌≡◌, inl, inr, false, not, ◌&&◌, some, List, [], ◌∷◌, All, Bool-cases}
use blackrock.Text.{text_eq}
use blackrock.Text.Laws.{text_eq_refl, text_eq_comm}
use blackrock.Users.{User, find_by_id}
use blackrock.Users.Laws.{HasDistinctIds}
use blackrock.Offer.{lasting_users}

-- Is each of these users found by the own id?
abbrev pub AreFound : List User → List User → Type 0
AreFound users pending = All (λ u. find_by_id u.id users ≡ some u) pending

AreFound-cons :
    (x : User) (users pending : List User)
    → All (λ other. text_eq other.id x.id ≡ false) pending
    → AreFound users pending
    → AreFound (x ∷ users) pending
AreFound-cons x users [] _ _ = tt
AreFound-cons x users (u ∷ pending) (apart, far) (found, h) =
    let other : text_eq x.id u.id ≡ false = rw (text_eq_comm x.id u.id) apart in
    (rw other found, AreFound-cons x users pending far h)

AreFound-self : (users : List User) → HasDistinctIds users → AreFound users users
AreFound-self [] _ = tt
AreFound-self (u ∷ users) (far, distinct) =
    (rw (text_eq_refl u.id), AreFound-cons u users users far (AreFound-self users distinct))

All-lasting_users :
    (P : User → Type 0) (users : List User) → All P users → All P (lasting_users users)
unfolding lasting_users
All-lasting_users P [] _ = tt
All-lasting_users P (u ∷ users) (p, h) = elim (Bool-cases (u.has_identities && not u.expires)) [
  | inl lasts ↦ rw lasts (p, All-lasting_users P users h)
  | inr other ↦ rw other (All-lasting_users P users h)
]

pub lasting_users-AreFound :
    (users : List User) → HasDistinctIds users → AreFound users (lasting_users users)
lasting_users-AreFound users distinct =
    All-lasting_users (λ u. find_by_id u.id users ≡ some u) users (AreFound-self users distinct)

pub lasting_users-HasDistinctIds :
    (users : List User) → HasDistinctIds users → HasDistinctIds (lasting_users users)
unfolding lasting_users
lasting_users-HasDistinctIds [] _ = tt
lasting_users-HasDistinctIds (u ∷ users) (far, distinct) =
    elim (Bool-cases (u.has_identities && not u.expires)) [
      | inl lasts ↦ rw lasts (
        All-lasting_users (λ other. text_eq other.id u.id ≡ false) users far,
        lasting_users-HasDistinctIds users distinct,
      )
      | inr other ↦ rw other (lasting_users-HasDistinctIds users distinct)
    ]
