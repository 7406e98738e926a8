-- ===== src/Users/Laws.antt =====
-- Reading the collection after a write to it.
use blackrock.Prelude.{◌≡◌, refl, ◌∙◌, inl, inr, false, some, List, [], ◌∷◌, arith, Bool-cases, All}
use blackrock.Text.{Text, text_eq}
use blackrock.Text.Laws.{text_eq→eq, text_eq_refl, text_eq_comm}
use blackrock.Users.{User, has_id, has_customer, find_by_id, find_by_customer, update_user}

-- The collection's primary key: no two documents share an `_id`.
abbrev pub HasDistinctIds : List User → Type 0
HasDistinctIds [] = Unit
HasDistinctIds (u ∷ users) =
    All (λ other. text_eq other.id u.id ≡ false) users × HasDistinctIds users

-- What a user's document is found as by its own `_id` after an update that keeps ids.
pub find_by_id-update_user :
    (id : Text) (change : User → User) (users : List User)
    → ((u : User) → (change u).id ≡ u.id)
    → {u : User} → find_by_id id users ≡ some u
    → find_by_id id (update_user id change users) ≡ some (change u)
unfolding update_user
find_by_id-update_user id change [] keep e = cc
find_by_id-update_user id change (x ∷ users) keep {u} e = elim (Bool-cases (has_id id x)) [
  | inl hit ↦ ground (arith, keep x)
  | inr miss ↦ ground (arith, find_by_id-update_user id change users keep {u = u})
]

-- An update of one user leaves what is found under any other id.
pub find_by_id-update_user_ne :
    (id other : Text) (change : User → User) (users : List User)
    → ((u : User) → (change u).id ≡ u.id)
    → text_eq id other ≡ false
    → find_by_id other (update_user id change users) ≡ find_by_id other users
unfolding update_user
find_by_id-update_user_ne id other change [] keep ne = refl
find_by_id-update_user_ne id other change (x ∷ users) keep ne =
    elim (Bool-cases (text_eq x.id id)) [
      | inl hit ↦ ground (arith, keep x, text_eq→eq x.id id)
      | inr miss ↦ ground (arith, find_by_id-update_user_ne id other change users keep ne)
    ]

find_all :
    (P : User → Type 0) (customer : Text) (users : List User) {u : User}
    → All P users
    → find_by_customer customer users ≡ some u
    → P u
find_all P customer [] h e = cc
find_all P customer (x ∷ users) {u} (p, h) e = elim (Bool-cases (has_customer customer x)) [
  | inl hit ↦ let same : x ≡ u = ground arith in rw same at p
  | inr miss ↦ find_all P customer users h (ground arith)
]

-- With distinct ids, the user found by a customer is the one that an update by its `_id` changes.
pub find_by_customer-update_user :
    (customer : Text) (change : User → User) (users : List User) {u : User}
    → HasDistinctIds users
    → ((x : User) → has_customer customer (change x) ≡ has_customer customer x)
    → find_by_customer customer users ≡ some u
    → find_by_customer customer (update_user u.id change users) ≡ some (change u)
unfolding update_user
find_by_customer-update_user customer change [] d keep e = cc
find_by_customer-update_user customer change (x ∷ users) {u} (d, ds) keep e =
    elim (Bool-cases (has_customer customer x)) [
      | inl hit ↦ ground (arith, keep x, text_eq_refl x.id)
      | inr miss ↦
          let far =
            find_all (λ y. text_eq y.id x.id ≡ false) customer users {u = u} d (ground arith) in
          let other : text_eq x.id u.id ≡ false = text_eq_comm x.id u.id ∙ far in
          ground (arith, find_by_customer-update_user customer change users {u = u} ds keep)
    ]

-- With distinct ids, the user found by a customer is the one found by its own id.
pub find_by_id_of_customer :
    (customer : Text) (users : List User) {u : User}
    → HasDistinctIds users
    → find_by_customer customer users ≡ some u
    → find_by_id u.id users ≡ some u
find_by_id_of_customer customer [] d e = cc
find_by_id_of_customer customer (x ∷ users) {u} (d, ds) e =
    elim (Bool-cases (has_customer customer x)) [
      | inl hit ↦ ground (arith, text_eq_refl x.id)
      | inr miss ↦
          let far =
            find_all (λ y. text_eq y.id x.id ≡ false) customer users {u = u} d (ground arith) in
          let other : text_eq x.id u.id ≡ false = text_eq_comm x.id u.id ∙ far in
          ground (arith, find_by_id_of_customer customer users {u = u} ds)
    ]
