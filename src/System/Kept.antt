-- ===== src/System/Kept.antt =====
-- What any sequence of operations keeps: the ids, and who is whose Stripe customer.
use blackrock.Prelude.{
  true, ◌≡◌, ◌≤◌, refl, ap, ◌∙◌, inl, inr, Option, none, some, List, [], ◌∷◌, arith, Bool-cases,
  find?,
}
use blackrock.Text.{Text, text_eq}
use blackrock.Users.{User, find_by_id, has_id, customer_id}
use blackrock.Users.Laws.{HasDistinctIds}
use blackrock.Stripe.{Failure, Services}
use blackrock.Action.{World}
use blackrock.Webhook.Writes.{last_time}
use blackrock.Mailing.{Mailchimp}
use blackrock.System.{
  Operation, run, run_all, Account, account_of, accounts_of, AccountStep, join, advance, Step,
  first, next,
}
use blackrock.System.Refines.{run_refines}
use blackrock.System.Distinct.{same_id, HasDistinctIds-Stays}

-- The account with an id.
abbrev find_account : Text → List Account → Option Account
find_account id accounts = find? (λ (a : Account). text_eq a.id id) accounts

find_account-accounts_of :
    (id : Text) (users : List User) {u : User}
    → find_by_id id users ≡ some u
    → find_account id (accounts_of users) ≡ some (account_of u)
find_account-accounts_of id [] e = cc
find_account-accounts_of id (x ∷ users) {u} e = elim (Bool-cases (has_id id x)) [
  | inl hit ↦ rw hit (ap (λ (o : Option User). ap_account o) (rw hit at e))
  | inr miss ↦ rw miss (find_account-accounts_of id users {u = u} (rw miss at e))
]
  where
    ap_account : Option User → Option Account
    ap_account none = none
    ap_account (some y) = some (account_of y)

found_user :
    (id : Text) (users : List User) {a : Account}
    → find_account id (accounts_of users) ≡ some a
    → (u : User) × (find_by_id id users ≡ some u) × (account_of u ≡ a)
found_user id [] e = cc
found_user id (x ∷ users) {a} e = elim (Bool-cases (has_id id x)) [
  | inl hit ↦ (x, rw hit, ground arith)
  | inr miss ↦
      let (u, found, same) = found_user id users {a = a} (rw miss at e) in (u, rw miss found, same)
]

-- How an account that is a customer changes.
abbrev Kept : Text → Account → List Account → Type 0
Kept id a accounts =
    (b : Account) × (find_account id accounts ≡ some b)
    × (b.customer ≡ a.customer)
    × (a.time ≤ b.time)

Kept-head :
    (id customer : Text) {x y a : Account} (rest : List Account)
    → AccountStep x y
    → text_eq x.id id ≡ true
    → x.customer ≡ some customer
    → x ≡ a
    → Kept id a (y ∷ rest)
Kept-head id customer rest (join fresh _ _) hit has same = absurd (ground arith)
Kept-head id customer {x} {y} rest (advance later same_id' same_customer) hit has same =
    (y, rw (same_id', hit) refl, rw (← same) same_customer, rw (← same) later)

Kept-Step :
    (id customer : Text) {before then' : List Account} {a : Account}
    → Step before then'
    → find_account id before ≡ some a
    → a.customer ≡ some customer
    → Kept id a then'
Kept-Step id customer {a = a} (first {a = x} {b = y} {rest} step) found has =
    elim (Bool-cases (text_eq x.id id)) [
      | inl hit ↦
          let same : x ≡ a = ground (arith, rw hit at found) in
          Kept-head id customer rest step hit (rw same has) same
      | inr miss ↦ (a, rw (same_id step, miss) (rw miss at found), refl, omega arith)
    ]
Kept-Step id customer {a = a} (next {a = x} step) found has = elim (Bool-cases (text_eq x.id id)) [
  | inl hit ↦ (a, rw hit (rw hit at found), refl, omega arith)
  | inr miss ↦
      let (b, now, same, later) = Kept-Step id customer {a = a} step (rw miss at found) has in
      (b, rw miss now, same, later)
]

module _ {S : Type 0} (v : Services S) (m : Mailchimp S) (message : Failure → Text) where
  run_distinct :
      (o : Operation) (w : World S)
      → HasDistinctIds w.users
      → HasDistinctIds (run v m message o w).users
  run_distinct o w distinct =
      HasDistinctIds-Stays w.users (run v m message o w).users
        (run_refines v m message o w distinct) distinct

  Kept-run_all :
      (id customer : Text) (operations : List Operation) (w : World S) {a : Account}
      → HasDistinctIds w.users
      → find_account id (accounts_of w.users) ≡ some a
      → a.customer ≡ some customer
      → Kept id a (accounts_of (run_all v m message operations w).users)
  unfolding run_all
  Kept-run_all id customer [] w {a} _ found has = (a, found, refl, omega arith)
  Kept-run_all id customer (o ∷ operations) w {a} distinct found has =
      let w' = run v m message o w in
      let (b, now, same, later) : Kept id a (accounts_of w'.users) =
        elim (run_refines v m message o w distinct) [
          | inl still ↦ (a, rw still found, refl, omega arith)
          | inr step ↦ Kept-Step id customer step found has
        ] in
      let (c, then', same', later') =
        Kept-run_all id customer operations w' {a = b} (run_distinct o w distinct) now
          (same ∙ has) in
      (c, then', same' ∙ same, omega arith)

  -- A user who is a Stripe customer stays that customer, under the same id, through any sequence of
  -- operations of anybody, and the time of its last handled invoice never goes back; if no two users
  -- share an id to begin with.
  pub run_all_kept :
      (operations : List Operation) (id customer : Text) (user : User) (w : World S)
      → HasDistinctIds w.users
      → find_by_id id w.users ≡ some user
      → customer_id user ≡ some customer
      → (user' : User) × (find_by_id id (run_all v m message operations w).users ≡ some user')
        × (customer_id user' ≡ some customer)
        × (last_time user ≤ last_time user')
  run_all_kept operations id customer user w distinct found has =
      let (b, now, same, later) =
        Kept-run_all id customer operations w {a = account_of user} distinct
          (find_account-accounts_of id w.users {u = user} found) has in
      let (user', found', is) =
        found_user id (run_all v m message operations w).users {a = b} now in
      (user', found', ap (λ (a : Account). a.customer) is ∙ same ∙ has, rw (← is) at later)
