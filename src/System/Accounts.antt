-- ===== src/System/Accounts.antt =====
-- Writes to the `users` collection, as the steps of accounts see them.
use blackrock.Prelude.{◌≡◌, refl, ap, ◌⊎◌, inl, inr, some, List, [], ◌∷◌, Bool-cases}
use blackrock.Text.{Text}
use blackrock.Users.{User, has_id, find_by_id, update_user}
use blackrock.Action.{World, Action}
use blackrock.System.{Account, account_of, accounts_of, AccountStep, Step, first, next}

-- Writes that leave every account as it is.
pub accounts_of-update_user :
    (id : Text) (change : User → User) (users : List User)
    → ((u : User) → account_of (change u) ≡ account_of u)
    → accounts_of (update_user id change users) ≡ accounts_of users
unfolding update_user
accounts_of-update_user id change [] keep = refl
accounts_of-update_user id change (u ∷ users) keep = elim (Bool-cases (has_id id u)) [
  | inl hit ↦ rw hit (ap (λ a. a ∷ accounts_of users) (keep u))
  | inr miss ↦ rw miss (ap (λ l. account_of u ∷ l) (accounts_of-update_user id change users keep))
]

-- At most one step.
abbrev pub Stays : List Account → List Account → Type 0
Stays before then' = (then' ≡ before) ⊎ Step before then'

Stays-cons :
    (a : Account) {before then' : List Account}
    → Stays before then'
    → Stays (a ∷ before) (a ∷ then')
Stays-cons a (inl same) = inl (ap (λ l. a ∷ l) same)
Stays-cons a (inr step) = inr (next step)

-- A write that is a step of the account that it finds.
pub Stays-update_user :
    (id : Text) (change : User → User) (users : List User)
    → ((u : User)
        → find_by_id id users ≡ some u
        → AccountStep (account_of u) (account_of (change u)))
    → Stays (accounts_of users) (accounts_of (update_user id change users))
unfolding update_user
Stays-update_user id change [] keep = inl refl
Stays-update_user id change (u ∷ users) keep = elim (Bool-cases (has_id id u)) [
  | inl hit ↦ rw hit (inr (first (keep u (rw hit))))
  | inr miss ↦ rw miss (
      Stays-cons (account_of u)
        (Stays-update_user id change users λ x found. keep x (rw miss found)))
]

-- Actions that leave every account as it is.
abbrev pub KeepsAccounts : {S A : Type 0} → Action S A → Type 0
KeepsAccounts {S} m = (w : World S) → accounts_of (m w).1.users ≡ accounts_of w.users
