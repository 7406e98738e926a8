-- ===== src/System/Distinct.antt =====
-- The distinct ids of the users, through the steps of their accounts.
use blackrock.Prelude.{◌≡◌, inl, inr, List, [], ◌∷◌, All, false}
use blackrock.Text.{Text, text_eq}
use blackrock.Users.{User}
use blackrock.Users.Laws.{HasDistinctIds}
use blackrock.System.{Account, accounts_of, AccountStep, join, advance, Step, first, next}
use blackrock.System.Accounts.{Stays}

-- No two accounts share an id.
abbrev HasDistinctAccounts : List Account → Type 0
HasDistinctAccounts [] = Unit
HasDistinctAccounts (a ∷ accounts) =
    All (λ other. text_eq other.id a.id ≡ false) accounts × HasDistinctAccounts accounts

All-accounts_of :
    (id : Text) (users : List User)
    → All (λ other. text_eq other.id id ≡ false) users
    → All (λ (other : Account). text_eq other.id id ≡ false) (accounts_of users)
All-accounts_of id [] h = h
All-accounts_of id (u ∷ users) (p, h) = (p, All-accounts_of id users h)

HasDistinctAccounts-accounts_of :
    (users : List User) → HasDistinctIds users → HasDistinctAccounts (accounts_of users)
HasDistinctAccounts-accounts_of [] d = d
HasDistinctAccounts-accounts_of (u ∷ users) (far, d) =
    (All-accounts_of u.id users far, HasDistinctAccounts-accounts_of users d)

All-users :
    (id : Text) (users : List User)
    → All (λ (other : Account). text_eq other.id id ≡ false) (accounts_of users)
    → All (λ other. text_eq other.id id ≡ false) users
All-users id [] h = h
All-users id (u ∷ users) (p, h) = (p, All-users id users h)

HasDistinctIds-users :
    (users : List User) → HasDistinctAccounts (accounts_of users) → HasDistinctIds users
HasDistinctIds-users [] d = d
HasDistinctIds-users (u ∷ users) (far, d) = (All-users u.id users far, HasDistinctIds-users users d)

pub same_id : {a b : Account} → AccountStep a b → b.id ≡ a.id
same_id (join _ e _) = e
same_id (advance _ e _) = e

All-Step :
    (id : Text) {before then' : List Account}
    → Step before then'
    → All (λ other. text_eq other.id id ≡ false) before
    → All (λ other. text_eq other.id id ≡ false) then'
All-Step id (first step) (p, h) = (rw (same_id step) p, h)
All-Step id (next step) (p, h) = (p, All-Step id step h)

HasDistinctAccounts-Step :
    {before then' : List Account}
    → Step before then'
    → HasDistinctAccounts before
    → HasDistinctAccounts then'
HasDistinctAccounts-Step (first step) (far, d) = (rw (same_id step) far, d)
HasDistinctAccounts-Step (next {a} step) (far, d) =
    (All-Step a.id step far, HasDistinctAccounts-Step step d)

pub HasDistinctIds-Stays :
    (users users' : List User)
    → Stays (accounts_of users) (accounts_of users')
    → HasDistinctIds users
    → HasDistinctIds users'
HasDistinctIds-Stays users users' (inl same) d =
    HasDistinctIds-users users' (rw same (HasDistinctAccounts-accounts_of users d))
HasDistinctIds-Stays users users' (inr step) d =
    HasDistinctIds-users users'
      (HasDistinctAccounts-Step step (HasDistinctAccounts-accounts_of users d))
