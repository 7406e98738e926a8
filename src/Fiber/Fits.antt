-- ===== src/Fiber/Fits.antt =====
-- The accounts of the users beside those of an earlier time, where each may have got a Stripe customer
-- of its own.
use blackrock.Prelude.{true, ◌≡◌, refl, ◌⊎◌, inl, inr, List, [], ◌∷◌, some, Bool-cases}
use blackrock.Text.{Text}
use blackrock.Users.{User, has_id, update_user}
use blackrock.System.{Account, account_of, accounts_of}

module _ (Owns : Text → Text → Type 0) where
  -- The same id, and the customer that it was, or one that the id owns.
  abbrev pub Fit : Account → Account → Type 0
  Fit a b =
      (b.id ≡ a.id)
      × ((b.customer ≡ a.customer) ⊎ ((c : Text) × (b.customer ≡ some c) × Owns a.id c))

  -- One account fits the other, from the first to the last.
  pub data Fits : List Account → List Account → Type 0 where
    nobody : Fits [] []
    somebody :
        {a b : Account} {before now : List Account}
        → Fit a b
        → Fits before now
        → Fits (a ∷ before) (b ∷ now)

  pub Fits-refl : (accounts : List Account) → Fits accounts accounts
  Fits-refl [] = nobody
  Fits-refl (a ∷ accounts) = somebody (refl, inl refl) (Fits-refl accounts)

  pub Fits-update_user :
      (id : Text) (change : User → User) {before : List Account} (users : List User)
      → ((a : Account) (u : User)
          → has_id id u ≡ true
          → Fit a (account_of u)
          → Fit a (account_of (change u)))
      → Fits before (accounts_of users)
      → Fits before (accounts_of (update_user id change users))
  unfolding update_user
  Fits-update_user id change [] keep fits = fits
  Fits-update_user id change (u ∷ users) keep (somebody {a} fit fits) =
      elim (Bool-cases (has_id id u)) [
        | inl hit ↦ rw hit (somebody (keep a u hit fit) fits)
        | inr miss ↦ rw miss (somebody fit (Fits-update_user id change users keep fits))
      ]
