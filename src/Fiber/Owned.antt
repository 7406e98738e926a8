-- ===== src/Fiber/Owned.antt =====
-- Whose Stripe customer a user becomes, whatever other fibers do between the turns of a method.
use blackrock.Text.Laws.{text_eq→eq}
use blackrock.Prelude.{
  none, if◌then◌else◌, Option, Bool, true, false, true, ◌≡◌, refl, inr, List, some,
}
use blackrock.Text.{Text, is_truthy}
use blackrock.Users.{User, customer_id, set_customer}
use blackrock.System.{Account, accounts_of}
use blackrock.Stripe.{Result}
use blackrock.Action.{World, Action, set_user}
use blackrock.Fiber.{Fiber, done, once, ◌>>=◌}
use blackrock.Fiber.Safe.{done-Ensures, once-Ensures, Ensures, returned, >>=-Ensures}
use blackrock.Fiber.Fits.{Fits, Fits-update_user}

module _ {S : Type 0} (Owns : Text → Text → Type 0) (before : List Account) where
  -- What each turn keeps.
  abbrev pub FitsBefore : World S → Type 0
  FitsBefore w = Fits Owns before (accounts_of w.users)

  abbrev pub IsSafe : {A : Type 0} → Fiber S A → Type 0
  IsSafe f = Ensures FitsBefore (λ _. Unit) f

  abbrev pub KeepsThem : {A : Type 0} → Action S A → Type 0
  KeepsThem m = (w : World S) → accounts_of (m w).1.users ≡ accounts_of w.users

  -- A step that changes no account, alone or with something after it.
  pub keeps_IsSafe : {A : Type 0} (m : Action S A) → KeepsThem m → IsSafe (once m)
  keeps_IsSafe m keep =
      once-Ensures FitsBefore (λ _. Unit) m λ w p. (rw (keep w) p, returned (m w).0)

  pub first-IsSafe :
      {A B : Type 0} (m : Action S A) (f : A → Fiber S B)
      → KeepsThem m
      → ((a : A) → IsSafe (f a))
      → IsSafe (once m >>= f)
  first-IsSafe m f keep k =
      >>=-Ensures FitsBefore (λ _. Unit) (λ _. Unit) (once m) f (keeps_IsSafe m keep) (λ a _. k a)

  -- A fiber, and what follows it.
  pub part-IsSafe :
      {A B : Type 0} (m : Fiber S A) (f : A → Fiber S B)
      → IsSafe m
      → ((a : A) → IsSafe (f a))
      → IsSafe (m >>= f)
  part-IsSafe m f h k = >>=-Ensures FitsBefore (λ _. Unit) (λ _. Unit) m f h (λ a _. k a)

  pub option-IsSafe :
      {A B : Type 0} (o : Option A) (f : Fiber S B) (g : A → Fiber S B)
      → IsSafe f
      → ((a : A) → IsSafe (g a))
      → IsSafe (elim o [ none ↦ f | some a ↦ g a ])
  option-IsSafe none f g hf hg = hf
  option-IsSafe (some a) f g hf hg = hg a

  pub bool-IsSafe :
      {A : Type 0} (b : Bool) (f g : Fiber S A) → IsSafe f → IsSafe g → IsSafe (if b then f else g)
  bool-IsSafe true f g hf hg = hf
  bool-IsSafe false f g hf hg = hg

module _ (S : Type 0) (Owns : Text → Text → Type 0) (before : List Account) where
  pub done-IsSafe : {A : Type 0} (r : Result A) → IsSafe {S = S} Owns before (done r)
  done-IsSafe r = done-Ensures (FitsBefore Owns before) r

  -- A write that changes neither an id nor a customer.
  pub write-IsSafe :
      (id : Text) (change : User → User)
      → ((u : User) → (change u).id ≡ u.id)
      → ((u : User) → customer_id (change u) ≡ customer_id u)
      → IsSafe {S = S} Owns before (once (set_user id change))
  unfolding customer_id
  write-IsSafe id change same_id same_customer =
      once-Ensures (FitsBefore Owns before) (λ _. Unit) (set_user id change)
        λ w p. (
          Fits-update_user Owns id change w.users (λ a u _ fit. rw (same_id u, same_customer u) fit)
              p,
          tt,
        )

  pub customer-IsSafe :
      (user_id customer : Text)
      → is_truthy customer ≡ true
      → Owns user_id customer
      → IsSafe {S = S} Owns before (once (set_user user_id (set_customer customer)))
  unfolding customer_id
  customer-IsSafe user_id customer named owns =
      once-Ensures (FitsBefore Owns before) (λ _. Unit) (set_user user_id (set_customer customer))
        λ w p. (
          Fits-update_user Owns user_id (set_customer customer) w.users
              (λ a u hit fit. (
                fit.0,
                inr (customer, rw named refl, rw (← fit.0, text_eq→eq u.id user_id hit) owns),
              ))
              p,
          tt,
        )
