-- ===== src/Fiber.antt =====
-- A server method as a fiber of shell/packages/blackrock-payments/payments-server.js: Meteor runs each
-- call in a fiber of its own, which waits at every read or write of a collection and at every call of
-- Stripe; other fibers run meanwhile. A fiber is the steps between two such waits.
pub mod Alone
pub mod Safe
pub mod Methods
pub mod Serial
pub mod Spawned
pub mod Fits
pub mod Owned
pub mod OwnedMethods
pub mod OwnedEvents
pub mod OwnedAll
pub mod Races
mod Tests
use blackrock.Prelude.{ℕ, zero, suc, Bool, true, false, ◌&&◌, List, [], ◌∷◌}
use blackrock.Stripe.{Failure, Result, ok, err}
use blackrock.Action.{World, Action}

-- What a step does to the world, and what is left to do after it, by the world that it has found.
pub data Fiber (S A : Type 0) : Type 0 where
  done : Result A → Fiber S A
  step : (World S → World S) → (World S → Fiber S A) → Fiber S A

module _ {S A : Type 0} where
  -- An action with no wait inside it.
  abbrev pub once : Action S A → Fiber S A
  once m = step (λ w. (m w).1) (λ w. done (m w).0)

  -- A fiber that nobody interrupts.
  unfoldable pub alone : Fiber S A → Action S A
  alone (done r) w = (r, w)
  alone (step act next) w = alone (next w) (act w)

infixl 5 ◌>>=◌ ◌>>◌
abbrev pub ◌>>=◌ : {S A B : Type 0} → Fiber S A → (A → Fiber S B) → Fiber S B
done (ok a) >>= f = f a
done (err e) >>= f = done (err e)
step act next >>= f = step act (λ w. next w >>= f)

abbrev pub ◌>>◌ : {S A B : Type 0} → Fiber S A → Fiber S B → Fiber S B
m >> k = m >>= λ _. k

module _ {S : Type 0} where
  -- One turn of the fiber with this number, if there is one and it is not done.
  unfoldable pub turn :
      ℕ → List (Fiber S (Unit {0})) → World S → List (Fiber S (Unit {0})) × World S
  turn i [] w = ([], w)
  turn zero (done r ∷ fibers) w = (done r ∷ fibers, w)
  turn zero (step act next ∷ fibers) w = (next w ∷ fibers, act w)
  turn (suc i) (f ∷ fibers) w = let (left, w') = turn i fibers w in (f ∷ left, w')

  -- The turns that a scheduler gives, in order.
  unfoldable pub interleave :
      List ℕ → List (Fiber S (Unit {0})) → World S → List (Fiber S (Unit {0})) × World S
  interleave [] fibers w = (fibers, w)
  interleave (i ∷ schedule) fibers w =
      let (left, w') = turn i fibers w in interleave schedule left w'

  abbrev is_done : Fiber S (Unit {0}) → Bool
  is_done (done r) = true
  is_done (step act next) = false

  -- Is every fiber done?
  abbrev pub are_done : List (Fiber S (Unit {0})) → Bool
  are_done [] = true
  are_done (f ∷ fibers) = is_done f && are_done fibers
