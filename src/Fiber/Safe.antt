-- ===== src/Fiber/Safe.antt =====
-- What every turn of a fiber keeps, whatever other fibers do between its turns.
use blackrock.Prelude.{ℕ, zero, suc, List, [], ◌∷◌, All}
use blackrock.Stripe.{Result, ok, err}
use blackrock.Action.{World, Action}
use blackrock.Fiber.{Fiber, done, step, once, turn, interleave, ◌>>=◌}

-- A predicate of what is returned, if something is.
abbrev pub Returned : {A : Type 0} → (A → Type 0) → Result A → Type 0
Returned Q (ok a) = Q a
Returned Q (err e) = Unit

pub returned : {A : Type 0} (r : Result A) → Returned (λ _. Unit) r
returned (ok a) = tt
returned (err e) = tt

module _ {S : Type 0} (P : World S → Type 0) where
  -- Each turn keeps `P`, in any world with `P`, and `Q` holds for the result.
  unfoldable pub Ensures : {A : Type 0} → (A → Type 0) → Fiber S A → Type 0
  Ensures Q (done r) = Returned Q r
  Ensures Q (step act next) = (w : World S) → P w → P (act w) × Ensures Q (next w)

  pub done-Ensures : {A : Type 0} (r : Result A) → Ensures (λ _. Unit) (done r)
  unfolding Ensures
  done-Ensures r = returned r

  pub once-Ensures :
      {A : Type 0} (Q : A → Type 0) (m : Action S A)
      → ((w : World S) → P w → P (m w).1 × Returned Q (m w).0)
      → Ensures Q (once m)
  unfolding Ensures
  once-Ensures Q m h = h

  pub >>=-Ensures :
      {A B : Type 0} (Q : A → Type 0) (R : B → Type 0) (m : Fiber S A) (f : A → Fiber S B)
      → Ensures Q m
      → ((a : A) → Q a → Ensures R (f a))
      → Ensures R (m >>= f)
  unfolding Ensures
  >>=-Ensures Q R (done (ok a)) f h = λ k. k a h
  >>=-Ensures Q R (done (err e)) f h = λ k. tt
  >>=-Ensures Q R (step act next) f h = λ k w p. ((h w p).0, >>=-Ensures Q R (next w) f (h w p).1 k)

  turn-Ensures :
      (i : ℕ) (fibers : List (Fiber S (Unit {0}))) (w : World S)
      → All (Ensures (λ _. Unit)) fibers
      → P w
      → All (Ensures (λ _. Unit)) (turn i fibers w).0 × P (turn i fibers w).1
  unfolding turn Ensures
  turn-Ensures i [] w h p = (tt, p)
  turn-Ensures zero (done r ∷ fibers) w h p = (h, p)
  turn-Ensures zero (step act next ∷ fibers) w (h, hs) p = (((h w p).1, hs), (h w p).0)
  turn-Ensures (suc i) (f ∷ fibers) w (h, hs) p =
      let (hs', p') = turn-Ensures i fibers w hs p in ((h, hs'), p')

  -- So does any schedule of such fibers.
  pub interleave-Ensures :
      (schedule : List ℕ) (fibers : List (Fiber S (Unit {0}))) (w : World S)
      → All (Ensures (λ _. Unit)) fibers
      → P w
      → P (interleave schedule fibers w).1
  unfolding interleave
  interleave-Ensures [] fibers w h p = p
  interleave-Ensures (i ∷ schedule) fibers w h p =
      let (h', p') = turn-Ensures i fibers w h p in
      interleave-Ensures schedule (turn i fibers w).0 (turn i fibers w).1 h' p'
