-- ===== src/Fiber/Alone.antt =====
-- Fibers that nobody interrupts, put together.
use blackrock.Prelude.{◌≡◌, refl}
use blackrock.Stripe.{ok, err}
use blackrock.Action
use blackrock.Action.{World, Action}
use blackrock.Fiber.{Fiber, done, step, once, alone, ◌>>=◌}

pub alone-once : {S A : Type 0} (m : Action S A) (w : World S) → alone (once m) w ≡ m w
unfolding alone
alone-once m w = refl

pub alone->>= :
    {S A B : Type 0} (m : Fiber S A) (f : A → Fiber S B) (w : World S)
    → alone (m >>= f) w ≡ (Action.◌>>=◌ (alone m) (λ a. alone (f a))) w
unfolding alone
alone->>= (done (ok a)) f w = refl
alone->>= (done (err e)) f w = refl
alone->>= (step act next) f w = alone->>= (next w) f (act w)
