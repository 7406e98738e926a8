-- ===== src/Action.antt =====
-- A server method as an action: it reads and writes the `users` collection and the outside world,
-- and it returns or throws. What was written before a throw stays written.
pub mod Keeps
use blackrock.Prelude.{Bool, Option, none, some, List, [], ◌∷◌, if◌then◌else◌}
use blackrock.Text.{Text}
use blackrock.Users.{User, Subscriber, update_user}
use blackrock.Stripe.{Failure, Result, ok, err, Request}

pub record World (S : Type 0) : Type 0 where
  pub users : List User
  -- the `mailchimpSubscribers` collection
  pub subscribers : List Subscriber
  -- the users with an unread notice of the mailing list's bonus
  pub notifications : List Text
  -- the requests made so far, the newest first
  pub requests : List Request
  pub outside : S

abbrev pub Action : Type 0 → Type 0 → Type 0
Action S A = World S → Result A × World S

module _ {S A : Type 0} where
  abbrev pub pure : A → Action S A
  pure a w = (ok a, w)

  abbrev pub throw : Failure → Action S A
  throw e w = (err e, w)

  -- A call that only reads.
  abbrev pub read : (S → Result A) → Action S A
  read f w = (f w.outside, w)

  abbrev pub gets_outside : (S → A) → Action S A
  gets_outside f w = (ok (f w.outside), w)

  abbrev pub gets_users : (List User → A) → Action S A
  gets_users f w = (ok (f w.users), w)

  abbrev pub gets_subscribers : (List Subscriber → A) → Action S A
  gets_subscribers f w = (ok (f w.subscribers), w)

  -- A request: it is recorded, and the outside world answers.
  abbrev pub perform : Request → (Request → S → Result A × S) → Action S A
  perform r answer w = (
    (answer r w.outside).0,
    record w { requests = r ∷ w.requests; outside = (answer r w.outside).1 },
  )

  -- `try { … } catch (err) { … }`
  abbrev pub try_catch : Action S A → (Failure → Action S A) → Action S A
  try_catch m handler w = elim (m w).0 [ ok a ↦ (ok a, (m w).1) | err e ↦ handler e (m w).1 ]

-- `promise.then(success, failure)`: what the first function throws does not reach the second.
abbrev pub then_or :
    {S A B : Type 0} → Action S A → (A → Action S B) → (Failure → Action S B) → Action S B
then_or m success failure w = elim (m w).0 [ ok a ↦ success a (m w).1 | err e ↦ failure e (m w).1 ]

infixl 5 ◌>>=◌ ◌>>◌
abbrev pub ◌>>=◌ : {S A B : Type 0} → Action S A → (A → Action S B) → Action S B
◌>>=◌ m f w = elim (m w).0 [ ok a ↦ f a (m w).1 | err e ↦ (err e, (m w).1) ]

abbrev pub ◌>>◌ : {S A B : Type 0} → Action S A → Action S B → Action S B
m >> k = m >>= λ _. k

module _ {S : Type 0} where
  abbrev pub throw_if : Bool → Failure → Action S (Unit {0})
  throw_if c e w = (if c then err e else ok tt, w)

  -- A write to the `mailchimpSubscribers` collection.
  abbrev pub set_subscribers : (List Subscriber → List Subscriber) → Action S (Unit {0})
  set_subscribers change w = (ok tt, record w { subscribers = change w.subscribers })

  -- `list.forEach(…)`, which ends where a call throws.
  unfoldable pub for_each : {A : Type 0} → (A → Action S (Unit {0})) → List A → Action S (Unit {0})
  for_each f [] = pure tt
  for_each f (x ∷ xs) = f x >> for_each f xs

  -- `Meteor.users.update({_id: id}, {$set: …})`
  abbrev pub set_user : Text → (User → User) → Action S (Unit {0})
  set_user id change w = (ok tt, record w { users = update_user id change w.users })
