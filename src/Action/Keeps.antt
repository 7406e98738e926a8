-- ===== src/Action/Keeps.antt =====
-- Actions that leave the `users` collection as it is, whatever they return or throw.
use blackrock.Prelude.{◌≡◌, refl, ◌∙◌, inl, inr, List, [], ◌∷◌, arith}
use blackrock.Stripe.{Result-cases, Failure, Result, ok, err}
use blackrock.Action.{for_each, World, Action, try_catch, ◌>>=◌, ◌>>◌}

abbrev pub KeepsUsers : {S A : Type 0} → Action S A → Type 0
KeepsUsers {S} m = (w : World S) → (m w).1.users ≡ w.users

module _ {S A B : Type 0} where
  pub >>=-KeepsUsers :
      (m : Action S A) (f : A → Action S B)
      → KeepsUsers m
      → ((a : A) → KeepsUsers (f a))
      → KeepsUsers (m >>= f)
  >>=-KeepsUsers m f hm hf w = go (m w).0 (m w).1 (hm w)
    where
      go :
          (r : Result A) (w' : World S)
          → w'.users ≡ w.users
          → (elim r as (λ _. Result B × World S) [ ok a ↦ f a w' | err e ↦ (err e, w') ]).1.users
            ≡ w.users
      go (ok a) w' h = hf a w' ∙ h
      go (err e) w' h = h

module _ {S A : Type 0} where
  pub try_catch-KeepsUsers :
      (m : Action S A) (handler : Failure → Action S A)
      → KeepsUsers m
      → ((e : Failure) → KeepsUsers (handler e))
      → KeepsUsers (try_catch m handler)
  try_catch-KeepsUsers m handler hm hh w = go (m w).0 (m w).1 (hm w)
    where
      go :
          (r : Result A) (w' : World S)
          → w'.users ≡ w.users
          → (elim r as (λ _. Result A × World S) [
            | ok a ↦ (ok a, w')
            | err e ↦ handler e w'
          ]).1.users
            ≡ w.users
      go (ok a) w' h = h
      go (err e) w' h = hh e w' ∙ h

-- Actions that leave the `mailchimpSubscribers` collection as it is.
abbrev pub KeepsSubscribers : {S A : Type 0} → Action S A → Type 0
KeepsSubscribers {S} m = (w : World S) → (m w).1.subscribers ≡ w.subscribers

-- One round of a loop.
module _ {S A : Type 0} (f : A → Action S (Unit {0})) (x : A) (xs : List A) (w : World S) where
  pub for_each_next : (f x w).0 ≡ ok tt → for_each f (x ∷ xs) w ≡ for_each f xs (f x w).1
  unfolding for_each
  for_each_next done = ground arith

  pub for_each_stop : (e : Failure) → (f x w).0 ≡ err e → for_each f (x ∷ xs) w ≡ (err e, (f x w).1)
  unfolding for_each
  for_each_stop e thrown = ground arith

-- A loop keeps what each of its rounds keeps.
module _ {S A B : Type 0} (field : World S → B) (f : A → Action S (Unit {0}))
    (keep : (x : A) (w : World S) → field (f x w).1 ≡ field w) where
  pub for_each_keeps : (xs : List A) (w : World S) → field (for_each f xs w).1 ≡ field w
  unfolding for_each
  for_each_keeps [] w = refl
  for_each_keeps (x ∷ xs) w = elim (Result-cases (f x w).0) [
    | inl (_, done) ↦ rw (for_each_next f x xs w done) (for_each_keeps xs (f x w).1 ∙ keep x w)
    | inr (e, thrown) ↦ rw (for_each_stop f x xs w e thrown) (keep x w)
  ]

-- Actions that keep a field of the world, and how they are put together.
module _ {S C : Type 0} (field : World S → C) where
  abbrev pub Keeps : {A : Type 0} → Action S A → Type 0
  Keeps m = (w : World S) → field (m w).1 ≡ field w

  module _ {A B : Type 0} where
    pub >>=-Keeps :
        (m : Action S A) (f : A → Action S B) → Keeps m → ((a : A) → Keeps (f a)) → Keeps (m >>= f)
    >>=-Keeps m f hm hf w = elim (Result-cases (m w).0) [
      | inl (a, done) ↦ rw (◌>>=◌, done) (hf a (m w).1 ∙ hm w)
      | inr (e, thrown) ↦ rw (◌>>=◌, thrown) (hm w)
    ]

    pub then-Keeps : (m : Action S A) (k : Action S B) → Keeps m → Keeps k → Keeps (m >> k)
    then-Keeps m k hm hk = >>=-Keeps m (λ _. k) hm λ _. hk
