-- ===== src/Migration/Queues.antt =====
-- The queues of the migration: what pushing and shifting do to the customers that they hold, and that
-- every customer is in the queue of its own address.
use blackrock.Prelude.{
  ◌≡◌, refl, inl, inr, none, some, List, [], ◌∷◌, ◌++◌, arith, Bool-cases, append_assoc, All,
  All-append, sym, ap, ◌∙◌,
}
use blackrock.Text.{Text, text_eq}
use blackrock.Text.Laws.{text_eq→eq}
use blackrock.Stripe.{Customer}
use blackrock.Migration.{Queues, key_of, push, group, shift_queue, shift, unused}
use mathlib.Core.List.{Perm, perm_middle}
use mathlib.Core.List.Perm

unused-push : (c : Customer) (queues : Queues) → Perm (unused (push c queues)) (c ∷ unused queues)
unfolding push unused
unused-push c [] = Perm.refl (c ∷ [])
unused-push c ((key, queue) ∷ queues) = elim (Bool-cases (text_eq key (key_of c))) [
  | inl hit ↦
      rw (hit, append_assoc queue (c ∷ []) (unused queues)) (perm_middle queue (unused queues))
  | inr miss ↦ rw miss (
      Perm.trans (Perm.append_left queue (unused-push c queues))
        (perm_middle queue (unused queues)))
]

pub unused-group :
    (customers : List Customer) (queues : Queues)
    → Perm (unused (group customers queues)) (customers ++ unused queues)
unfolding group
unused-group [] queues = Perm.refl (unused queues)
unused-group (c ∷ customers) queues = Perm.trans (unused-group customers (push c queues)) (
    Perm.trans (Perm.append_left customers (unused-push c queues))
      (perm_middle customers (unused queues)))

pub unused-shift_miss :
    (email : Text) (queues : Queues)
    → (shift email queues).0 ≡ none
    → unused (shift email queues).1 ≡ unused queues
unfolding shift unused
unused-shift_miss email [] h = refl
unused-shift_miss email ((key, []) ∷ queues) h = ground (arith, unused-shift_miss email queues)
unused-shift_miss email ((key, c ∷ queue) ∷ queues) h =
    ground (arith, unused-shift_miss email queues)

unused-shift_queue :
    (key : Text) (queue : List Customer) (queues : Queues) {c : Customer}
    → (shift_queue key queue queues).0 ≡ some c
    → Perm (c ∷ unused (shift_queue key queue queues).1) (queue ++ unused queues)
unfolding unused
unused-shift_queue key [] queues h = cc
unused-shift_queue key (x ∷ queue) queues {c} h =
    let same : c ≡ x = ground arith in Perm.cons' same (Perm.refl (queue ++ unused queues))

pub unused-shift_hit :
    (email : Text) (queues : Queues) {c : Customer}
    → (shift email queues).0 ≡ some c
    → Perm (c ∷ unused (shift email queues).1) (unused queues)
unfolding shift unused
unused-shift_hit email [] h = cc
unused-shift_hit email ((key, queue) ∷ queues) {c} h = elim (Bool-cases (text_eq key email)) [
  | inl hit ↦ rw hit (unused-shift_queue key queue queues {c = c} (rw hit at h))
  | inr miss ↦ rw miss (
      Perm.trans (Perm.symm (perm_middle queue (unused (shift email queues).1)))
        (Perm.append_left queue (unused-shift_hit email queues {c = c} (rw miss at h))))
]

-- Every customer is in the queue of its address.
abbrev pub IsFiled : Queues → Type 0
IsFiled = All (λ entry. All (λ c. key_of c ≡ entry.0) entry.1)

push-IsFiled : (c : Customer) (queues : Queues) → IsFiled queues → IsFiled (push c queues)
unfolding push
push-IsFiled c [] h = ((refl, tt), tt)
push-IsFiled c ((key, queue) ∷ queues) (own, h) = elim (Bool-cases (text_eq key (key_of c))) [
  | inl hit ↦ rw hit (
    All-append (λ x. key_of x ≡ key) queue (c ∷ []) own (sym (text_eq→eq key (key_of c) hit), tt),
    h,
  )
  | inr miss ↦ rw miss (own, push-IsFiled c queues h)
]

pub group-IsFiled :
    (customers : List Customer) (queues : Queues)
    → IsFiled queues
    → IsFiled (group customers queues)
unfolding group
group-IsFiled [] queues h = h
group-IsFiled (c ∷ customers) queues h =
    group-IsFiled customers (push c queues) (push-IsFiled c queues h)

shift_queue-IsFiled :
    (key : Text) (queue : List Customer) (queues : Queues)
    → IsFiled ((key, queue) ∷ queues)
    → IsFiled (shift_queue key queue queues).1
shift_queue-IsFiled key [] queues h = h
shift_queue-IsFiled key (x ∷ queue) queues ((_, own), h) = (own, h)

pub shift-IsFiled :
    (email : Text) (queues : Queues) → IsFiled queues → IsFiled (shift email queues).1
unfolding shift
shift-IsFiled email [] h = tt
shift-IsFiled email ((key, queue) ∷ queues) (own, h) = elim (Bool-cases (text_eq key email)) [
  | inl hit ↦ rw hit (shift_queue-IsFiled key queue queues (own, h))
  | inr miss ↦ rw miss (own, shift-IsFiled email queues h)
]

key_of-shift_queue :
    (key : Text) (queue : List Customer) (queues : Queues) {c : Customer}
    → IsFiled ((key, queue) ∷ queues)
    → (shift_queue key queue queues).0 ≡ some c
    → key_of c ≡ key
key_of-shift_queue key [] queues h e = cc
key_of-shift_queue key (x ∷ queue) queues {c} ((own, _), _) e =
    let same : c ≡ x = ground arith in ap key_of same ∙ own

pub key_of-shift :
    (email : Text) (queues : Queues) {c : Customer}
    → IsFiled queues
    → (shift email queues).0 ≡ some c
    → key_of c ≡ email
unfolding shift
key_of-shift email [] h e = cc
key_of-shift email ((key, queue) ∷ queues) {c} (own, h) e = elim (Bool-cases (text_eq key email)) [
  | inl hit ↦
      key_of-shift_queue key queue queues {c = c} (own, h) (rw hit at e) ∙ text_eq→eq key email hit
  | inr miss ↦ key_of-shift email queues {c = c} h (rw miss at e)
]
