-- ===== src/Text/Laws.antt =====
-- The laws of `===` and `split`.
use blackrock.Prelude.{ℕ, ◌≡◌, refl, ◌↔◌, true, [], ◌∷◌, ◌++◌, arith}
use blackrock.Text.{Text, text_eq, split, first_part, Lacks}

pub text_eq→eq : (s t : Text) → text_eq s t ≡ true → s ≡ t
unfolding text_eq
text_eq→eq [] [] h = refl
text_eq→eq [] (d ∷ t) h = cc
text_eq→eq (c ∷ s) [] h = cc
text_eq→eq (c ∷ s) (d ∷ t) h = ground (arith, text_eq→eq s t)

pub text_eq_refl : (s : Text) → text_eq s s ≡ true
unfolding text_eq
text_eq_refl [] = refl
text_eq_refl (c ∷ s) = ground (arith, text_eq_refl s)

pub text_eq_comm : (s t : Text) → text_eq s t ≡ text_eq t s
unfolding text_eq
text_eq_comm [] [] = refl
text_eq_comm [] (d ∷ t) = refl
text_eq_comm (c ∷ s) [] = refl
text_eq_comm (c ∷ s) (d ∷ t) = ground (arith, text_eq_comm s t)

pub text_eq_iff : (s t : Text) → (text_eq s t ≡ true) ↔ (s ≡ t)
text_eq_iff s t = (text_eq→eq s t, λ e. rw e (text_eq_refl t))

pub split_lacking : (sep : ℕ) (p : Text) → Lacks sep p → split sep p ≡ p ∷ []
unfolding split
split_lacking sep [] _ = refl
split_lacking sep (c ∷ p) (h, hp) = rw (h, split_lacking sep p hp)

pub split-append : (sep : ℕ) (p s : Text) → Lacks sep p → split sep (p ++ sep ∷ s) ≡ p ∷ split sep s
unfolding split
split-append sep [] s _ = ground arith
split-append sep (c ∷ p) s (h, hp) = rw (h, split-append sep p s hp)

-- The first part of a text that lacks the separator is the text, with or without a suffix behind a
-- separator.
pub first_part_lacking : (sep : ℕ) (p : Text) → Lacks sep p → first_part sep p ≡ p
unfolding first_part
first_part_lacking sep p h = rw (split_lacking sep p h)

pub first_part-append : (sep : ℕ) (p s : Text) → Lacks sep p → first_part sep (p ++ sep ∷ s) ≡ p
unfolding first_part
first_part-append sep p s h = rw (split-append sep p s h)
