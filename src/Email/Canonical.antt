-- ===== src/Email/Canonical.antt =====
-- What canonicalisation promises: it is stable, and it forgets the tag and the case of an address.
use mathlib.Core.Option
use blackrock.Prelude.{
  sym, ℕ, ◌≡◌, refl, ap, ◌∙◌, inl, inr, false, none, some, [], ◌∷◌, ◌++◌, map, arith, Option-cases,
  All,
}
use blackrock.Text.{Text, to_lower, Lacks}
use blackrock.Email.{is_terminator, after_at, strip_tag, canonicalize_email}

-- A text on one line.
abbrev pub IsLine : Text → Type 0
IsLine = All (λ c. is_terminator c ≡ false)

-- Nothing behind the longest match of `.*@` can match it again.
after_at-none : (s : Text) {r : Text} → IsLine s → after_at s ≡ some r → after_at r ≡ none
unfolding after_at
after_at-none [] l h = cc
after_at-none (c ∷ s) {r} (p, l) h = elim (Option-cases (after_at s)) [
  | inl none_left ↦ ground arith
  | inr (t, e) ↦ ground (arith, after_at-none s {r = t} l e)
]

after_at_tail :
    (c : ℕ) (s : Text) → is_terminator c ≡ false → after_at (c ∷ s) ≡ none → after_at s ≡ none
unfolding after_at
after_at_tail c s p h = ground arith

after_at-IsLine : (s : Text) {r : Text} → IsLine s → after_at s ≡ some r → IsLine r
unfolding after_at
after_at-IsLine [] l h = cc
after_at-IsLine (c ∷ s) {r} (p, l) h = elim (Option-cases (after_at s)) [
  | inl none_left ↦ let e : r ≡ s = ground arith in rw e l
  | inr (t, e) ↦ after_at-IsLine s l (ground arith)
]

strip_tag-none : (s : Text) → IsLine s → after_at s ≡ none → strip_tag s ≡ s
unfolding strip_tag
strip_tag-none [] l h = refl
strip_tag-none (c ∷ s) (p, l) h = ground (arith, after_at_tail c s p h, strip_tag-none s l)

strip_tag_idem : (s : Text) → IsLine s → strip_tag (strip_tag s) ≡ strip_tag s
unfolding strip_tag
strip_tag_idem [] l = refl
strip_tag_idem (c ∷ s) (p, l) = elim (Option-cases (after_at s)) [
  | inl e ↦ ground (arith, strip_tag-none s l e)
  | inr (r, e) ↦
      ground
        (arith, strip_tag-none r (after_at-IsLine s l e) (after_at-none s l e), strip_tag_idem s l)
]

-- Lower-casing moves none of the characters that the pattern names.
abbrev lower_text : Text → Text
lower_text = map to_lower

after_at-lower : (s : Text) → after_at (map to_lower s) ≡ Option.map lower_text (after_at s)
unfolding after_at
after_at-lower [] = refl
after_at-lower (c ∷ s) = ground (arith, after_at-lower s)

strip_tag-lower : (s : Text) → strip_tag (map to_lower s) ≡ map to_lower (strip_tag s)
unfolding strip_tag
strip_tag-lower [] = refl
strip_tag-lower (c ∷ s) = ground (arith, strip_tag-lower s, after_at-lower s)

lower_idem : (s : Text) → map to_lower (map to_lower s) ≡ map to_lower s
lower_idem [] = refl
lower_idem (c ∷ s) = ground (arith, lower_idem s)

-- Canonicalising the canonical form of a one-line address changes nothing.
pub canonicalize_email_idem :
    (s : Text) → IsLine s → canonicalize_email (canonicalize_email s) ≡ canonicalize_email s
unfolding canonicalize_email
canonicalize_email_idem s l =
    ap (map to_lower) (strip_tag-lower (strip_tag s) ∙ ap (map to_lower) (strip_tag_idem s l))
    ∙ lower_idem (strip_tag s)

after_at_lacking : (d : Text) → Lacks b'@' d → after_at d ≡ none
unfolding after_at
after_at_lacking [] _ = refl
after_at_lacking (c ∷ d) (p, h) = ground (arith, after_at_lacking d h)

after_at-append : (tag d : Text) → IsLine tag → Lacks b'@' d → after_at (tag ++ b'@' ∷ d) ≡ some d
unfolding after_at
after_at-append [] d _ h = ground (arith, after_at_lacking d h)
after_at-append (c ∷ tag) d (p, l) h = ground (arith, after_at-append tag d l h)

strip_tag-append :
    (local rest : Text) → Lacks b'+' local → strip_tag (local ++ rest) ≡ local ++ strip_tag rest
unfolding strip_tag
strip_tag-append [] rest _ = refl
strip_tag-append (c ∷ local) rest (p, h) = ground (arith, strip_tag-append local rest h)

strip_tag_plus :
    (tag d : Text) → IsLine tag → Lacks b'@' d → strip_tag (b'+' ∷ (tag ++ b'@' ∷ d)) ≡ b'@' ∷ d
unfolding strip_tag
strip_tag_plus tag d l h = rw (after_at-append tag d l h)

strip_tag_plain :
    (local d : Text)
    → Lacks b'+' local
    → IsLine d
    → Lacks b'@' d
    → strip_tag (local ++ b'@' ∷ d) ≡ local ++ b'@' ∷ d
unfolding strip_tag
strip_tag_plain local d p l h =
    strip_tag-append local _ p
    ∙ ap (λ t. local ++ b'@' ∷ t) (strip_tag-none d l (after_at_lacking d h))

canonicalize_email_case :
    (s t : Text) → map to_lower s ≡ map to_lower t → canonicalize_email s ≡ canonicalize_email t
unfolding canonicalize_email
canonicalize_email_case s t e = sym (strip_tag-lower s) ∙ ap strip_tag e ∙ strip_tag-lower t

-- If the local part has no `+`, the domain no `@`, and tag and domain are on one line, then
-- `local+tag@domain` has the canonical form of every address that differs from `local@domain` in
-- the case of letters only: any tag is dropped, also one that holds `+` or `@`.
pub canonicalize_email_tag :
    (local tag domain other : Text)
    → Lacks b'+' local
    → IsLine tag
    → IsLine domain
    → Lacks b'@' domain
    → map to_lower other ≡ map to_lower (local ++ b'@' ∷ domain)
    → canonicalize_email (local ++ b'+' ∷ (tag ++ b'@' ∷ domain)) ≡ canonicalize_email other
unfolding canonicalize_email
canonicalize_email_tag local tag domain other p l ld h same =
    ap (map to_lower) (
      strip_tag-append local _ p
      ∙ ap (λ t. local ++ t) (strip_tag_plus tag domain l h)
      ∙ sym (strip_tag_plain local domain p ld h))
    ∙ sym (canonicalize_email_case other _ same)
