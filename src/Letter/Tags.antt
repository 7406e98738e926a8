-- ===== src/Letter/Tags.antt =====
-- HTML without its tags.
use blackrock.Prelude.{
  inr, inl, Bool-cases, ℕ, ◌/◌, ◌%◌, zero, suc, ◌≡◌, refl, ap, ◌∙◌, Bool, true, false, not, ◌||◌,
  ◌==◌, List, [], ◌∷◌, ◌++◌, if◌then◌else◌, ltb, arith, All, All-append,
}
use blackrock.Prelude.Int.{ℤ, pos, negsuc}
use blackrock.Text.{Text, codes}
use blackrock.Text.Decimal.{digit, emit, decimal}
use blackrock.Money.{two_digits, dollars_and_cents, render_price}
use blackrock.Letter.{price_style, concat}

-- Is a text behind this character inside a tag?
abbrev is_inside : Bool → ℕ → Bool
is_inside inside c = if inside then not (c == b'>') else c == b'<'

-- What stands outside of the tags.
unfoldable pub untagged : Bool → Text → Text
untagged inside [] = []
untagged inside (c ∷ s) =
    let rest = untagged (is_inside inside c) s in if inside || c == b'<' then rest else c ∷ rest

-- A text without a tag in it, and one that does not end a tag.
abbrev pub IsPlain : Text → Type 0
IsPlain s = All (λ c. (c == b'<') ≡ false) s

abbrev pub IsAttribute : Text → Type 0
IsAttribute s = All (λ c. (c == b'>') ≡ false) s

-- Is a text inside a tag at the end of this one?
abbrev pub state : Bool → Text → Bool
state inside [] = inside
state inside (c ∷ s) = state (is_inside inside c) s

pub untagged-append :
    (inside : Bool) (s t : Text)
    → untagged inside (s ++ t) ≡ untagged inside s ++ untagged (state inside s) t
unfolding untagged
untagged-append inside [] t = refl
untagged-append inside (c ∷ s) t = elim (Bool-cases (inside || c == b'<')) [
  | inl within ↦ rw within (untagged-append (is_inside inside c) s t)
  | inr outside ↦ rw outside (ap (λ r. c ∷ r) (untagged-append (is_inside inside c) s t))
]

pub state-append : (inside : Bool) (s t : Text) → state inside (s ++ t) ≡ state (state inside s) t
state-append inside [] t = refl
state-append inside (c ∷ s) t = state-append (is_inside inside c) s t

-- What pieces of HTML show, piece by piece; a link and a cell's style take three pieces.
pub data Shows : List Text → List Text → Type 0 where
  end : Shows [] []
  piece :
      {x y : Text} {xs ys : List Text}
      → untagged false x ≡ y
      → state false x ≡ false
      → Shows xs ys
      → Shows (x ∷ xs) (y ∷ ys)
  link :
      {url : Text} {xs ys : List Text}
      → IsAttribute url
      → Shows xs ys
      → Shows (codes "  <a href=\"" ∷ url ∷ codes "\">" ∷ xs) (codes "  " ∷ ys)
  bold_cell :
      {xs ys : List Text}
      → Shows xs ys
      → Shows (codes "</b></td><td style=\"" ∷ price_style ∷ codes "\">" ∷ xs) ys
  cell :
      {xs ys : List Text}
      → Shows xs ys
      → Shows (codes "</td><td style=\"" ∷ price_style ∷ codes "\">" ∷ xs) ys

pub untagged_nil : untagged false [] ≡ []
unfolding untagged
untagged_nil = refl

pub untagged_attribute :
    (s t : Text)
    → IsAttribute s
    → (untagged true (s ++ t) ≡ untagged true t) × (state true (s ++ t) ≡ state true t)
unfolding untagged
untagged_attribute [] t h = (refl, refl)
untagged_attribute (c ∷ s) t (p, h) =
    let (same, out) = untagged_attribute s t h in (rw p same, rw (state, p) out)

pub untagged_plain : (s : Text) → IsPlain s → (untagged false s ≡ s) × (state false s ≡ false)
unfolding untagged
untagged_plain [] h = (refl, refl)
untagged_plain (c ∷ s) (p, h) =
    let (same, out) = untagged_plain s h in (rw p (ap (λ r. c ∷ r) same), rw p out)

pub untagged-Shows :
    {xs ys : List Text}
    → Shows xs ys
    → (untagged false (concat xs) ≡ concat ys) × (state false (concat xs) ≡ false)
unfolding untagged
untagged-Shows end = (refl, refl)
untagged-Shows (piece {x} {y} {xs} {ys} shown out rest) =
    let (same, out') = untagged-Shows rest in
    (
      untagged-append false x (concat xs) ∙ rw (shown, out, same) refl,
      state-append false x (concat xs) ∙ rw out out',
    )
untagged-Shows (link {url} {xs} {ys} fine rest) =
    let (same, out') = untagged-Shows rest in
    let (skipped, out) = untagged_attribute url (codes "\">" ++ concat xs) fine in
    (ap (λ r. codes "  " ++ r) (skipped ∙ same), out ∙ out')
untagged-Shows (bold_cell rest) = untagged-Shows rest
untagged-Shows (cell rest) = untagged-Shows rest

emit-IsPlain : (f n : ℕ) (out : Text) → IsPlain out → IsPlain (emit f n out)
unfolding emit
emit-IsPlain zero n out h = h
emit-IsPlain (suc f) n out h =
    let fine : (digit n == b'<') ≡ false = ground arith in
    elim (Bool-cases (ltb n 10)) [
      | inl small ↦ rw small (fine, h)
      | inr large ↦ rw large (emit-IsPlain f (n / 10) (digit n ∷ out) (fine, h))
    ]

decimal-IsPlain : (n : ℕ) → IsPlain (decimal n)
unfolding decimal
decimal-IsPlain n = emit-IsPlain (suc n) n [] tt

two_digits-IsPlain : (n : ℕ) → IsPlain (two_digits n)
unfolding two_digits
two_digits-IsPlain n = elim (Bool-cases (ltb n 10)) [
  | inl small ↦ rw small (refl, decimal-IsPlain n)
  | inr large ↦ rw large (decimal-IsPlain n)
]

dollars_and_cents-IsPlain : (n : ℕ) → IsPlain (dollars_and_cents n)
unfolding dollars_and_cents
dollars_and_cents-IsPlain n =
    All-append (λ c. (c == b'<') ≡ false) (decimal (n / 100)) (b'.' ∷ two_digits (n % 100))
      (decimal-IsPlain (n / 100)) (refl, two_digits-IsPlain (n % 100))

pub render_price-IsPlain : (price : ℤ) → IsPlain (render_price price)
unfolding render_price
render_price-IsPlain (pos n) = (
  refl,
  (
    refl,
    All-append (λ c. (c == b'<') ≡ false) (dollars_and_cents n) (codes " ")
        (dollars_and_cents-IsPlain n) (refl, tt),
  ),
)
render_price-IsPlain (negsuc n) = (
  refl,
  (
    refl,
    All-append (λ c. (c == b'<') ≡ false) (dollars_and_cents (suc n)) (codes ")")
        (dollars_and_cents-IsPlain (suc n)) (refl, tt),
  ),
)
