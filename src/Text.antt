-- ===== src/Text.antt =====
-- JavaScript strings as lists of UTF-16 code units, with the string methods that the payments
-- package calls: `===`, `split`, `toUpperCase` and `toLowerCase` (on ASCII letters), and the decimal
-- print of a natural number.
pub mod Laws
pub mod Decimal
use Prim.Native.Char.{code}
use Prim.Native.String.{String}
use blackrock.Prelude.{
  ℕ, zero, suc, ◌+◌, ◌-◌, Bool, true, false, ◌&&◌, List, [], ◌∷◌, ◌++◌, leb, ltb, ◌||◌, ◌==◌,
  if◌then◌else◌, head_or, ◌≡◌,
}

abbrev pub Text : Type 0
Text = List ℕ

-- The code units of an ASCII literal.
abbrev pub codes : String → Text
codes String.[] = []
codes (String.◌∷◌ c s) = code c ∷ codes s

-- `a === b`
unfoldable pub text_eq : Text → Text → Bool
text_eq [] [] = true
text_eq (c ∷ s) (d ∷ t) = (c == d) && text_eq s t
text_eq _ _ = false

-- A string is truthy unless it is empty.
abbrev pub is_truthy : Text → Bool
is_truthy [] = false
is_truthy (_ ∷ _) = true

-- One character in front of the first part of a split.
abbrev pub extend : ℕ → List Text → List Text
extend c [] = (c ∷ []) ∷ []
extend c (p ∷ ps) = (c ∷ p) ∷ ps

-- `s.split(sep)` for a separator of one character
unfoldable pub split : ℕ → Text → List Text
split sep [] = [] ∷ []
split sep (c ∷ s) = let parts = split sep s in if c == sep then [] ∷ parts else extend c parts

-- `s.split(sep)[0]`; a split has a first part always
unfoldable pub first_part : ℕ → Text → Text
unfolding split
first_part sep s = head_or [] (split sep s)

-- `s.slice(from, to)`, for `from` not above `to`
unfoldable pub slice : ℕ → ℕ → Text → Text
slice from to [] = []
slice zero zero (c ∷ s) = []
slice zero (suc to) (c ∷ s) = c ∷ slice zero to s
slice (suc from) zero (c ∷ s) = []
slice (suc from) (suc to) (c ∷ s) = slice from to s

-- `s < t`, by code units
unfoldable pub text_lt : Text → Text → Bool
text_lt s [] = false
text_lt [] (d ∷ t) = true
text_lt (c ∷ s) (d ∷ t) = ltb c d || ((c == d) && text_lt s t)

abbrev pub to_upper : ℕ → ℕ
to_upper c = if leb b'a' c && leb c b'z' then c - 32 else c

abbrev pub to_lower : ℕ → ℕ
to_lower c = if leb b'A' c && leb c b'Z' then c + 32 else c

-- `s.charAt(0).toUpperCase() + s.slice(1)`
unfoldable pub title_case : Text → Text
title_case [] = []
title_case (c ∷ s) = to_upper c ∷ s

-- The texts that hold no `sep`.
abbrev pub Lacks : ℕ → Text → Type 0
Lacks sep [] = Unit
Lacks sep (c ∷ s) = ((c == sep) ≡ false) × Lacks sep s
