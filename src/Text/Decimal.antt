-- ===== src/Text/Decimal.antt =====
-- The decimal print of a natural number (`"" + n`), and reading it back.
use blackrock.Prelude.{
  ℕ, zero, suc, ◌+◌, ◌-◌, ◌*◌, ◌/◌, ◌%◌, ◌≤◌, ◌<◌, ◌≡◌, refl, Bool, ◌&&◌, [], ◌∷◌, ◌++◌, arith, ltb,
  leb, if◌then◌else◌,
}
use blackrock.Text.{Text}

abbrev pub digit : ℕ → ℕ
digit n = b'0' + n % 10

-- The digits of `n` in front of `out`; the fuel bounds the number of digits.
unfoldable pub emit : ℕ → ℕ → Text → Text
emit zero n out = out
emit (suc f) n out =
    let rest = emit f (n / 10) (digit n ∷ out) in if ltb n 10 then digit n ∷ out else rest

-- `"" + n`: a number has fewer digits than `n + 1`, so the fuel is enough.
unfoldable pub decimal : ℕ → Text
unfolding emit
decimal n = emit (suc n) n []

abbrev pub is_digit : ℕ → Bool
is_digit c = leb b'0' c && leb c b'9'

-- The number that the digits of a text spell behind `acc`; other characters are skipped.
unfoldable pub value : ℕ → Text → ℕ
value acc [] = acc
value acc (c ∷ s) = value (if is_digit c then acc * 10 + (c - b'0') else acc) s

pub value-digit : (acc n : ℕ) (s : Text) → value acc (digit n ∷ s) ≡ value (acc * 10 + n % 10) s
unfolding value
value-digit acc n s = ground arith

emit-append : (f n : ℕ) (out s : Text) → emit f n out ++ s ≡ emit f n (out ++ s)
unfolding emit
emit-append zero n out s = refl
emit-append (suc f) n out s = ground (arith, emit-append f (n / 10) (digit n ∷ out) s)

value-emit : (f n : ℕ) (out : Text) → n < f → value 0 (emit f n out) ≡ value n out
unfolding emit
value-emit zero n out h = absurd (omega arith)
value-emit (suc f) n out h =
    ground (
      arith,
      value-digit 0 n out,
      value-digit (n / 10) n out,
      value-emit f (n / 10) (digit n ∷ out),
    )

-- A printed number, with any text behind it, reads back as itself.
pub value-decimal : (n : ℕ) (s : Text) → value 0 (decimal n ++ s) ≡ value n s
unfolding decimal
value-decimal n s = rw emit-append (value-emit (suc n) n s (omega arith))

-- A printed number of one digit, and of two.
pub decimal_one : (n : ℕ) → n < 10 → decimal n ≡ digit n ∷ []
unfolding decimal
decimal_one n h = ground arith

emit_one : (f n : ℕ) (out : Text) → 0 < f → n < 10 → emit f n out ≡ digit n ∷ out
unfolding emit
emit_one zero n out h _ = absurd (omega arith)
emit_one (suc f) n out _ h = ground arith

pub decimal_two : (n : ℕ) → 10 ≤ n → n < 100 → decimal n ≡ digit (n / 10) ∷ digit n ∷ []
unfolding decimal
decimal_two n h k = ground (arith, emit_one n (n / 10) (digit n ∷ []))
