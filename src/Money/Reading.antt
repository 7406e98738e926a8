-- ===== src/Money/Reading.antt =====
-- A printed amount reads back as the amount: nothing is rounded, lost or shown with a wrong sign.
use blackrock.Prelude.{
  ℕ, zero, suc, ◌+◌, ◌-◌, ◌*◌, ◌/◌, ◌%◌, ◌<◌, ◌≤◌, ◌≡◌, refl, ap, ◌∙◌, true, false, [], ◌∷◌, ◌++◌,
  arith, ltb, ◌==◌, if◌then◌else◌, append_assoc, append-nil,
}
use blackrock.Prelude.Int.{ℤ, pos, negsuc}
use blackrock.Text.{Text, codes}
use blackrock.Text.Decimal.{emit, digit, decimal, decimal_one, decimal_two, is_digit}
use blackrock.Money.{
  two_digits, dollars_and_cents, render_price, format_cents, render_cents, last_two,
}

-- The integer -n.
abbrev pub minus : ℕ → ℤ
minus zero = pos 0
minus (suc n) = negsuc n

-- The cents behind a decimal point: the first digit counts tens, the second ones, and the rest
-- nothing.
abbrev pub read_cents : ℕ → Text → ℕ
read_cents place [] = 0
read_cents place (c ∷ s) =
    let rest = read_cents (place / 10) s in if is_digit c then (c - b'0') * place + rest else 0

-- The cents of an amount in dollars, behind so many dollars: up to the decimal point each digit
-- continues the dollars. What is neither a digit nor the point is skipped before the point.
unfoldable pub read_dollars : ℕ → Text → ℕ
read_dollars dollars [] = dollars * 100
read_dollars dollars (c ∷ s) =
    let more = read_dollars (if is_digit c then dollars * 10 + (c - b'0') else dollars) s in
    if c == b'.' then dollars * 100 + read_cents 10 s else more

-- An amount as a person reads it, in cents: dollars, a decimal point and cents, negative behind an
-- opening parenthesis or a minus sign.
abbrev pub read_price : Text → ℤ
read_price [] = pos 0
read_price (c ∷ s) =
    if c == b'('
    then minus (read_dollars 0 s)
    else if c == b'-'
    then minus (read_dollars 0 s)
    else pos (read_dollars 0 (c ∷ s))

read_dollars-digit :
    (d n : ℕ) (s : Text) → read_dollars d (digit n ∷ s) ≡ read_dollars (d * 10 + n % 10) s
unfolding read_dollars
read_dollars-digit d n s = ground arith

read_dollars-emit :
    (f n : ℕ) (out : Text) → n < f → read_dollars 0 (emit f n out) ≡ read_dollars n out
unfolding emit
read_dollars-emit zero n out h = absurd (omega arith)
read_dollars-emit (suc f) n out h = ground (
  arith,
  read_dollars-digit 0 n out,
  read_dollars-digit (n / 10) n out,
  read_dollars-emit f (n / 10) (digit n ∷ out),
)

emit-append : (f n : ℕ) (out s : Text) → emit f n out ++ s ≡ emit f n (out ++ s)
unfolding emit
emit-append zero n out s = refl
emit-append (suc f) n out s = ground (arith, emit-append f (n / 10) (digit n ∷ out) s)

read_dollars-decimal : (n : ℕ) (s : Text) → read_dollars 0 (decimal n ++ s) ≡ read_dollars n s
unfolding decimal
read_dollars-decimal n s = rw emit-append (read_dollars-emit (suc n) n s (omega arith))

read_cents_rest : (s : Text) → read_cents 0 s ≡ 0
read_cents_rest [] = refl
read_cents_rest (c ∷ s) = ground (arith, read_cents_rest s)

read_cents-digit :
    (place n : ℕ) (s : Text)
    → read_cents place (digit n ∷ s) ≡ n % 10 * place + read_cents (place / 10) s
read_cents-digit place n s = ground arith

two_digits_lem : (n : ℕ) → n < 100 → two_digits n ≡ digit (n / 10) ∷ digit n ∷ []
unfolding two_digits
two_digits_lem n h = ground (arith, decimal_one n, decimal_two n)

read_cents-two_digits : (n : ℕ) (s : Text) → n < 100 → read_cents 10 (two_digits n ++ s) ≡ n
read_cents-two_digits n s h =
    rw
      (
        two_digits_lem n h,
        read_cents-digit 10 (n / 10) (digit n ∷ s),
        read_cents-digit 1 n s,
        read_cents_rest s,
      )
      (omega arith)

read_dollars_point : (d : ℕ) (s : Text) → read_dollars d (b'.' ∷ s) ≡ d * 100 + read_cents 10 s
unfolding read_dollars
read_dollars_point d s = refl

-- Dollars and cents, as they are printed, with any text behind them.
read_dollars_amount :
    (q r : ℕ) (s : Text)
    → r < 100
    → read_dollars 0 (decimal q ++ b'.' ∷ (two_digits r ++ s)) ≡ q * 100 + r
read_dollars_amount q r s h =
    read_dollars-decimal q _
    ∙ read_dollars_point q _
    ∙ ap (λ c. q * 100 + c) (read_cents-two_digits r s h)

read_dollars_skip :
    (d c : ℕ) (s : Text)
    → is_digit c ≡ false
    → (c == b'.') ≡ false
    → read_dollars d (c ∷ s) ≡ read_dollars d s
unfolding read_dollars
read_dollars_skip d c s h k = rw (h, k)

read_dollars-dollars_and_cents : (n : ℕ) (s : Text) → read_dollars 0 (dollars_and_cents n ++ s) ≡ n
unfolding dollars_and_cents
read_dollars-dollars_and_cents n s =
    rw append_assoc (read_dollars_amount (n / 100) (n % 100) s (omega arith) ∙ omega arith)

-- The price on an invoice, read as dollars before the decimal point and two digits of cents behind
-- it, is the amount, credits in parentheses.
pub read_price-render_price : (a : ℤ) → read_price (render_price a) ≡ a
unfolding render_price
read_price-render_price (pos n) = ap pos (
    read_dollars_skip 0 b' ' _ refl refl
    ∙ read_dollars_skip 0 b'$' _ refl refl
    ∙ read_dollars-dollars_and_cents n (b' ' ∷ []))
read_price-render_price (negsuc n) =
    ap minus
      (read_dollars_skip 0 b'$' _ refl refl ∙ read_dollars-dollars_and_cents (suc n) (b')' ∷ []))

last_two_digits : (n : ℕ) → n < 100 → last_two (codes "00" ++ decimal n) ≡ two_digits n
unfolding two_digits
last_two_digits n h = ground (arith, decimal_one n, decimal_two n)

-- On amounts that are not negative the settings page prints what the invoices and the descriptions
-- of charges print.
pub render_cents-format_cents : (n : ℕ) → render_cents (pos n) ≡ format_cents (pos n)
unfolding render_cents format_cents dollars_and_cents
render_cents-format_cents n =
    ap (λ t. decimal (n / 100) ++ b'.' ∷ t) (last_two_digits (n % 100) (omega arith))

last_two_negative :
    (n : ℕ) → 10 ≤ n → n < 100 → last_two (codes "00" ++ b'-' ∷ decimal n) ≡ two_digits n
unfolding two_digits
last_two_negative n h k = ground (arith, decimal_two n)

debit_text :
    (m : ℕ)
    → 10 ≤ suc m % 100
    → render_cents (negsuc m)
      ≡ b'-' ∷ (decimal ((m + 100) / 100) ++ b'.' ∷ two_digits (suc m % 100))
unfolding render_cents
debit_text m h =
    let shown : ltb 0 (suc m % 100) ≡ true = ground arith in
    rw shown (
      ap (λ t. b'-' ∷ (decimal ((m + 100) / 100) ++ b'.' ∷ t))
        (last_two_negative (suc m % 100) h (omega arith)))

debit_amount :
    (m : ℕ)
    → 10 ≤ suc m % 100
    → read_dollars 0 (decimal ((m + 100) / 100) ++ b'.' ∷ two_digits (suc m % 100)) ≡ suc m + 100
debit_amount m h =
    rw (← append-nil (two_digits (suc m % 100)))
      (read_dollars_amount ((m + 100) / 100) (suc m % 100) [] (omega arith) ∙ omega arith)

-- A balance of -n cents, with ten cents or more beyond whole dollars, is shown on the settings page
-- one dollar too low: the dollars are rounded down, and the cents beside them are those of n.
pub render_cents_debit :
    (n : ℕ) → 10 ≤ n % 100 → read_price (render_cents (minus n)) ≡ minus (n + 100)
render_cents_debit zero h = absurd (omega arith)
render_cents_debit (suc m) h = ap read_price (debit_text m h) ∙ ap minus (debit_amount m h)
