-- ===== src/Money.antt =====
-- How amounts of money are printed. Amounts are whole cents, as Stripe's API has them:
-- `renderPrice` (shell/packages/blackrock-payments/payments-server.js) for e-mailed invoices,
-- `formatCents` (payments-api-server.js) for the description of a charge, and `renderCents`
-- (billingSettings.js) for the balance on the settings page.
pub mod Reading
mod Tests
use blackrock.Prelude.{ℕ, suc, ◌+◌, ◌/◌, ◌%◌, [], ◌∷◌, ◌++◌, ltb, if◌then◌else◌, length}
use blackrock.Prelude.Int.{ℤ, pos, negsuc}
use blackrock.Text.{Text, codes}
use blackrock.Text.Decimal.{decimal}

-- `cents < 10 ? "0" + cents : cents`, for a remainder modulo 100
unfoldable pub two_digits : ℕ → Text
two_digits cents = if ltb cents 10 then b'0' ∷ decimal cents else decimal cents

-- `dollars + "." + cents` of an amount that is not negative
unfoldable pub dollars_and_cents : ℕ → Text
unfolding two_digits
dollars_and_cents amount = decimal (amount / 100) ++ b'.' ∷ two_digits (amount % 100)

unfoldable pub render_price : ℤ → Text
unfolding dollars_and_cents
render_price (pos n) = codes " $" ++ dollars_and_cents n ++ codes " "
render_price (negsuc n) = codes "($" ++ dollars_and_cents (suc n) ++ codes ")"

-- `(cents / 100).toFixed(2)`: for a whole number of cents the two decimals are exact.
unfoldable pub format_cents : ℤ → Text
unfolding dollars_and_cents
format_cents (pos n) = dollars_and_cents n
format_cents (negsuc n) = b'-' ∷ dollars_and_cents (suc n)

-- `s.slice(-2)`
abbrev pub last_two : Text → Text
last_two [] = []
last_two (a ∷ []) = a ∷ []
last_two (a ∷ b ∷ []) = a ∷ b ∷ []
last_two (a ∷ b ∷ c ∷ s) = last_two (b ∷ c ∷ s)

-- `Math.floor(price / 100)`, printed; a negative price is rounded away from zero.
abbrev pub floor_dollars : ℤ → Text
floor_dollars (pos n) = decimal (n / 100)
floor_dollars (negsuc n) = b'-' ∷ decimal ((n + 100) / 100)

-- `"" + price % 100`: the remainder has the sign of the price, and `-0` prints as `0`.
abbrev pub remainder : ℤ → Text
remainder (pos n) = decimal (n % 100)
remainder (negsuc n) = if ltb 0 (suc n % 100) then b'-' ∷ decimal (suc n % 100) else codes "0"

unfoldable pub render_cents : ℤ → Text
render_cents price = floor_dollars price ++ b'.' ∷ last_two (codes "00" ++ remainder price)
