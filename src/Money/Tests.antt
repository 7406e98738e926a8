-- ===== src/Money/Tests.antt =====
-- Runs of the money formats.
use blackrock.Prelude.{arith, ◌+◌, ◌≡◌, refl}
use blackrock.Prelude.Int.{pos, negsuc}
use blackrock.Text.{codes}
use blackrock.Text.Decimal.{decimal}
use blackrock.Money.Reading.{read_price, minus, read_price-render_price, render_cents_debit}
use blackrock.Money.{render_price, render_cents}

render_price_run : render_price (pos 1905) ≡ codes " $19.05 "
unfolding render_price decimal
render_price_run = refl

render_credit_run : render_price (negsuc 599) ≡ codes "($6.00)"
unfolding render_price decimal
render_credit_run = refl

render_cents_run : render_cents (pos 1905) ≡ codes "19.05"
unfolding render_cents decimal
render_cents_run = refl

-- A balance of -1.50 is shown as -2.50.
render_cents_debit_run : render_cents (negsuc 149) ≡ codes "-2.50"
unfolding render_cents decimal
render_cents_debit_run = refl

render_cents_debit_example : read_price (render_cents (minus 150)) ≡ minus (150 + 100)
render_cents_debit_example = render_cents_debit 150 (omega arith)

read_price-render_price_example : read_price (render_price (negsuc 599)) ≡ negsuc 599
read_price-render_price_example = read_price-render_price (negsuc 599)
