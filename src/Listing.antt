-- ===== src/Listing.antt =====
-- Reading whole collections from Stripe, page by page: `getAllStripeCustomers` and
-- `getTotalCharges` of shell/packages/blackrock-payments/payments-server.js.
pub mod Complete
pub mod Totals
mod Tests
use blackrock.Prelude.{
  ℕ, zero, suc, Bool, true, false, Option, none, some, List, [], ◌∷◌, ◌++◌, if◌then◌else◌,
}
use blackrock.Prelude.Int.{ℤ, pos, ◌+ℤ◌, ◌-ℤ◌}
use blackrock.Text.{Text}
use blackrock.Stripe.{Failure, type_error, Result, ok, err, Customer}

-- The answer to a list request: `next.data` and `next.has_more`.
pub record Page (A : Type 0) : Type 0 where
  pub items : List A
  pub has_more : Bool

-- `results.slice(-1)[0]`
unfoldable pub last? : {A : Type 0} → List A → Option A
last? [] = none
last? (x ∷ []) = some x
last? (x ∷ y ∷ xs) = last? (y ∷ xs)

-- The loop `while (hasMore)`, on what `list` answers to a request with or without `starting_after`.
-- The fuel bounds the number of requests; `none` means that it ran out.
module _ {A : Type 0} (id_of : A → Text) (list : Option Text → Result (Page A)) where
  unfoldable pub read_pages : ℕ → List A → Option Text → Option (Result (List A))
  unfolding last?
  read_pages zero results starting_after = none
  read_pages (suc fuel) results starting_after = elim (list starting_after) [
    | err e ↦ some (err e)
    | ok next ↦ elim next.has_more [
      | false ↦ some (ok (results ++ next.items))
      | true ↦ elim (last? (results ++ next.items)) [
        | none ↦ some (err type_error)
        | some last ↦ read_pages fuel (results ++ next.items) (some (id_of last))
      ]
    ]
  ]

pub get_all_stripe_customers :
    (Option Text → Result (Page Customer)) → ℕ → Option (Result (List Customer))
unfolding read_pages
get_all_stripe_customers list fuel = read_pages (λ customer. customer.id) list fuel [] none

-- A charge; a missing amount counts as 0.
pub record Charge : Type 0 where
  pub id : Text
  pub paid : Bool
  pub amount : Option ℤ
  pub refunded : Bool
  pub amount_refunded : Option ℤ

abbrev pub or_zero : Option ℤ → ℤ
or_zero none = pos 0
or_zero (some n) = n

abbrev pub paid_of : Charge → ℤ
paid_of c = if c.paid then or_zero c.amount else pos 0

abbrev pub refunded_of : Charge → ℤ
refunded_of c = if c.refunded then or_zero c.amount_refunded else pos 0

-- `_.reduce(results, (total, elem) => … + total, 0)`, in cents
unfoldable pub reduce_charges : ℤ → List Charge → ℤ
reduce_charges total [] = total
reduce_charges total (c ∷ charges) = reduce_charges (paid_of c -ℤ refunded_of c +ℤ total) charges

abbrev pub map_result : {A B : Type 0} → (A → B) → Option (Result A) → Option (Result B)
map_result f none = none
map_result f (some (ok a)) = some (ok (f a))
map_result f (some (err e)) = some (err e)

-- The total in cents; the source divides it by 100 for display.
pub get_total_charges : (Option Text → Result (Page Charge)) → ℕ → Option (Result ℤ)
unfolding read_pages reduce_charges
get_total_charges list fuel =
    map_result (reduce_charges (pos 0)) (read_pages (λ charge. charge.id) list fuel [] none)
