-- ===== src/Listing/Totals.antt =====
-- The total of all charges.
use blackrock.Prelude.{
  Bool-cases, Option-cases, inl, inr, none, true, false, ℕ, ◌<◌, ◌≡◌, ap, ◌∙◌, Option, some, List,
  [], ◌∷◌, length,
}
use blackrock.Prelude.Int.{ℤ, pos, ◌+ℤ◌, ◌-ℤ◌, int_laws}
use blackrock.Text.{Text}
use blackrock.Stripe.{Result, ok}
use blackrock.Listing.{Page, Charge, paid_of, refunded_of, reduce_charges, get_total_charges}
use blackrock.Listing.Complete.{Pages, read_pages_complete}

abbrev pub sum : List ℤ → ℤ
sum [] = pos 0
sum (n ∷ amounts) = n +ℤ sum amounts

-- The amounts of the charges that are paid.
abbrev pub paid_amounts : List Charge → List ℤ
paid_amounts [] = []
paid_amounts (c ∷ charges) =
    let rest = paid_amounts charges in
    elim c.paid [
      | false ↦ rest
      | true ↦ elim c.amount [ none ↦ rest | some amount ↦ amount ∷ rest ]
    ]

-- What was refunded of the charges that are marked as refunded.
abbrev pub refunded_amounts : List Charge → List ℤ
refunded_amounts [] = []
refunded_amounts (c ∷ charges) =
    let rest = refunded_amounts charges in
    elim c.refunded [
      | false ↦ rest
      | true ↦ elim c.amount_refunded [ none ↦ rest | some amount ↦ amount ∷ rest ]
    ]

sum-paid_amounts :
    (c : Charge) (charges : List Charge)
    → sum (paid_amounts (c ∷ charges)) ≡ paid_of c +ℤ sum (paid_amounts charges)
sum-paid_amounts c charges = elim (Bool-cases c.paid) [
  | inr unpaid ↦ rw unpaid (omega int_laws)
  | inl paid ↦ elim (Option-cases c.amount) [
    | inl missing ↦ rw (paid, missing) (omega int_laws)
    | inr (n, has) ↦ rw (paid, has)
  ]
]

sum-refunded_amounts :
    (c : Charge) (charges : List Charge)
    → sum (refunded_amounts (c ∷ charges)) ≡ refunded_of c +ℤ sum (refunded_amounts charges)
sum-refunded_amounts c charges = elim (Bool-cases c.refunded) [
  | inr kept ↦ rw kept (omega int_laws)
  | inl refunded ↦ elim (Option-cases c.amount_refunded) [
    | inl missing ↦ rw (refunded, missing) (omega int_laws)
    | inr (n, has) ↦ rw (refunded, has)
  ]
]

regroup : (a b t p r : ℤ) → a -ℤ b +ℤ t +ℤ p -ℤ r ≡ t +ℤ (a +ℤ p) -ℤ (b +ℤ r)
regroup a b t p r = omega int_laws

reduce_charges-sum :
    (total : ℤ) (charges : List Charge)
    → reduce_charges total charges
      ≡ total +ℤ sum (paid_amounts charges) -ℤ sum (refunded_amounts charges)
unfolding reduce_charges
reduce_charges-sum total [] = omega int_laws
reduce_charges-sum total (c ∷ charges) =
    rw (sum-paid_amounts c charges, sum-refunded_amounts c charges)
      (reduce_charges-sum (paid_of c -ℤ refunded_of c +ℤ total) charges
        ∙ regroup (paid_of c) (refunded_of c) total (sum (paid_amounts charges))
            (sum (refunded_amounts charges)))

-- Against a server that pages its charges as documented, with pages of at least one element, and with
-- fuel for one request more than there are charges, the total over all pages is the sum of the amounts of the paid charges less the
-- sum of what was refunded of the charges that are marked as refunded. What was refunded of a charge
-- without that mark, which is a refund in part, is not deducted.
pub get_total_charges_exact :
    (list : Option Text → Result (Page Charge)) (limit fuel : ℕ) (all : List Charge)
    → Pages (λ charge. charge.id) list limit all
    → 0 < limit
    → length all < fuel
    → get_total_charges list fuel ≡ some (ok (sum (paid_amounts all) -ℤ sum (refunded_amounts all)))
unfolding get_total_charges
get_total_charges_exact list limit fuel all paged some_each enough =
    rw (read_pages_complete (λ charge. charge.id) list limit all paged some_each fuel enough)
      (ap (λ n. some (ok n)) (reduce_charges-sum (pos 0) all ∙ omega int_laws))
