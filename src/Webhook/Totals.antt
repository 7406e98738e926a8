-- ===== src/Webhook/Totals.antt =====
-- The e-mailed invoice adds up to what Stripe charged.
use blackrock.Users.{User}
use blackrock.Prelude.{
  some, ◌≡◌, refl, ap, ◌∙◌, inl, inr, Bool, false, ◌||◌, ◌&&◌, List, [], ◌∷◌, ◌++◌, arith,
  Bool-cases,
}
use blackrock.Prelude.Int.{ℤ, pos, ◌+ℤ◌, ◌≤ℤ◌, ltb_ℤ, int_laws}
use blackrock.Text.{Text}
use blackrock.Stripe.{
  Result-cases, ok, Line, subscription_line, other_line, Invoice, Plan, Services,
}
use blackrock.Action.{World}
use blackrock.Letter.{Item, total_from}
use blackrock.Plans.{base_plan, is_beta}
use blackrock.Webhook.{subscription_items, collect, with_credit}

-- The sum of the amounts of an invoice's lines.
abbrev pub amount_of : Line → ℤ
amount_of (subscription_line _ amount) = amount
amount_of (other_line _ amount) = amount

abbrev pub sum_lines : List Line → ℤ
sum_lines [] = pos 0
sum_lines (line ∷ lines) = amount_of line +ℤ sum_lines lines

total_from-append :
    (total : ℤ) (items new : List Item)
    → total_from total (items ++ new) ≡ total_from (total_from total items) new
unfolding total_from
total_from-append total [] new = refl
total_from-append total (item ∷ items) new =
    total_from-append (total +ℤ item.amount_cents) items new

total_from_one :
    (total : ℤ) (item : Item) → total_from total (item ∷ []) ≡ total +ℤ item.amount_cents
unfolding total_from
total_from_one total item = refl

-- The beta discount takes back the plan's price, and the line's amount was 0.
total_from-subscription_items :
    (total : ℤ) (plan_id : Text) (amount : ℤ) (plan : Plan)
    → total_from total (subscription_items plan_id amount plan) ≡ total +ℤ amount
unfolding total_from subscription_items
total_from-subscription_items total plan_id amount plan = grind int_laws

module _ {S : Type 0} (v : Services S) where
  collect_total :
      (user : User) (lines : List Line) (items : List Item) (exit : Bool) (w : World S)
      {items' : List Item} {exit' : Bool}
      → (collect v user lines items exit w).0 ≡ ok (items', exit')
      → total_from (pos 0) items' ≡ total_from (pos 0) items +ℤ sum_lines lines
  unfolding collect
  collect_total user [] items exit w {items'} done =
      let same : items' ≡ items = ground arith in rw same (omega int_laws)
  collect_total user (subscription_line plan_id amount ∷ lines) items exit w {items'} {exit'} done =
      elim (Result-cases (v.get_plan (base_plan plan_id) (some user) w.outside)) [
        | inr (e, failed) ↦ absurd (ground arith)
        | inl (plan, fetched) ↦
            let rest =
              collect_total user lines (items ++ subscription_items plan_id amount plan)
                (exit || (is_beta plan_id && v.out_of_beta)) w {items' = items'} {exit' = exit'}
                (ground arith) in
            rest
            ∙ ap (λ t. t +ℤ sum_lines lines)
                (total_from-append (pos 0) items (subscription_items plan_id amount plan)
                  ∙ total_from-subscription_items (total_from (pos 0) items) plan_id amount plan)
            ∙ omega int_laws
      ]
  collect_total user (other_line description amount ∷ lines) items exit w {items'} {exit'} done =
      let item : Item = record { title = description; amount_cents = amount } in
      collect_total user lines (items ++ item ∷ []) exit w {items' = items'} {exit' = exit'} done
      ∙ ap (λ t. t +ℤ sum_lines lines)
          (total_from-append (pos 0) items (item ∷ [])
            ∙ total_from_one (total_from (pos 0) items) item)
      ∙ omega int_laws

  -- The items of an e-mailed invoice add up to the amount due: beta discounts cancel out, and credit
  -- is deducted; if the lines add up to Stripe's total, and no more than the total is due.
  pub collect_amount_due :
      (user : User) (invoice : Invoice) (w : World S) (items : List Item) (exit : Bool)
      → (collect v user invoice.lines [] false w).0 ≡ ok (items, exit)
      → sum_lines invoice.lines ≡ invoice.total
      → invoice.amount_due ≤ℤ invoice.total
      → total_from (pos 0) (with_credit v invoice items) ≡ invoice.amount_due
  unfolding with_credit total_from
  collect_amount_due user invoice w items exit done sums due =
      let all : total_from (pos 0) items ≡ invoice.total =
        collect_total user invoice.lines [] false w {items' = items} {exit' = exit} done
        ∙ ap (λ t. pos 0 +ℤ t) sums
        ∙ omega int_laws in
      elim (Bool-cases (ltb_ℤ invoice.amount_due invoice.total)) [
        | inl less ↦ rw (less, total_from-append (pos 0) items _, all) (omega int_laws)
        | inr full ↦ rw (full, all) (grind int_laws)
      ]
