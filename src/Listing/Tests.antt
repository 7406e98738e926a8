-- ===== src/Listing/Tests.antt =====
-- The page loop against a server with three charges and pages of two.
use blackrock.Prelude.{
  ℕ, ◌≡◌, refl, Bool, true, false, Option, none, some, List, [], ◌∷◌, ◌++◌, arith, if◌then◌else◌,
}
use blackrock.Prelude.Int.{pos, ◌+ℤ◌, ◌-ℤ◌}
use blackrock.Text.{Text, codes, text_eq}
use blackrock.Stripe.{Result, ok}
use blackrock.Listing.{Page, Charge, read_pages, get_total_charges}
use blackrock.Listing.Complete.{page_of, Pages, read_pages_complete}
use blackrock.Listing.Totals.{get_total_charges_exact}

abbrev charge : Text → ℕ → Bool → Charge
charge id amount refunded = record {
  id = id;
  paid = true;
  amount = some (pos amount);
  refunded = refunded;
  amount_refunded = some (pos amount);
}

abbrev charges : List Charge
charges =
    charge (codes "a") 500 false ∷ charge (codes "b") 70 true ∷ charge (codes "c") 30 false ∷ []

abbrev list : Option Text → Result (Page Charge)
list none = ok (page_of 2 charges)
list (some id) =
    if text_eq id (codes "a")
    then ok (page_of 2 (charge (codes "b") 70 true ∷ charge (codes "c") 30 false ∷ []))
    else if text_eq id (codes "b")
    then ok (page_of 2 (charge (codes "c") 30 false ∷ []))
    else ok (page_of 2 [])

run_pages : read_pages (λ c. c.id) list 4 [] none ≡ some (ok charges)
unfolding read_pages text_eq
run_pages = refl

no_room : (before rest : List Charge) (x : Charge) → [] ≡ before ++ x ∷ rest → ⊥
no_room [] rest x e = cc
no_room (_ ∷ before) rest x e = cc

list_behind :
    (before rest : List Charge) (x : Charge)
    → charges ≡ before ++ x ∷ rest
    → list (some x.id) ≡ ok (page_of 2 rest)
unfolding text_eq
list_behind [] rest x e =
    let same : x ≡ charge (codes "a") 500 false = cc in
    let tail : rest ≡ charge (codes "b") 70 true ∷ charge (codes "c") 30 false ∷ [] = cc in
    rw (same, tail)
list_behind (_ ∷ []) rest x e =
    let same : x ≡ charge (codes "b") 70 true = cc in
    let tail : rest ≡ charge (codes "c") 30 false ∷ [] = cc in rw (same, tail)
list_behind (_ ∷ _ ∷ []) rest x e =
    let same : x ≡ charge (codes "c") 30 false = cc in let tail : rest ≡ [] = cc in rw (same, tail)
list_behind (_ ∷ _ ∷ _ ∷ before) rest x e = absurd (no_room before rest x (tail_of before rest x e))
  where
    tail_of :
        {a b c : Charge} (before rest : List Charge) (x : Charge)
        → charges ≡ a ∷ b ∷ c ∷ (before ++ x ∷ rest)
        → [] ≡ before ++ x ∷ rest
    tail_of before rest x e = cc

list-Pages : Pages (λ c. c.id) list 2 charges
list-Pages = record { first = refl; behind = list_behind }

read_pages_complete_example : read_pages (λ c. c.id) list 4 [] none ≡ some (ok charges)
read_pages_complete_example =
    read_pages_complete (λ c. c.id) list 2 charges list-Pages (omega arith) 4 (omega arith)

get_total_charges_exact_example : get_total_charges list 4 ≡ some (ok (pos 530))
unfolding ◌+ℤ◌ ◌-ℤ◌
get_total_charges_exact_example =
    get_total_charges_exact list 2 4 charges list-Pages (omega arith) (omega arith)
