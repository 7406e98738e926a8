-- ===== src/Listing/Complete.antt =====
-- Against a server that pages as Stripe's documentation says, the loop ends and returns everything.
use blackrock.Prelude.{
  ltb→lt, ℕ, zero, suc, ◌-◌, ◌<◌, ◌≤◌, ◌≡◌, refl, sym, ap, ◌∙◌, inl, inr, true, false, Option, none,
  some, List, [], ◌∷◌, ◌++◌, arith, ltb, Bool-cases, length, length-append, append_assoc,
}
use blackrock.Text.{Text}
use blackrock.Stripe.{Result, ok}
use blackrock.Listing.{Page, last?, read_pages}

module _ {A : Type 0} where
  abbrev pub take : ℕ → List A → List A
  take zero xs = []
  take (suc n) [] = []
  take (suc n) (x ∷ xs) = x ∷ take n xs

  abbrev pub drop : ℕ → List A → List A
  drop zero xs = xs
  drop (suc n) [] = []
  drop (suc n) (x ∷ xs) = drop n xs

  -- At most `limit` elements, and whether more are left.
  abbrev pub page_of : ℕ → List A → Page A
  page_of limit rest = record { items = take limit rest; has_more = ltb limit (length rest) }

  take-append-drop : (n : ℕ) (xs : List A) → take n xs ++ drop n xs ≡ xs
  take-append-drop zero xs = refl
  take-append-drop (suc n) [] = refl
  take-append-drop (suc n) (x ∷ xs) = ap (λ l. x ∷ l) (take-append-drop n xs)

  take_all : (n : ℕ) (xs : List A) → length xs ≤ n → take n xs ≡ xs
  take_all zero [] h = refl
  take_all zero (x ∷ xs) h = absurd (omega arith)
  take_all (suc n) [] h = refl
  take_all (suc n) (x ∷ xs) h = ap (λ l. x ∷ l) (take_all n xs (omega arith))

  length-drop : (n : ℕ) (xs : List A) → length (drop n xs) ≡ length xs - n
  length-drop zero xs = omega arith
  length-drop (suc n) [] = omega arith
  length-drop (suc n) (x ∷ xs) = omega (arith, length-drop n xs)

  last?-cons :
      (x : A) (xs : List A)
      → (before : List A) × (y : A) × (x ∷ xs ≡ before ++ y ∷ []) × (last? (x ∷ xs) ≡ some y)
  unfolding last?
  last?-cons x [] = ([], x, refl, refl)
  last?-cons x (z ∷ xs) =
      let (before, y, same, last) = last?-cons z xs in (x ∷ before, y, ap (λ l. x ∷ l) same, last)

  last?-some :
      (xs : List A)
      → 0 < length xs
      → (before : List A) × (y : A) × (xs ≡ before ++ y ∷ []) × (last? xs ≡ some y)
  last?-some [] h = absurd (omega arith)
  last?-some (x ∷ xs) h = last?-cons x xs

-- The documented paging of `all`: a request without a cursor gets the first page, one with the id of
-- an element the page behind that element.
pub record Pages {A : Type 0} (id_of : A → Text) (list : Option Text → Result (Page A)) (limit : ℕ)
    (all : List A) : Type 0 where
  pub first : list none ≡ ok (page_of limit all)
  pub behind :
      (before rest : List A) (x : A)
      → all ≡ before ++ x ∷ rest
      → list (some (id_of x)) ≡ ok (page_of limit rest)

module _ {A : Type 0} (id_of : A → Text) (list : Option Text → Result (Page A)) (limit : ℕ)
    (all : List A) (paged : Pages id_of list limit all) (some_each : 0 < limit) where
  read_stop :
      (fuel : ℕ) (results : List A) (cursor : Option Text) (page : Page A)
      → list cursor ≡ ok page
      → page.has_more ≡ false
      → read_pages id_of list (suc fuel) results cursor ≡ some (ok (results ++ page.items))
  unfolding read_pages
  read_stop fuel results cursor page answer full = ground arith

  read_on :
      (fuel : ℕ) (results : List A) (cursor : Option Text) (page : Page A) (x : A)
      → list cursor ≡ ok page
      → page.has_more ≡ true
      → last? (results ++ page.items) ≡ some x
      → read_pages id_of list (suc fuel) results cursor
        ≡ read_pages id_of list fuel (results ++ page.items) (some (id_of x))
  unfolding read_pages
  read_on fuel results cursor page x answer more last = ground arith

  take_some : (rest : List A) → 0 < length rest → 0 < length (take limit rest)
  take_some rest h = positive limit rest some_each h
    where
      positive : (n : ℕ) (rest : List A) → 0 < n → 0 < length rest → 0 < length (take n rest)
      positive zero rest p h = absurd (omega arith)
      positive (suc n) [] p h = absurd (omega arith)
      positive (suc n) (x ∷ rest) p h = omega arith

  read_pages_from :
      (fuel : ℕ) (results rest : List A) (cursor : Option Text)
      → list cursor ≡ ok (page_of limit rest)
      → results ++ rest ≡ all
      → length rest < fuel
      → read_pages id_of list fuel results cursor ≡ some (ok all)
  unfolding read_pages
  read_pages_from zero results rest cursor answer parts h = absurd (omega arith)
  read_pages_from (suc fuel) results rest cursor answer parts h =
      elim (Bool-cases (ltb limit (length rest))) [
        | inr full ↦
            let last_page : results ++ take limit rest ≡ all =
              ap (λ l. results ++ l) (take_all limit rest (ground arith)) ∙ parts in
            read_stop fuel results cursor (page_of limit rest) answer full
            ∙ (ap (λ l. some (ok l)) last_page)
        | inl more ↦
            let got = results ++ take limit rest in
            let (before, x, same, last) = last?-some got (
              omega
                (arith, length-append results (take limit rest), take_some rest (ground arith))) in
            let parts' : got ++ drop limit rest ≡ all =
              append_assoc results (take limit rest) (drop limit rest)
              ∙ ap (λ l. results ++ l) (take-append-drop limit rest)
              ∙ parts in
            let split : all ≡ before ++ x ∷ drop limit rest =
              sym parts'
              ∙ ap (λ l. l ++ drop limit rest) same
              ∙ append_assoc before (x ∷ []) (drop limit rest) in
            read_on fuel results cursor (page_of limit rest) x answer more last
            ∙ (read_pages_from fuel got (drop limit rest) (some (id_of x))
                (paged.behind before (drop limit rest) x split) parts'
                (omega (arith, length-drop limit rest, ltb→lt limit (length rest) more)))
      ]

  -- If the server pages its list as documented, with pages of at least one element, then the loop ends
  -- and returns the whole list in order: one request for each element, and one more, are enough.
  pub read_pages_complete :
      (fuel : ℕ) → length all < fuel → read_pages id_of list fuel [] none ≡ some (ok all)
  read_pages_complete fuel h = read_pages_from fuel [] all none paged.first refl h
