-- ===== src/Letter/Shown.antt =====
-- The HTML of an invoice as a person sees it: without its tags.
use blackrock.Prelude.{inr, inl, Bool-cases, ◌≡◌, refl, ap, ◌∙◌, false, List, [], ◌∷◌, ◌++◌, All}
use blackrock.Prelude.Int.{ltb_ℤ, ℤ, pos}
use blackrock.Text.{Text, codes}
use blackrock.Money.{render_price}
use blackrock.Letter.{
  row_pieces, invoice_pieces, Config, Item, total_from, total_title, concat, newline, item_rows,
  invoice_html,
}
use blackrock.Letter.Tags.{
  IsPlain, IsAttribute, untagged, state, Shows, end, piece, link, bold_cell, cell, untagged_plain,
  untagged_nil, untagged-append, state-append, untagged-Shows, render_price-IsPlain,
}

total_title_plain :
    (total : ℤ)
    → (untagged false (total_title total) ≡ total_title total)
      × (state false (total_title total) ≡ false)
unfolding untagged
total_title_plain total = elim (Bool-cases (ltb_ℤ total (pos 0))) [
  | inl credit ↦ rw credit (refl, refl)
  | inr owed ↦ rw owed (refl, refl)
]

-- What the invoice shows.
abbrev pub seen_row : Item → List Text
seen_row item = codes "  " ∷ item.title ∷ render_price item.amount_cents ∷ [] ∷ newline ∷ []

abbrev pub seen_rows : List Item → Text
seen_rows [] = []
seen_rows (item ∷ items) = concat (seen_row item) ++ seen_rows items

abbrev pub seen_pieces : Config → List Item → List Text
seen_pieces config items =
    let total = total_from (pos 0) items in
    codes "You have a new invoice from "
    ∷ config.acceptor_title
    ∷ codes ":"
    ∷ newline
    ∷ []
    ∷ newline
    ∷ seen_rows items
    ∷ codes "  "
    ∷ newline
    ∷ codes "  "
    ∷ total_title total
    ∷ render_price total
    ∷ []
    ∷ newline
    ∷ []
    ∷ newline
    ∷ codes "This invoice has already been paid using the payment info we have on file."
    ∷ newline
    ∷ codes "To update your settings, visit:"
    ∷ newline
    ∷ codes "  "
    ∷ config.settings_url
    ∷ []
    ∷ newline
    ∷ codes "Thank you!"
    ∷ newline
    ∷ []

row-Shows : (item : Item) → IsPlain item.title → Shows (row_pieces item) (seen_row item)
unfolding row_pieces newline untagged
row-Shows item plain =
    let (price, out') =
      untagged_plain (render_price item.amount_cents) (render_price-IsPlain item.amount_cents) in
    let (title, out) = untagged_plain item.title plain in
    piece refl refl
      (piece title out (cell (piece price out' (piece refl refl (piece refl refl end)))))

rows_plain :
    (items : List Item)
    → All (λ (item : Item). IsPlain item.title) items
    → (untagged false (item_rows items) ≡ seen_rows items) × (state false (item_rows items) ≡ false)
unfolding item_rows
rows_plain [] plain = (untagged_nil, refl)
rows_plain (item ∷ items) (p, plain) =
    let (row, out) = untagged-Shows (row-Shows item p) in
    let (rest, out') = rows_plain items plain in
    (
      untagged-append false (concat (row_pieces item)) (item_rows items)
          ∙ ap (λ b. untagged false (concat (row_pieces item)) ++ untagged b (item_rows items)) out
          ∙ ap (λ t. t ++ untagged false (item_rows items)) row
          ∙ ap (λ t. concat (seen_row item) ++ t) rest,
      state-append false (concat (row_pieces item)) (item_rows items)
          ∙ ap (λ b. state b (item_rows items)) out
          ∙ out',
    )

invoice-Shows :
    (config : Config) (items : List Item)
    → All (λ (item : Item). IsPlain item.title) items
    → IsPlain config.acceptor_title
    → IsPlain config.settings_url
    → IsAttribute config.settings_url
    → Shows (invoice_pieces config items) (seen_pieces config items)
unfolding invoice_pieces newline untagged
invoice-Shows config items titles name url quoted =
    let total = total_from (pos 0) items in
    let (named, out) = untagged_plain config.acceptor_title name in
    let (rows, out1) = rows_plain items titles in
    let (summed, out2) = untagged_plain (render_price total) (render_price-IsPlain total) in
    let (linked, out3) = untagged_plain config.settings_url url in
    let (titled, out4) = total_title_plain total in
    piece refl refl (
      piece named out (
        piece refl refl (
          piece refl refl (
            piece refl refl (
              piece refl refl (
                piece rows out1 (
                  piece refl refl (
                    piece refl refl (
                      piece refl refl (
                        piece titled out4 (
                          bold_cell (
                            piece summed out2 (
                              piece refl refl (
                                piece refl refl (
                                  piece refl refl (
                                    piece refl refl (
                                      piece refl refl (
                                        piece refl refl (
                                          piece refl refl (
                                            piece refl refl (
                                              link quoted (
                                                piece linked out3 (
                                                  piece refl refl (
                                                    piece refl refl (
                                                      piece refl refl (
                                                        piece refl refl
                                                          end))))))))))))))))))))))))))

-- The HTML of an invoice without its tags is the party's name, a row with title and price for each
-- item, the total and the link, in the pieces of `seen_pieces`; if no title, nor the party's name nor
-- the link, contains the opening bracket of a tag, nor the link a closing one.
pub untagged-invoice_html :
    (config : Config) (items : List Item)
    → All (λ (item : Item). IsPlain item.title) items
    → IsPlain config.acceptor_title
    → IsPlain config.settings_url
    → IsAttribute config.settings_url
    → untagged false (invoice_html config items) ≡ concat (seen_pieces config items)
unfolding invoice_html
untagged-invoice_html config items titles name url quoted =
    (untagged-Shows (invoice-Shows config items titles name url quoted)).0
