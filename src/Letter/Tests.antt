-- ===== src/Letter/Tests.antt =====
-- An invoice as a person sees it.
use blackrock.Prelude.{◌≡◌, refl, false, List, [], ◌∷◌}
use blackrock.Prelude.Int.{pos}
use blackrock.Text.{codes}
use blackrock.Letter.{Config, Item, concat, invoice_html}
use blackrock.Letter.Tags.{untagged}
use blackrock.Letter.Shown.{seen_pieces, untagged-invoice_html}

abbrev oasis : Config
oasis = record {
  acceptor_title = codes "Oasis";
  return_address = codes "a@b";
  settings_url = codes "http:/s";
}

abbrev tea : List Item
tea = record { title = codes "Tea"; amount_cents = pos 150 } ∷ []

untagged-invoice_html_example :
    untagged false (invoice_html oasis tea) ≡ concat (seen_pieces oasis tea)
untagged-invoice_html_example =
    untagged-invoice_html oasis tea ((refl, (refl, (refl, tt))), tt)
      (refl, (refl, (refl, (refl, (refl, tt)))))
      (refl, (refl, (refl, (refl, (refl, (refl, (refl, tt)))))))
      (refl, (refl, (refl, (refl, (refl, (refl, (refl, tt)))))))
