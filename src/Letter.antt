-- ===== src/Letter.antt =====
-- The texts of the e-mails of shell/packages/blackrock-payments/payments-server.js: of `sendInvoice` and
-- of the notice of `paymentFailed`, each as plain text and as HTML, and the box that `sendEmail` puts
-- around the HTML.
pub mod Tags
pub mod Shown
mod Tests
use blackrock.Prelude.{Bool, true, false, List, [], ◌∷◌, ◌++◌, if◌then◌else◌}
use blackrock.Prelude.Int.{ℤ, pos, ltb_ℤ, ◌+ℤ◌}
use blackrock.Text.{Text, codes}
use blackrock.Money.{render_price}

-- `config`, which names the party that accepts the payment
pub record Config : Type 0 where
  pub acceptor_title : Text
  pub return_address : Text
  pub settings_url : Text

pub record Item : Type 0 where
  pub title : Text
  pub amount_cents : ℤ

-- `let total = 0; invoice.items.forEach(item => total += item.amountCents)`
unfoldable pub total_from : ℤ → List Item → ℤ
total_from total [] = total
total_from total (item ∷ items) = total_from (total +ℤ item.amount_cents) items

abbrev pub concat : List Text → Text
concat [] = []
concat (t ∷ ts) = t ++ concat ts

unfoldable pub newline : Text
newline = 10 ∷ []

-- one line of the plain text for each item
unfoldable pub item_lines : List Item → Text
unfolding newline
item_lines [] = []
item_lines (item ∷ items) =
    (render_price item.amount_cents ++ codes "  " ++ item.title ++ newline) ++ item_lines items

-- `totalTitle`
abbrev pub total_title : ℤ → Text
total_title total = if ltb_ℤ total (pos 0) then codes "Total (credit applied)" else codes "Total"

unfoldable pub invoice_text : Config → List Item → Text
unfolding newline
invoice_text config items =
    let total = total_from (pos 0) items in
    concat (
      codes "You have a new invoice from "
      ∷ config.acceptor_title
      ∷ codes ":"
      ∷ newline
      ∷ newline
      ∷ item_lines items
      ∷ codes "-----------------------------------------------"
      ∷ newline
      ∷ render_price total
      ∷ codes "  "
      ∷ total_title total
      ∷ newline
      ∷ newline
      ∷ codes "This invoice has already been paid using the payment info we have on file."
      ∷ newline
      ∷ newline
      ∷ codes "To modify your subscription, visit:"
      ∷ newline
      ∷ config.settings_url
      ∷ newline
      ∷ newline
      ∷ codes "Thank you!"
      ∷ newline
      ∷ [])

unfoldable pub failure_text : Config → Text → Text
unfolding newline
failure_text config root_url = concat (
    codes "We were unable to charge your payment method to renew your "
    ∷ codes "subscription to "
    ∷ config.acceptor_title
    ∷ codes ". Your account has been "
    ∷ codes "demoted to the free plan. Please click on the link below to "
    ∷ codes "log into your account and update your payment info, then "
    ∷ codes "switch back to a paid plan."
    ∷ newline
    ∷ newline
    ∷ root_url
    ∷ codes "/account"
    ∷ newline
    ∷ [])

unfoldable pub sender_of : Config → Text
sender_of config =
    concat (config.acceptor_title ∷ codes " <" ∷ config.return_address ∷ codes ">" ∷ [])

unfoldable pub invoice_subject : Config → Text
invoice_subject config = codes "Invoice from " ++ config.acceptor_title

unfoldable pub failure_subject : Config → Text
failure_subject config = codes "URGENT: Payment failed for " ++ config.acceptor_title

abbrev pub price_style : Text
price_style = codes "text-align: right; white-space: nowrap;"

-- one row of the table for each item
unfoldable pub row_pieces : Item → List Text
unfolding newline
row_pieces item =
    codes "  <tr><td>"
    ∷ item.title
    ∷ codes "</td><td style=\""
    ∷ price_style
    ∷ codes "\">"
    ∷ render_price item.amount_cents
    ∷ codes "</td></tr>"
    ∷ newline
    ∷ []

unfoldable pub item_rows : List Item → Text
unfolding row_pieces
item_rows [] = []
item_rows (item ∷ items) = concat (row_pieces item) ++ item_rows items

-- the HTML of an invoice, piece by piece
unfoldable pub invoice_pieces : Config → List Item → List Text
unfolding newline
invoice_pieces config items =
    let total = total_from (pos 0) items in
    codes "<h2>You have a new invoice from "
    ∷ config.acceptor_title
    ∷ codes ":</h2>"
    ∷ newline
    ∷ codes "<table style=\"width: 100%\">"
    ∷ newline
    ∷ item_rows items
    ∷ codes
        "  <tr><td colspan=\"2\"><hr style=\"border-style: none; border-top-style: solid; border-color: #bbb;\"></td></tr>"
    ∷ newline
    ∷ codes "  <tr><td><b>"
    ∷ total_title total
    ∷ codes "</b></td><td style=\""
    ∷ price_style
    ∷ codes "\">"
    ∷ render_price total
    ∷ codes "</td></tr>"
    ∷ newline
    ∷ codes "</table>"
    ∷ newline
    ∷ codes "<p>This invoice has already been paid using the payment info we have on file.</p>"
    ∷ newline
    ∷ codes "<p>To update your settings, visit:<br>"
    ∷ newline
    ∷ codes "  <a href=\""
    ∷ config.settings_url
    ∷ codes "\">"
    ∷ config.settings_url
    ∷ codes "</a></p>"
    ∷ newline
    ∷ codes "<p>Thank you!</p>"
    ∷ newline
    ∷ []

unfoldable pub invoice_html : Config → List Item → Text
unfolding invoice_pieces
invoice_html config items = concat (invoice_pieces config items)

unfoldable pub failure_html : Config → Text → Text
unfolding newline
failure_html config root_url = concat (
    codes "<p>We were unable to charge your payment method to renew your "
    ∷ codes "subscription to "
    ∷ config.acceptor_title
    ∷ codes ". Your account has been "
    ∷ codes "demoted to the free plan. Please click on the link below to "
    ∷ codes "log into your account and update your payment info, then "
    ∷ codes "switch back to a paid plan.</p>"
    ∷ newline
    ∷ codes "<p><a href=\""
    ∷ root_url
    ∷ codes "/account\">"
    ∷ root_url
    ∷ codes "/account</a></p>"
    ∷ newline
    ∷ [])

-- The box and the logo, which is an attachment with this id.
unfoldable pub boxed : Text → Text → Text
boxed icon html = concat (
    codes "<div style=\"border: 1px solid #bbb; margin: 32px auto; max-width: 520px;\">"
    ∷ codes
        "  <div style=\"background-color: #eee; padding: 8px 32px; font-size: 25px; line-height: 34px;\">"
    ∷ codes "    <img src=\"cid:"
    ∷ icon
    ∷ codes "\" style=\"width: 48px; vertical-align: bottom;\"> Sandstorm.io"
    ∷ codes "  </div>"
    ∷ codes "  <div style=\"margin: 32px\">"
    ∷ html
    ∷ codes "  </div>"
    ∷ codes "</div>"
    ∷ [])
