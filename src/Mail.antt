-- ===== src/Mail.antt =====
-- Sending the e-mails of shell/packages/blackrock-payments/payments-server.js: `sendEmail` and
-- `sendInvoice`. The content of the logo, a constant, is left out.
pub mod Laws
use blackrock.Prelude.{
  Bool, true, false, Option, none, some, List, [], ◌∷◌, ◌++◌, map, if◌then◌else◌, find?,
}
use blackrock.Prelude.Int.{ℤ, pos, ltb_ℤ, ◌+ℤ◌}
use blackrock.Text.{Text, codes, is_truthy}
use blackrock.Money.{render_price}
use blackrock.Users.{User}
use blackrock.Stripe.{
  Failure, type_error, stripe_error, Result, Customer, EmailEntry, Email, Request, send_email,
  Services,
}
use blackrock.Action.{Action, pure, throw, read, gets_outside, perform, ◌>>=◌, ◌>>◌}
use blackrock.Letter.{Config, Item, sender_of, invoice_subject, invoice_text, invoice_html, boxed}

module _ {S : Type 0} (v : Services S) where
  -- The argument `user.payments.id` of a call to the Stripe client: it is a TypeError to read it of a
  -- user without `payments`, and the client refuses to be called without an id.
  unfoldable pub customer_argument : User → Action S Text
  customer_argument user = elim user.payments [
    | none ↦ throw type_error
    | some p ↦ elim p.id [
      | none ↦ throw (stripe_error none (codes "customer id required"))
      | some id ↦ pure id
    ]
  ]

  -- The address of the message: the primary one, or else the one that Stripe has.
  unfoldable pub recipient : User → Action S (Option Text)
  unfolding customer_argument
  recipient user = do
    emails ← gets_outside (v.user_emails user.id)
    elim (find? (λ e. e.primary) emails) [
      | some entry ↦ pure (some entry.email)
      | none ↦ do
        id ← customer_argument user
        customer ← read (v.retrieve_customer id)
        pure customer.email
    ]

  -- The line `console.error(…, user.payments.id)` for a message without an address.
  abbrev pub unaddressed : User → Action S (Unit {0})
  unaddressed user = elim user.payments [ none ↦ throw type_error | some _ ↦ pure tt ]

  -- Both forms of the message, to an address; the HTML is in its box. Without an address the message is dropped, and an error is logged.
  unfoldable pub send_to : User → Text → Text → Text → Config → Action S (Unit {0})
  unfolding recipient
  send_to user subject text html config = do
    icon ← gets_outside v.random_id
    address ← recipient user
    elim address [
      | none ↦ unaddressed user
      | some email ↦
          if is_truthy email
          then perform
              (send_email (record {
                to = email;
                sender = sender_of config;
                subject = subject;
                text = text;
                html = boxed icon html;
                icon = icon;
              }))
              v.request
          else unaddressed user
    ]

  unfoldable pub send_invoice : User → List Item → Config → Action S (Unit {0})
  unfolding send_to
  send_invoice user items config =
      send_to user (invoice_subject config) (invoice_text config items) (invoice_html config items)
        config
