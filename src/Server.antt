-- ===== src/Server.antt =====
-- The HTTP side of shell/packages/blackrock-payments/payments-server.js: `processWebhook`,
-- `processMailchimpWebhook` and the routing of `makeConnectHandler`.
pub mod Answers
mod Tests
use Prim.Native.String.{String}
use blackrock.Prelude.{ℕ, Bool, true, false, ◌||◌, List, [], ◌∷◌, if◌then◌else◌, ◌==◌, ◌&&◌}
use blackrock.Text.{Text, codes, text_eq}
use blackrock.Stripe.{Result, ok, err, Services}
use blackrock.Action.{World}
use blackrock.Webhook.{handle_webhook_event}
use blackrock.Mailing.{Mailchimp, update_mailchimp}

-- What arrives as the body of a request: a broken stream, a text that `JSON.parse` refuses, JSON
-- that is `null` or has no `id`, of which it is an error to retrieve an event, or an object with an
-- `id`.
pub data Body : Type 0 where
  broken unparsable without_id : Body
  event_with_id : Text → Body

pub record Response : Type 0 where
  pub status : ℕ
  pub text : String

abbrev answer_of : Result (Unit {0}) → Response
answer_of (ok _) = record { status = 200; text = "success\n" }
answer_of (err _) = record { status = 500; text = "internal server error\n" }

-- An answer to one request; the world is that after the handler, also where it threw.
pub process_webhook : {S : Type 0} → Services S → Text → Body → World S → Response × World S
process_webhook v method body w =
    if text_eq method (codes "POST")
    then elim body [
      | broken ↦ (record { status = 400; text = "error receiving request\n" }, w)
      | unparsable ↦ (record { status = 500; text = "internal server error\n" }, w)
      | without_id ↦ (record { status = 500; text = "internal server error\n" }, w)
      | event_with_id id ↦
          (answer_of (handle_webhook_event v id w).0, (handle_webhook_event v id w).1)
    ]
    else (record { status = 405; text = "This endpoint is POST-only.\n" }, w)

-- The hint that there are changes: the request's body is not read.
pub process_mailchimp_webhook :
    {S : Type 0} → Services S → Mailchimp S → World S → Response × World S
process_mailchimp_webhook v m w = (answer_of (update_mailchimp v m w).0, (update_mailchimp v m w).1)

-- Who answers a request.
pub data Route : Type 0 where
  checkout sandcat webhook mailchimp not_found next : Route

-- `s.lastIndexOf(p, 0) === 0`: the text begins with `p`.
unfoldable pub begins_with : Text → Text → Bool
begins_with s [] = true
begins_with [] (d ∷ p) = false
begins_with (c ∷ s) (d ∷ p) = (c == d) && begins_with s p

-- `payments_host` is `db.makeWildcardHost("payments")`.
pub route : Text → Text → Text → Route
unfolding begins_with
route payments_host host url =
    if text_eq host payments_host
    then if text_eq url (codes "/checkout")
      then checkout
      else if text_eq url (codes "/sandstorm-purplecircle.png")
      then sandcat
      else if text_eq url (codes "/webhook")
      then webhook
      else if text_eq url (codes "/mailchimp") || begins_with url (codes "/mailchimp?")
      then mailchimp
      else not_found
    else next
