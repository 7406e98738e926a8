-- ===== src/Charges.antt =====
-- The payments API of shell/packages/blackrock-payments/payments-api-server.js, by which an app is
-- paid: payment sources, acceptors and payments, as the powerbox offers and checks them. A capability
-- stands for the frontend reference that it is made of; which capability an app holds, and that
-- `unwrapFrontendCap` resolves it, is Sandstorm's. Promises run to their end before the next call.
pub mod Paid
pub mod Powerbox
pub mod Keeps
mod Tests
use blackrock.Prelude.{Bool, true, false, Option, none, some, List, [], ◌∷◌, ◌++◌, if◌then◌else◌}
use blackrock.Prelude.Int.{ℤ, pos}
use blackrock.Text.{Text, codes, text_eq}
use blackrock.Money.{format_cents}
use blackrock.Users.{User, customer_id, find_by_id, find_by_customer}
use blackrock.Stripe.{
  Failure, meteor_error, type_error, reference_error, Result, ok, err, Customer, Source, CardCharge,
  Request, create_charge, capture_charge, Services,
}
use blackrock.Action.{World, Action, pure, throw, read, gets_users, perform, then_or, ◌>>=◌, ◌>>◌}
use blackrock.Letter.{Config, Item, total_from}
use blackrock.Mail.{send_invoice}
use blackrock.Cards.{
  CleanSource, is_default, sanitize_source, find_original_source_id, logged_in_user,
}

-- `frontendRef.stripePaymentSource`
pub record SourceRef : Type 0 where
  pub customer : Text
  pub source : Text

-- `frontendRef.stripePayment`
pub record Payment : Type 0 where
  pub id : Text
  pub items : List Item
  pub config : Config

-- What `createPayment` answers: `{success: {payment}}` or `{failed: {description}}`.
pub data Outcome : Type 0 where
  success : Payment → Outcome
  failed : Text → Outcome

-- An option that the powerbox shows.
pub data PowerboxOption : Type 0 where
  add_card : PowerboxOption
  pay_with : CleanSource → PowerboxOption

-- A configured acceptor, with the users who must be administrators while it is in use.
pub record Acceptor : Type 0 where
  pub config : Config
  pub admins : List Text

-- `items.map(…).join("; ")`
unfoldable pub describe : List Item → Text
describe [] = []
describe (item ∷ []) = item.title ++ codes " $" ++ format_cents item.amount_cents
describe (item ∷ next ∷ items) =
    (item.title ++ codes " $" ++ format_cents item.amount_cents)
    ++ codes "; "
    ++ describe (next ∷ items)

-- `((user || {}).payments || {}).id`, where it is truthy
unfoldable pub stripe_customer : Option User → Option Text
stripe_customer found = elim found [ none ↦ none | some user ↦ customer_id user ]

module _ {S : Type 0} (v : Services S) where
  -- `getTitle`
  pub source_title : SourceRef → Action S Text
  source_title ref = do
    source ← read (v.retrieve_source ref.customer ref.source)
    pure (
        if text_eq source.kind (codes "card")
        then source.brand ++ codes " **" ++ source.last4
        else codes "Unknown payment source type")

  -- `validate` of a payment source; the browser sends the hash of its id
  unfoldable pub validate_source : Option Text → Text → Action S SourceRef
  unfolding find_original_source_id
  validate_source none hashed = throw (meteor_error 403 "Not logged in.")
  validate_source (some user_id) hashed = do
    found ← gets_users (find_by_id user_id)
    elim (stripe_customer found) [
      | none ↦ throw (meteor_error 403 "No such payment source.")
      | some customer ↦ do
        id ← find_original_source_id v hashed customer
        pure (record { customer = customer; source = id })
    ]

  -- One option for each source.
  abbrev pub options_of : Option Text → List Source → List PowerboxOption
  options_of default [] = add_card ∷ []
  options_of default (source ∷ sources) =
      pay_with (sanitize_source v source (some (is_default default source)))
      ∷ options_of default sources

  -- `query` of payment sources
  unfoldable pub query_sources : Text → Action S (List PowerboxOption)
  query_sources user_id = do
    found ← gets_users (find_by_id user_id)
    elim (stripe_customer found) [
      | none ↦ pure (add_card ∷ [])
      | some id ↦ do
        customer ← read (v.retrieve_customer id)
        elim customer.sources [
          | none ↦ pure (add_card ∷ [])
          | some sources ↦ pure (options_of customer.default_source sources)
        ]
    ]

  -- `validate` of a payment acceptor
  pub validate_acceptor : Option Text → Config → Action S Acceptor
  validate_acceptor none config = throw (meteor_error 403 "Not logged in.")
  validate_acceptor (some user_id) config = pure (record { config = config; admins = user_id ∷ [] })

  -- `query` of payment acceptors: is one offered?
  pub query_acceptor : Option Text → Action S Bool
  unfolding logged_in_user
  query_acceptor none = pure false
  query_acceptor (some user_id) = do user ← logged_in_user v user_id; pure user.is_admin

  -- The charge that `createPayment` asks for: it holds the money and does not take it yet.
  unfoldable pub charge_request : SourceRef → List Item → Request
  charge_request source items =
      create_charge (total_from (pos 0) items) source.customer source.source (describe items) false

  -- `createPayment`, on what `unwrapFrontendCap` makes of the source; `message` is `err.message`. An
  -- invoice without `items` is a TypeError before the charge.
  unfoldable pub create_payment :
      (Failure → Text) → Config → Result SourceRef → Option (List Item) → Action S Outcome
  create_payment message config source invoice =
      then_or
        (do
          ref ← (λ w. (source, w))
          items ← elim invoice [ none ↦ throw type_error | some items ↦ pure items ]
          charge ← perform (charge_request ref items) v.request_charge
          pure (charge, items))
        (λ (charge, items).
          pure (success (record { id = charge.id; items = items; config = config })))
        (λ e. pure (failed (message e)))

  -- The invoice that a captured charge gets. Where it fits no user, the log line names a variable that
  -- does not exist.
  unfoldable pub invoice_charge : Payment → CardCharge → Action S (Unit {0})
  invoice_charge payment charge = do
    found ← gets_users (find_by_customer charge.customer)
    elim found [
      | none ↦ throw reference_error
      | some user ↦ send_invoice v user payment.items payment.config
    ]

  -- A capture that failed is none, unless the charge was captured before.
  unfoldable pub check_captured : Text → Failure → Action S (Unit {0})
  check_captured id e =
      then_or (read (v.retrieve_charge id)) (λ charge. if charge.captured then pure tt else throw e)
        (λ _. throw e)

  unfoldable pub commit : Payment → Action S (Unit {0})
  unfolding invoice_charge check_captured
  commit payment =
      then_or (perform (capture_charge payment.id) v.request_charge) (invoice_charge payment)
        (check_captured payment.id)
