-- ===== src/Webhook.antt =====
-- Stripe's webhook in shell/packages/blackrock-payments/payments-server.js: `paymentFailed`,
-- `handleWebhookEvent` and `processWebhook`. Log output is left out.
pub mod Keeps
pub mod Replay
pub mod Delivery
pub mod Deleted
pub mod Writes
pub mod Frame
pub mod Effects
pub mod Thrown
pub mod Totals
mod Tests
use Prim.Native.String.{String}
use blackrock.Prelude.{
  ℕ, zero, Bool, true, false, ◌&&◌, ◌||◌, Option, none, some, List, [], ◌∷◌, ◌++◌, leb, ltb,
  if◌then◌else◌,
}
use blackrock.Prelude.Int.{ℤ, pos, ◌-ℤ◌, ltb_ℤ}
use blackrock.Text.{Text, codes, text_eq, is_truthy, split, first_part, title_case}
use blackrock.Users.{
  User, payments_of, find_by_customer, set_plan, set_last_invoice_time, update_user, free,
}
use blackrock.Stripe.{
  Failure, meteor_error, stripe_error, type_error, Result, ok, err, Customer, Subscription, Line,
  subscription_line, other_line, Invoice, Event, EventBody, payment_succeeded, payment_failed,
  subscription_deleted, other_event, Plan, Request, cancel_subscription, update_subscription,
  Services,
}
use blackrock.Action.{
  World, Action, pure, throw, read, gets_outside, gets_users, perform, try_catch, ◌>>=◌, ◌>>◌,
  set_user,
}
use blackrock.Stripe.Objects.{current_subscription, is_card_error}
use blackrock.Plans.{is_beta, base_plan, plan_title}
use blackrock.Letter.{failure_html, Config, Item, failure_text, failure_subject}
use blackrock.Mail.{send_to, send_invoice}

-- `{$set: mod}`: the fields that the handler of an invoice event changes in the user
pub record Mod : Type 0 where
  pub last_invoice_time : ℕ
  pub plan : Option Text

unfoldable pub apply_mod : Mod → User → User
apply_mod changes user = elim changes.plan [
  | none ↦ set_last_invoice_time changes.last_invoice_time user
  | some plan ↦ set_plan plan (set_last_invoice_time changes.last_invoice_time user)
]

abbrev is_zero : ℤ → Bool
is_zero (pos zero) = true
is_zero _ = false

-- What one line of the invoice adds to the e-mailed items, given the plan of a subscription line.
unfoldable pub subscription_items : Text → ℤ → Plan → List Item
subscription_items plan_id amount plan =
    let title = codes "1 month " ++ plan_title plan ++ codes " plan" in
    if is_zero amount && is_beta plan_id
    then record { title = title; amount_cents = plan.price }
      ∷ record { title = codes "Beta discount"; amount_cents = pos 0 -ℤ plan.price }
      ∷ []
    else record { title = title; amount_cents = amount } ∷ []

-- `user.payments.lastInvoiceTime && user.payments.lastInvoiceTime >= event.created`: the number 0 is
-- not truthy.
unfoldable pub is_stale : User → ℕ → Bool
is_stale user created = elim (payments_of user).last_invoice_time [
  | none ↦ false
  | some last ↦ ltb 0 last && leb created last
]

module _ {S : Type 0} (v : Services S) where
  unfoldable pub config_of : Action S Config
  config_of = gets_outside λ s. record {
    acceptor_title = v.server_title s;
    return_address = v.return_address s;
    settings_url = v.root_url ++ codes "/account";
  }

  -- The user is told, and the current subscription is canceled; the plan becomes "free" in `mod`.
  unfoldable pub demote : User → Text → Config → Mod → Action S Mod
  demote user customer_id config changes = do
    send_to v user (failure_subject config) (failure_text config v.root_url)
        (failure_html config v.root_url) config
    customer ← read (v.retrieve_customer customer_id)
    elim (current_subscription customer) [
      | none ↦ pure (record changes { plan = some free })
      | some subscription ↦
          perform (cancel_subscription customer_id subscription.id false) v.request_subscription
          >> pure (record changes { plan = some free })
    ]

  -- The loop over `invoice.lines.data`: the items, and whether a beta plan is to be left.
  unfoldable pub collect : User → List Line → List Item → Bool → Action S (List Item × Bool)
  collect user [] items exit = pure (items, exit)
  collect user (subscription_line plan_id amount ∷ lines) items exit = do
    plan ← read (v.get_plan (base_plan plan_id) (some user))
    collect user lines (items ++ subscription_items plan_id amount plan)
        (exit || (is_beta plan_id && v.out_of_beta))
  collect user (other_line description amount ∷ lines) items exit =
      collect user lines (items ++ record { title = description; amount_cents = amount } ∷ []) exit

  -- The item for what was paid from the account's credit.
  unfoldable pub with_credit : Invoice → List Item → List Item
  with_credit invoice items =
      if ltb_ℤ invoice.amount_due invoice.total
      then items
        ++ record {
          title = codes "Paid from account credit";
          amount_cents = invoice.amount_due -ℤ invoice.total;
        }
          ∷ []
      else items

  -- `catch (err)`: only a declined card demotes the user.
  unfoldable pub declined : User → Text → Config → Mod → Failure → Action S Mod
  unfolding demote
  declined user customer_id config changes e =
      if is_card_error e then demote user customer_id config changes else throw e

  unfoldable pub switch_plan : User → Text → Config → Mod → Subscription → Action S Mod
  unfolding declined
  switch_plan user customer_id config changes subscription =
      try_catch
        (perform (update_subscription customer_id subscription.id (base_plan subscription.plan_id))
            v.request
          >> pure changes)
        (declined user customer_id config changes)

  -- A user who is still on a beta plan moves to the paid plan of that name.
  unfoldable pub exit_beta : User → Text → Config → Mod → Action S Mod
  unfolding switch_plan
  exit_beta user customer_id config changes = do
    customer ← read (v.retrieve_customer customer_id)
    elim (current_subscription customer) [
      | none ↦ pure changes
      | some subscription ↦
          if is_beta subscription.plan_id
          then switch_plan user customer_id config changes subscription
          else pure changes
    ]

  unfoldable pub invoice_paid : User → Invoice → Config → Mod → Action S Mod
  unfolding collect with_credit exit_beta
  invoice_paid user invoice config changes = do
    collected ← collect user invoice.lines [] false
    if collected.1
        then exit_beta user invoice.customer config changes
        else (send_invoice v user (with_credit invoice collected.0) config >> pure changes)

  -- What the handler of an invoice event does before it writes to the user: the fields to write.
  unfoldable pub invoice_changes : ℕ → Bool → Invoice → User → Action S Mod
  unfolding demote invoice_paid config_of
  invoice_changes created failed invoice user = do
    config ← config_of
    let fresh : Mod = record { last_invoice_time = created; plan = none }
    if failed
        then demote user invoice.customer config fresh
        else invoice_paid user invoice config fresh

  -- The two invoice events, for the user found by the invoice's customer.
  unfoldable pub handle_invoice : ℕ → Bool → Invoice → User → Action S (Unit {0})
  unfolding invoice_changes
  handle_invoice created failed invoice user = if is_stale user created then pure tt else do
    changes ← invoice_changes created failed invoice user
    set_user user.id (apply_mod changes)

  unfoldable pub handle_invoice_event : ℕ → Bool → Invoice → Action S (Unit {0})
  unfolding handle_invoice
  handle_invoice_event created failed invoice = do
    found ← gets_users (find_by_customer invoice.customer)
    elim found [ none ↦ pure tt | some user ↦ handle_invoice created failed invoice user ]

  -- `customer.subscription.deleted`: the customer's current subscriptions decide, not the event.
  unfoldable pub handle_deleted : Text → Action S (Unit {0})
  handle_deleted customer_id = do
    found ← gets_users (find_by_customer customer_id)
    elim found [
      | none ↦ pure tt
      | some user ↦ do
        customer ← read (v.retrieve_customer customer_id)
        elim (current_subscription customer) [
          | none ↦ set_user user.id (set_plan free)
          | some _ ↦ pure tt
        ]
    ]

  unfoldable pub handle_event : Event → Action S (Unit {0})
  unfolding handle_invoice_event handle_deleted
  handle_event event = elim event.body [
    | payment_succeeded invoice ↦ handle_invoice_event event.created false invoice
    | payment_failed invoice ↦ handle_invoice_event event.created true invoice
    | subscription_deleted customer_id ↦ handle_deleted customer_id
    | other_event ↦ pure tt
  ]

  -- Nothing of what was posted is trusted but the event's id.
  unfoldable pub handle_webhook_event : Text → Action S (Unit {0})
  unfolding handle_event
  handle_webhook_event event_id = do event ← read (v.retrieve_event event_id); handle_event event
