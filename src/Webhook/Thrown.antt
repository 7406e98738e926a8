-- ===== src/Webhook/Thrown.antt =====
-- A webhook handler that throws has written to no user.
use blackrock.Prelude.{ℕ, ◌≡◌, refl, inl, inr, Bool, true, false, arith, Option-cases}
use blackrock.Text.{Text}
use blackrock.Users.{find_by_customer}
use blackrock.Stripe.{
  Failure, Result-cases, err, Invoice, EventBody, payment_succeeded, payment_failed,
  subscription_deleted, other_event, Services,
}
use blackrock.Action.{World}
use blackrock.Stripe.Objects.{current_subscription}
use blackrock.Webhook.{handle_invoice_event, handle_deleted, handle_event, handle_webhook_event}
use blackrock.Webhook.Replay.{handle_invoice_thrown, event_found, event_missing}
use blackrock.Webhook.Deleted.{
  deleted_missing, deleted_unreachable, deleted_downgrade, deleted_subscribed,
}

module _ {S : Type 0} (v : Services S) where
  invoice_event_thrown :
      (created : ℕ) (failed : Bool) (invoice : Invoice) (w : World S) (e : Failure)
      → (handle_invoice_event v created failed invoice w).0 ≡ err e
      → (handle_invoice_event v created failed invoice w).1.users ≡ w.users
  invoice_event_thrown created failed invoice w e thrown =
      elim (Option-cases (find_by_customer invoice.customer w.users)) [
        | inl missing ↦ rw (event_missing v created failed invoice w missing)
        | inr (user, found) ↦
            let step = event_found v created failed invoice user w found in
            rw step (handle_invoice_thrown v created failed invoice user w e (rw step at thrown))
      ]

  deleted_thrown :
      (id : Text) (w : World S) (e : Failure)
      → (handle_deleted v id w).0 ≡ err e
      → (handle_deleted v id w).1.users ≡ w.users
  deleted_thrown id w e thrown = elim (Option-cases (find_by_customer id w.users)) [
    | inl missing ↦ rw (deleted_missing v id w missing)
    | inr (user, found) ↦ elim (Result-cases (v.retrieve_customer id w.outside)) [
      | inr (e', failed) ↦ rw (deleted_unreachable v id w user found e' failed)
      | inl (c, fetched) ↦ elim (Option-cases (current_subscription c)) [
        | inl left ↦ absurd (ground (arith, deleted_downgrade v id w user found c fetched left))
        | inr (s, subscribed) ↦ rw (deleted_subscribed v id w user found c fetched s subscribed)
      ]
    ]
  ]

  event_thrown :
      (created : ℕ) (body : EventBody) (id : Text) (w : World S) (e : Failure)
      → (handle_event v (record { id = id; created = created; body = body }) w).0 ≡ err e
      → (handle_event v (record { id = id; created = created; body = body }) w).1.users ≡ w.users
  unfolding handle_event
  event_thrown created (payment_succeeded invoice) id w e thrown =
      invoice_event_thrown created false invoice w e thrown
  event_thrown created (payment_failed invoice) id w e thrown =
      invoice_event_thrown created true invoice w e thrown
  event_thrown created (subscription_deleted customer) id w e thrown =
      deleted_thrown customer w e thrown
  event_thrown created other_event id w e thrown = refl

  -- A handler that throws, at any step of any event, leaves all users as they were.
  pub handle_webhook_event_thrown :
      (event_id : Text) (w : World S) (e : Failure)
      → (handle_webhook_event v event_id w).0 ≡ err e
      → (handle_webhook_event v event_id w).1.users ≡ w.users
  unfolding handle_webhook_event
  handle_webhook_event_thrown event_id w e thrown =
      elim (Result-cases (v.retrieve_event event_id w.outside)) [
        | inr (e', failed) ↦ rw failed
        | inl (event, fetched) ↦
            rw fetched (event_thrown event.created event.body event.id w e (rw fetched at thrown))
      ]
