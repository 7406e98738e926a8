-- ===== src/Webhook/Effects.antt =====
-- What a handled event has done: the demotion after a failed payment, the end of a subscription, and
-- nothing at all to the users where the handler throws.
use blackrock.Prelude.{
  ℕ, ◌≡◌, refl, ◌∙◌, inl, inr, true, false, none, some, List, ◌∷◌, arith, Option-cases,
}
use blackrock.Text.{Text}
use blackrock.Users.{
  User, find_by_id, find_by_customer, set_plan, set_last_invoice_time, update_user, free,
}
use blackrock.Users.Laws.{HasDistinctIds, find_by_id-update_user, find_by_id_of_customer}
use blackrock.Stripe.{
  Result-cases, ok, Invoice, Event, payment_failed, subscription_deleted, Customer, Subscription,
  Request, cancel_subscription, Services,
}
use blackrock.Action.{World}
use blackrock.Letter.{failure_html, Config, failure_subject, failure_text}
use blackrock.Mail.{send_to}
use blackrock.Stripe.Objects.{current_subscription}
use blackrock.Webhook.{
  Mod, apply_mod, is_stale, demote, invoice_changes, handle_invoice, handle_deleted, handle_event,
  handle_webhook_event,
}
use blackrock.Webhook.Keeps.{invoice_changes-KeepsUsers}
use blackrock.Webhook.Replay.{handle_invoice_err, handle_invoice_ok, event_found}
use blackrock.Webhook.Deleted.{deleted_missing, deleted_downgrade, deleted_subscribed}

-- The requests after a demotion, from those after its e-mail: the current subscription is canceled
-- at once, if there is one.
abbrev pub canceled : Text → Customer → List Request → List Request
canceled id customer requests = elim (current_subscription customer) [
  | none ↦ requests
  | some s ↦ cancel_subscription id s.id false ∷ requests
]

module _ {S : Type 0} (v : Services S) where
  -- A demotion that does not throw sets the plan to "free" among the fields to write, and after the
  -- e-mail it asks Stripe to cancel the subscription that the customer has then, at once, and nothing
  -- else.
  pub demote_cancels :
      (user : User) (id : Text) (config : Config) (changes changes' : Mod) (w : World S)
      → (demote v user id config changes w).0 ≡ ok changes'
      → let mailed =
          (send_to v user
            (failure_subject config)
            (failure_text config v.root_url)
            (failure_html config v.root_url)
            config
            w).1 in
        (changes' ≡ record changes { plan = some free })
        × ((customer : Customer) × (v.retrieve_customer id mailed.outside ≡ ok customer)
            × ((demote v user id config changes w).1.requests
                ≡ canceled id customer mailed.requests))
  unfolding demote
  demote_cancels user id config changes changes' w done =
      let mailed =
        send_to v user (failure_subject config) (failure_text config v.root_url)
          (failure_html config v.root_url) config w in
      elim (Result-cases (v.retrieve_customer id mailed.1.outside)) [
        | inl (customer, fetched) ↦ (ground arith, (customer, fetched, ground arith))
        | inr (e, failed) ↦ absurd (ground arith)
      ]

  failed_changes :
      (created : ℕ) (invoice : Invoice) (user : User) (w : World S) (changes : Mod)
      → (invoice_changes v created true invoice user w).0 ≡ ok changes
      → changes ≡ record { last_invoice_time = created; plan = some free }
  unfolding invoice_changes
  failed_changes created invoice user w changes done =
      (demote_cancels user invoice.customer _ (record { last_invoice_time = created; plan = none })
        changes w done).0

  demoted :
      (created : ℕ) (invoice : Invoice) (user : User) (w : World S)
      → is_stale user created ≡ false
      → (handle_invoice v created true invoice user w).0 ≡ ok tt
      → (handle_invoice v created true invoice user w).1.users
        ≡ update_user user.id (λ u. set_plan free (set_last_invoice_time created u)) w.users
  unfolding apply_mod
  demoted created invoice user w fresh done =
      elim (Result-cases (invoice_changes v created true invoice user w).0) [
        | inl (changes, e) ↦
            handle_invoice_ok v created true invoice user w changes fresh e
            ∙ rw (
              failed_changes created invoice user w changes e,
              invoice_changes-KeepsUsers v created true invoice user w,
            )
        | inr (failure, e) ↦
            absurd
              (ground (arith, handle_invoice_err v created true invoice user w failure fresh e))
      ]

  -- After an event `invoice.payment_failed` that is new for its user and was handled without a throw,
  -- the user is on the plan "free", the event's time is recorded, and the rest of the document is as
  -- before; if no two users share an id.
  pub handle_webhook_event_failed :
      (event_id : Text) (event : Event) (invoice : Invoice) (user : User) (w : World S)
      → v.retrieve_event event_id w.outside ≡ ok event
      → event.body ≡ payment_failed invoice
      → HasDistinctIds w.users
      → find_by_customer invoice.customer w.users ≡ some user
      → is_stale user event.created ≡ false
      → (handle_webhook_event v event_id w).0 ≡ ok tt
      → find_by_id user.id (handle_webhook_event v event_id w).1.users
        ≡ some (set_plan free (set_last_invoice_time event.created user))
  handle_webhook_event_failed event_id event invoice user w fetched body distinct found fresh done =
      let step : handle_webhook_event v event_id w
          ≡ handle_invoice v event.created true invoice user w =
        unfold handle_webhook_event handle_event in
        (rw (fetched, body) (event_found v event.created true invoice user w found)) in
      rw (step, demoted event.created invoice user w fresh (rw step at done))
        (find_by_id-update_user user.id _ w.users (λ u. refl) {u = user}
          (find_by_id_of_customer invoice.customer w.users {u = user} distinct found))

  of_deleted :
      (event_id : Text) (event : Event) (id : Text) (w : World S)
      → v.retrieve_event event_id w.outside ≡ ok event
      → event.body ≡ subscription_deleted id
      → handle_webhook_event v event_id w ≡ handle_deleted v id w
  unfolding handle_webhook_event handle_event
  of_deleted event_id event id w fetched body = rw (fetched, body)

  no_subscription_left :
      (event_id : Text) (event : Event) (id : Text) (user : User) (customer : Customer)
      (w : World S)
      → v.retrieve_event event_id w.outside ≡ ok event
      → event.body ≡ subscription_deleted id
      → HasDistinctIds w.users
      → find_by_customer id w.users ≡ some user
      → v.retrieve_customer id w.outside ≡ ok customer
      → current_subscription customer ≡ none
      → let (r, w') = handle_webhook_event v event_id w in
        (r ≡ ok tt)
        × (w' ≡ record w { users = update_user user.id (set_plan free) w.users })
        × (find_by_id user.id w'.users ≡ some (set_plan free user))
  no_subscription_left event_id event id user customer w fetched body distinct found known
        none_left =
      let step =
        of_deleted event_id event id w fetched body
        ∙ deleted_downgrade v id w user found customer known none_left in
      rw step (
        refl,
        refl,
        find_by_id-update_user user.id (set_plan free) w.users (λ u. refl) {u = user}
            (find_by_id_of_customer id w.users {u = user} distinct found),
      )

  still_subscribed :
      (event_id : Text) (event : Event) (id : Text) (customer : Customer) (s : Subscription)
      (w : World S)
      → v.retrieve_event event_id w.outside ≡ ok event
      → event.body ≡ subscription_deleted id
      → v.retrieve_customer id w.outside ≡ ok customer
      → current_subscription customer ≡ some s
      → handle_webhook_event v event_id w ≡ (ok tt, w)
  still_subscribed event_id event id customer s w fetched body known subscribed =
      of_deleted event_id event id w fetched body
      ∙ elim (Option-cases (find_by_customer id w.users)) [
        | inl missing ↦ deleted_missing v id w missing
        | inr (user, found) ↦ deleted_subscribed v id w user found customer known s subscribed
      ]

  -- After an event `customer.subscription.deleted` about a known user whose customer Stripe returns, the
  -- event is accepted; the user's document has the plan "free" and is else as before if the customer
  -- has no current subscription, and is as before if it has one; and nothing else of the world has
  -- changed: no other collection, no request, and no user but by the write of the plan to that id; if no
  -- two users share an id.
  pub handle_webhook_event_deleted :
      (event_id : Text) (event : Event) (id : Text) (user : User) (customer : Customer)
      (w : World S)
      → v.retrieve_event event_id w.outside ≡ ok event
      → event.body ≡ subscription_deleted id
      → HasDistinctIds w.users
      → find_by_customer id w.users ≡ some user
      → v.retrieve_customer id w.outside ≡ ok customer
      → let (r, w') = handle_webhook_event v event_id w in
        let left : User = elim (current_subscription customer) [
          | none ↦ set_plan free user
          | some _ ↦ user
        ] in
        let left_users : List User = elim (current_subscription customer) [
          | none ↦ update_user user.id (set_plan free) w.users
          | some _ ↦ w.users
        ] in
        (r ≡ ok tt)
        × (w' ≡ record w { users = left_users })
        × (find_by_id user.id w'.users ≡ some left)
  handle_webhook_event_deleted event_id event id user customer w fetched body distinct found known =
      elim (Option-cases (current_subscription customer)) [
        | inl none_left ↦ rw none_left (
            no_subscription_left event_id event id user customer w fetched body distinct found known
              none_left)
        | inr (s, subscribed) ↦
            let step =
              still_subscribed event_id event id customer s w fetched body known subscribed in
            rw (subscribed, step)
              (refl, refl, find_by_id_of_customer id w.users {u = user} distinct found)
      ]
