-- ===== src/Webhook/Frame.antt =====
-- Which users a webhook event writes to, and in which way: at most the one whose `payments.id` is the
-- event's customer, whose last invoice time never goes back.
use blackrock.Prelude.{◌≤◌, ◌≡◌, inl, inr, some, arith}
use blackrock.Text.{Text}
use blackrock.Users.{User, find_by_id, find_by_customer}
use blackrock.Users.Laws.{HasDistinctIds, find_by_id-update_user, find_by_id_of_customer}
use blackrock.Stripe.{ok, Event, Services}
use blackrock.Action.{World}
use blackrock.Webhook.{handle_webhook_event}
use blackrock.Webhook.Writes.{last_time, customer_of, webhook_writes}

module _ {S : Type 0} (v : Services S) where
  -- The time of a user's last handled invoice never goes back: for the user of the event's customer,
  -- whatever the event is and however the handler ends, if no two users share an id.
  pub handle_webhook_event_time :
      (event_id : Text) (event : Event) (customer : Text) (user : User) (w : World S)
      → v.retrieve_event event_id w.outside ≡ ok event
      → customer_of event.body ≡ some customer
      → HasDistinctIds w.users
      → find_by_customer customer w.users ≡ some user
      → (user' : User) × (find_by_id user.id (handle_webhook_event v event_id w).1.users
          ≡ some user')
        × (last_time user ≤ last_time user')
  handle_webhook_event_time event_id event customer user w fetched about distinct found =
      let by_id = find_by_id_of_customer customer w.users {u = user} distinct found in
      elim (webhook_writes v event_id event customer w fetched about) [
        | inl same ↦ (user, rw same by_id, omega arith)
        | inr write ↦
            let same : write.user ≡ user = ground (arith, write.found) in
            (
              write.change user,
              rw (write.written, same)
                  (find_by_id-update_user user.id write.change w.users write.same_id {u = user}
                    by_id),
              rw (← same) write.later,
            )
      ]
