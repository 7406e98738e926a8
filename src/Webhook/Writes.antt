-- ===== src/Webhook/Writes.antt =====
-- What a webhook event writes: at most one change to one user, the one whose `payments.id` is the
-- event's customer.
use blackrock.Webhook.Deleted.{
  deleted_downgrade, deleted_subscribed, deleted_unreachable, deleted_missing,
}
use blackrock.Prelude.{
  ℕ, ◌≤◌, ◌≡◌, refl, ◌⊎◌, inl, inr, Bool, true, false, Option, none, some, List, arith, Bool-cases,
  Option-cases,
}
use blackrock.Text.{Text}
use blackrock.Users.{customer_id, User, payments_of, find_by_customer, set_plan, update_user, free}
use blackrock.Stripe.{
  Result-cases, ok, Invoice, Event, EventBody, payment_succeeded, payment_failed,
  subscription_deleted, other_event, Services,
}
use blackrock.Action.{World}
use blackrock.Stripe.Objects.{current_subscription}
use blackrock.Webhook.{
  Mod, apply_mod, is_stale, handle_invoice, handle_invoice_event, handle_deleted, handle_event,
  handle_webhook_event,
}
use blackrock.Webhook.Replay.{
  handle_invoice_stale, handle_invoice-users, handle_invoice_thrown, event_found, event_missing,
}

-- The time of the last invoice, 0 if there is none: the code treats the two alike.
abbrev pub last_time : User → ℕ
last_time user = elim (payments_of user).last_invoice_time [ none ↦ 0 | some t ↦ t ]

-- One user, found by the customer, was changed: not its id, and its time not backwards.
pub record Write (customer : Text) (users users' : List User) : Type 0 where
  pub user : User
  pub change : User → User
  pub found : find_by_customer customer users ≡ some user
  pub written : users' ≡ update_user user.id change users
  pub same_id : (u : User) → (change u).id ≡ u.id
  pub same_customer : (u : User) → customer_id (change u) ≡ customer_id u
  pub later : last_time user ≤ last_time (change user)

abbrev pub WritesAtMost : Text → List User → List User → Type 0
WritesAtMost customer users users' = (users' ≡ users) ⊎ Write customer users users'

-- The customer of an event that the handler looks at.
abbrev pub customer_of : EventBody → Option Text
customer_of (payment_succeeded invoice) = some invoice.customer
customer_of (payment_failed invoice) = some invoice.customer
customer_of (subscription_deleted customer) = some customer
customer_of other_event = none

pub apply_mod_id : (changes : Mod) (u : User) → (apply_mod changes u).id ≡ u.id
unfolding apply_mod
apply_mod_id changes u = ground arith

pub customer_id-set_plan : (plan : Text) (u : User) → customer_id (set_plan plan u) ≡ customer_id u
unfolding customer_id
customer_id-set_plan plan u = refl

pub customer_id-apply_mod :
    (changes : Mod) (u : User) → customer_id (apply_mod changes u) ≡ customer_id u
unfolding apply_mod customer_id
customer_id-apply_mod changes u = ground arith

last_time-apply_mod :
    (changes : Mod) (u : User) → last_time (apply_mod changes u) ≡ changes.last_invoice_time
unfolding apply_mod
last_time-apply_mod changes u = ground arith

fresh_later : (u : User) (created : ℕ) → is_stale u created ≡ false → last_time u ≤ created
unfolding is_stale
fresh_later u created h = ground arith

module _ {S : Type 0} (v : Services S) where
  invoice_writes :
      (created : ℕ) (failed : Bool) (invoice : Invoice) (w : World S)
      → WritesAtMost invoice.customer w.users
          (handle_invoice_event v created failed invoice w).1.users
  invoice_writes created failed invoice w =
      elim (Option-cases (find_by_customer invoice.customer w.users)) [
        | inl missing ↦ inl (rw (event_missing v created failed invoice w missing))
        | inr (user, found) ↦
            rw (event_found v created failed invoice user w found) (for_user user found)
      ]
    where
      for_user :
          (user : User)
          → find_by_customer invoice.customer w.users ≡ some user
          → WritesAtMost invoice.customer w.users
              (handle_invoice v created failed invoice user w).1.users
      for_user user found = elim (Bool-cases (is_stale user created)) [
        | inl stale ↦ inl (rw (handle_invoice_stale v created failed invoice user w stale))
        | inr fresh ↦ elim (Result-cases (handle_invoice v created failed invoice user w).0) [
          | inl (_, done) ↦
              let (changes, time, users) =
                handle_invoice-users v created failed invoice user w fresh done in
              inr (record {
                user = user;
                change = apply_mod changes;
                found = found;
                written = users;
                same_id = apply_mod_id changes;
                same_customer = customer_id-apply_mod changes;
                later =
                    omega (arith, fresh_later user created fresh, last_time-apply_mod changes user);
              })
          | inr (e, thrown) ↦ inl (handle_invoice_thrown v created failed invoice user w e thrown)
        ]
      ]

  deleted_writes :
      (customer : Text) (w : World S)
      → WritesAtMost customer w.users (handle_deleted v customer w).1.users
  deleted_writes customer w = elim (Option-cases (find_by_customer customer w.users)) [
    | inl missing ↦ inl (rw (deleted_missing v customer w missing))
    | inr (user, found) ↦ elim (Result-cases (v.retrieve_customer customer w.outside)) [
      | inr (e, failed) ↦ inl (rw (deleted_unreachable v customer w user found e failed))
      | inl (c, fetched) ↦ elim (Option-cases (current_subscription c)) [
        | inr (s, subscribed) ↦
            inl (rw (deleted_subscribed v customer w user found c fetched s subscribed))
        | inl unsubscribed ↦ inr (record {
          user = user;
          change = set_plan free;
          found = found;
          written = rw (deleted_downgrade v customer w user found c fetched unsubscribed);
          same_id = λ u. refl;
          same_customer = customer_id-set_plan free;
          later = omega arith;
        })
      ]
    ]
  ]

  event_writes :
      (event : Event) (customer : Text) (w : World S)
      → customer_of event.body ≡ some customer
      → WritesAtMost customer w.users (handle_event v event w).1.users
  unfolding handle_event
  event_writes event customer w about = by_body event.body about
    where
      by_body :
          (body : EventBody)
          → customer_of body ≡ some customer
          → WritesAtMost customer w.users (handle_event v (record event { body = body }) w).1.users
      by_body (payment_succeeded invoice) e =
          let same : invoice.customer ≡ customer = ground arith in
          rw (← same) (invoice_writes event.created false invoice w)
      by_body (payment_failed invoice) e =
          let same : invoice.customer ≡ customer = ground arith in
          rw (← same) (invoice_writes event.created true invoice w)
      by_body (subscription_deleted c) e =
          let same : c ≡ customer = ground arith in rw (← same) (deleted_writes c w)
      by_body other_event e = cc

  pub webhook_writes :
      (event_id : Text) (event : Event) (customer : Text) (w : World S)
      → v.retrieve_event event_id w.outside ≡ ok event
      → customer_of event.body ≡ some customer
      → WritesAtMost customer w.users (handle_webhook_event v event_id w).1.users
  unfolding handle_webhook_event
  webhook_writes event_id event customer w fetched about =
      rw fetched (event_writes event customer w about)

  -- An event that is about no customer changes no user.
  pub webhook_other :
      (event_id : Text) (event : Event) (w : World S)
      → v.retrieve_event event_id w.outside ≡ ok event
      → customer_of event.body ≡ none
      → (handle_webhook_event v event_id w).1.users ≡ w.users
  unfolding handle_webhook_event handle_event
  webhook_other event_id event w fetched other = rw fetched (by_body event.body other)
    where
      by_body :
          (body : EventBody)
          → customer_of body ≡ none
          → (handle_event v (record event { body = body }) w).1.users ≡ w.users
      by_body (payment_succeeded invoice) e = cc
      by_body (payment_failed invoice) e = cc
      by_body (subscription_deleted c) e = cc
      by_body other_event e = refl
