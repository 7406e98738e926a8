-- ===== src/Webhook/Replay.antt =====
-- The lemmas behind replays: what the handler of an invoice event does for a user for whom the event
-- is stale, for any other user, and a second time.
use blackrock.Prelude.{
  ℕ, ◌<◌, ◌≤◌, ◌≡◌, ◌∙◌, inl, inr, Bool, true, false, none, some, arith, Bool-cases, Option-cases,
}
use blackrock.Text.{Text}
use blackrock.Users.{User, payments_of, has_customer, find_by_customer, update_user}
use blackrock.Users.Laws.{HasDistinctIds, find_by_customer-update_user}
use blackrock.Stripe.{Failure, Result-cases, ok, err, Invoice, Services}
use blackrock.Action.{World}
use blackrock.Webhook.{
  invoice_changes, Mod, apply_mod, is_stale, handle_invoice, handle_invoice_event,
}
use blackrock.Webhook.Keeps.{invoice_changes_time, invoice_changes-KeepsUsers}

pub is_stale_of_le :
    (user : User) (created last : ℕ)
    → (payments_of user).last_invoice_time ≡ some last
    → created ≤ last
    → 0 < last
    → is_stale user created ≡ true
unfolding is_stale
is_stale_of_le user created last e h p = ground arith

apply_mod_time :
    (changes : Mod) (user : User)
    → (payments_of (apply_mod changes user)).last_invoice_time ≡ some changes.last_invoice_time
unfolding apply_mod
apply_mod_time changes user = ground arith

apply_mod-has_customer :
    (customer : Text) (changes : Mod) (user : User)
    → has_customer customer (apply_mod changes user) ≡ has_customer customer user
unfolding apply_mod has_customer
apply_mod-has_customer customer changes user = ground arith

module _ {S : Type 0} (v : Services S) where
  pub event_found :
      (created : ℕ) (failed : Bool) (invoice : Invoice) (user : User) (w : World S)
      → find_by_customer invoice.customer w.users ≡ some user
      → handle_invoice_event v created failed invoice w
        ≡ handle_invoice v created failed invoice user w
  unfolding handle_invoice_event
  event_found created failed invoice user w found = ground arith

  pub event_missing :
      (created : ℕ) (failed : Bool) (invoice : Invoice) (w : World S)
      → find_by_customer invoice.customer w.users ≡ none
      → handle_invoice_event v created failed invoice w ≡ (ok tt, w)
  unfolding handle_invoice_event
  event_missing created failed invoice w missing = ground arith

  pub handle_invoice_stale :
      (created : ℕ) (failed : Bool) (invoice : Invoice) (user : User) (w : World S)
      → is_stale user created ≡ true
      → handle_invoice v created failed invoice user w ≡ (ok tt, w)
  unfolding handle_invoice
  handle_invoice_stale created failed invoice user w stale = ground arith

  pub event_stale :
      (created : ℕ) (failed : Bool) (invoice : Invoice) (user : User) (w : World S)
      → find_by_customer invoice.customer w.users ≡ some user
      → is_stale user created ≡ true
      → handle_invoice_event v created failed invoice w ≡ (ok tt, w)
  event_stale created failed invoice user w found stale =
      event_found created failed invoice user w found
      ∙ handle_invoice_stale created failed invoice user w stale

  pub handle_invoice_ok :
      (created : ℕ) (failed : Bool) (invoice : Invoice) (user : User) (w : World S) (changes : Mod)
      → is_stale user created ≡ false
      → (invoice_changes v created failed invoice user w).0 ≡ ok changes
      → (handle_invoice v created failed invoice user w).1.users
        ≡ update_user user.id
            (apply_mod changes)
            (invoice_changes v created failed invoice user w).1.users
  unfolding handle_invoice
  handle_invoice_ok created failed invoice user w changes fresh e = ground arith

  pub handle_invoice_err :
      (created : ℕ) (failed : Bool) (invoice : Invoice) (user : User) (w : World S)
      (failure : Failure)
      → is_stale user created ≡ false
      → (invoice_changes v created failed invoice user w).0 ≡ err failure
      → (handle_invoice v created failed invoice user w).0 ≡ err failure
  unfolding handle_invoice
  handle_invoice_err created failed invoice user w failure fresh e = ground arith

  -- A handler that returns has written to the one user, and among the fields is the event's time.
  pub handle_invoice-users :
      (created : ℕ) (failed : Bool) (invoice : Invoice) (user : User) (w : World S)
      → is_stale user created ≡ false
      → (handle_invoice v created failed invoice user w).0 ≡ ok tt
      → (changes : Mod) × (changes.last_invoice_time ≡ created)
        × ((handle_invoice v created failed invoice user w).1.users
            ≡ update_user user.id (apply_mod changes) w.users)
  unfolding handle_invoice
  handle_invoice-users created failed invoice user w fresh done =
      elim (Result-cases (invoice_changes v created failed invoice user w).0) [
        | inl (changes, e) ↦ (
          changes,
          invoice_changes_time v created failed invoice user w e,
          ground (arith, invoice_changes-KeepsUsers v created failed invoice user w),
        )
        | inr (failure, e) ↦ absurd (ground arith)
      ]

  -- A handler that throws has changed no user.
  pub handle_invoice_thrown :
      (created : ℕ) (failed : Bool) (invoice : Invoice) (user : User) (w : World S) (e : Failure)
      → (handle_invoice v created failed invoice user w).0 ≡ err e
      → (handle_invoice v created failed invoice user w).1.users ≡ w.users
  unfolding handle_invoice
  handle_invoice_thrown created failed invoice user w e thrown =
      ground (arith, invoice_changes-KeepsUsers v created failed invoice user w)

  -- The first delivery leaves the user's document such that the event is stale for it.
  event_fresh :
      (created : ℕ) (failed : Bool) (invoice : Invoice) (user : User) (w : World S)
      → HasDistinctIds w.users
      → 0 < created
      → find_by_customer invoice.customer w.users ≡ some user
      → is_stale user created ≡ false
      → (handle_invoice v created failed invoice user w).0 ≡ ok tt
      → (user' : User) × (find_by_customer invoice.customer
            (handle_invoice v created failed invoice user w).1.users
          ≡ some user')
        × (is_stale user' created ≡ true)
  event_fresh created failed invoice user w distinct pos_time found fresh done =
      let (changes, time, users) = handle_invoice-users created failed invoice user w fresh done in
      (
        apply_mod changes user,
        rw users (
            find_by_customer-update_user invoice.customer (apply_mod changes) w.users {u = user}
              distinct (apply_mod-has_customer invoice.customer changes) found),
        is_stale_of_le (apply_mod changes user) created changes.last_invoice_time
            (apply_mod_time changes user) (omega arith) (omega arith),
      )

  -- An invoice event that was handled does nothing when it is handled again.
  pub handle_invoice_event_twice :
      (created : ℕ) (failed again : Bool) (invoice : Invoice) (w : World S)
      → HasDistinctIds w.users
      → 0 < created
      → (handle_invoice_event v created failed invoice w).0 ≡ ok tt
      → handle_invoice_event v created again invoice
          (handle_invoice_event v created failed invoice w).1
        ≡ (ok tt, (handle_invoice_event v created failed invoice w).1)
  handle_invoice_event_twice created failed again invoice w distinct pos_time done =
      elim (Option-cases (find_by_customer invoice.customer w.users)) [
        | inl missing ↦
            rw (event_missing created failed invoice w missing)
              (event_missing created again invoice w missing)
        | inr (user, found) ↦ elim (Bool-cases (is_stale user created)) [
          | inl stale ↦
              rw (event_stale created failed invoice user w found stale)
                (event_stale created again invoice user w found stale)
          | inr fresh ↦
              let same = event_found created failed invoice user w found in
              let (user', found', stale') =
                event_fresh created failed invoice user w distinct pos_time found fresh
                  (rw same at done) in
              rw same (event_stale created again invoice user' _ found' stale')
        ]
      ]
