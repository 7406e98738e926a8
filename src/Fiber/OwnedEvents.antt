-- ===== src/Fiber/OwnedEvents.antt =====
-- The turns of the webhook and of the publication of the bonuses, one by one.
use blackrock.Webhook.Keeps.{invoice_changes-KeepsUsers}
use blackrock.Webhook.Writes.{customer_id-apply_mod, apply_mod_id, customer_id-set_plan}
use blackrock.Bonuses.{plan_bonus_of, is_up_to_date, stripe_bonus, on_mailing_list}
use blackrock.Stripe.Objects.{current_subscription}
use blackrock.System.Entries.{accounts_of-set_bonuses}
use blackrock.Prelude.{false, ℕ, Bool, true, ◌≡◌, refl, ap, Option, List, some, none, arith}
use blackrock.Text.{Text}
use blackrock.Users.{
  payments_of, set_bonuses, set_plan, find_by_id, find_by_customer, PaymentsBonuses, free, User,
}
use blackrock.System.{Account, accounts_of}
use blackrock.Stripe.{
  type_error, other_event, subscription_deleted, payment_failed, payment_succeeded, Invoice,
  EventBody, err, ok, Services,
}
use blackrock.Action.{gets_users, read, World, set_user}
use blackrock.Webhook.{invoice_changes, is_stale, apply_mod}
use blackrock.Fiber.{done}
use blackrock.Fiber.Methods.{
  invoice_fiber, deleted_fiber, event_fiber, webhook_fiber, update_bonuses_fiber,
  sent_bonuses_fiber, my_bonuses_fiber,
}
use blackrock.Fiber.Owned.{
  done-IsSafe, IsSafe, first-IsSafe, part-IsSafe, write-IsSafe, option-IsSafe, bool-IsSafe,
}

module _ {S : Type 0} (v : Services S) (Owns : Text → Text → Type 0) (before : List Account) where
  invoice-IsSafe :
      (created : ℕ) (failed : Bool) (invoice : Invoice)
      → IsSafe Owns before (invoice_fiber v created failed invoice)
  unfolding invoice_fiber
  invoice-IsSafe created failed invoice =
      first-IsSafe Owns before (gets_users (find_by_customer invoice.customer)) _ (λ w. refl)
        λ found. option-IsSafe Owns before found _ _ (done-IsSafe S Owns before (ok tt)) λ user.
          bool-IsSafe Owns before (is_stale user created) _ _ (done-IsSafe S Owns before (ok tt)) (
            first-IsSafe Owns before (invoice_changes v created failed invoice user) _
              (λ w. ap accounts_of (invoice_changes-KeepsUsers v created failed invoice user w))
              λ changes.
                write-IsSafe S Owns before user.id (apply_mod changes) (apply_mod_id changes)
                  (customer_id-apply_mod changes))

  deleted-IsSafe : (id : Text) → IsSafe Owns before (deleted_fiber v id)
  unfolding deleted_fiber
  deleted-IsSafe id =
      first-IsSafe Owns before (gets_users (find_by_customer id)) _ (λ w. refl)
        λ found. option-IsSafe Owns before found _ _ (done-IsSafe S Owns before (ok tt)) λ user.
          first-IsSafe Owns before (read (v.retrieve_customer id)) _ (λ w. refl)
            λ customer.
              option-IsSafe Owns before (current_subscription customer) _ _
                (write-IsSafe S Owns before user.id (set_plan free) (λ u. refl)
                  (customer_id-set_plan free))
                λ _. done-IsSafe S Owns before (ok tt)

  pub webhook-IsSafe : (event_id : Text) → IsSafe Owns before (webhook_fiber v event_id)
  unfolding webhook_fiber event_fiber
  webhook-IsSafe event_id =
      first-IsSafe Owns before (read (v.retrieve_event event_id)) _ (λ w. refl)
        λ event. body-IsSafe event.created event.body
    where
      body-IsSafe :
          (created : ℕ) (body : EventBody)
          → IsSafe Owns before (elim body [
            | payment_succeeded invoice ↦ invoice_fiber v created false invoice
            | payment_failed invoice ↦ invoice_fiber v created true invoice
            | subscription_deleted id ↦ deleted_fiber v id
            | other_event ↦ done (ok tt)
          ])
      body-IsSafe created (payment_succeeded invoice) = invoice-IsSafe created false invoice
      body-IsSafe created (payment_failed invoice) = invoice-IsSafe created true invoice
      body-IsSafe created (subscription_deleted id) = deleted-IsSafe id
      body-IsSafe created other_event = done-IsSafe S Owns before (ok tt)

  stripe_bonus-accounts_of :
      (user : User) (w : World S)
      → accounts_of (stripe_bonus v user w).1.users ≡ accounts_of w.users
  unfolding stripe_bonus
  stripe_bonus-accounts_of user w = ground arith

  update_bonuses-IsSafe : (user : User) → IsSafe Owns before (update_bonuses_fiber v user)
  unfolding update_bonuses_fiber on_mailing_list
  update_bonuses-IsSafe user =
      first-IsSafe Owns before (stripe_bonus v user) _ (stripe_bonus-accounts_of user) λ metadata.
        first-IsSafe Owns before (on_mailing_list v user) _ (λ w. refl)
          λ listed.
            let bonuses : PaymentsBonuses = record { mailing_list = listed; metadata = metadata } in
            bool-IsSafe Owns before (is_up_to_date user (plan_bonus_of bonuses) bonuses) _ _
              (done-IsSafe S Owns before (ok bonuses))
              (first-IsSafe Owns before
                (set_user user.id (set_bonuses (plan_bonus_of bonuses) bonuses)) _
                (λ w. accounts_of-set_bonuses user.id (plan_bonus_of bonuses) bonuses w.users)
                λ _. done-IsSafe S Owns before (ok bonuses))

  sent_bonuses-IsSafe : (user_id : Text) → IsSafe Owns before (sent_bonuses_fiber v user_id)
  unfolding sent_bonuses_fiber
  sent_bonuses-IsSafe user_id =
      first-IsSafe Owns before (gets_users (find_by_id user_id)) _ (λ w. refl)
        λ found.
          done-IsSafe S Owns before
            (ok (elim found [ none ↦ none | some user ↦ (payments_of user).bonuses ]))

  pub my_bonuses-IsSafe : (session : Option Text) → IsSafe Owns before (my_bonuses_fiber v session)
  unfolding my_bonuses_fiber
  my_bonuses-IsSafe none = done-IsSafe S Owns before _
  my_bonuses-IsSafe (some user_id) =
      first-IsSafe Owns before (gets_users (find_by_id user_id)) _ (λ w. refl)
        λ found.
          option-IsSafe Owns before found _ _ (done-IsSafe S Owns before (err type_error)) λ user.
            part-IsSafe Owns before (update_bonuses_fiber v user) _ (update_bonuses-IsSafe user)
              λ _. sent_bonuses-IsSafe user_id
