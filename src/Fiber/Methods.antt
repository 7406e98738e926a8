-- ===== src/Fiber/Methods.antt =====
-- handleWebhookEvent, addCardForUser, updateUserSubscription, createUserSubscription and myBonuses of
-- shell/packages/blackrock-payments/payments-server.js as fibers: the steps between their waits, in the
-- order of the code. What gathers the changes for an invoice event touches no user and is one step, and
-- so is each other method, as none of them changes whose Stripe customer a user is.
use blackrock.Prelude.{ℕ, ◌*◌, Bool, true, false, not, Option, none, some, if◌then◌else◌}
use blackrock.Text.{Text, text_eq}
use blackrock.Users.{
  User, PaymentsBonuses, customer_id, find_by_id, find_by_customer, set_plan, set_customer,
  set_bonuses, payments_of, free,
}
use blackrock.Stripe.{
  Failure, meteor_error, type_error, ok, err, Customer, Invoice, Event, payment_succeeded,
  payment_failed, subscription_deleted, other_event, create_customer, create_source,
  create_subscription, cancel_subscription, Services,
}
use blackrock.Stripe.Objects.{current_subscription}
use blackrock.Plans.{stripe_plan}
use blackrock.Action.{read, gets_users, perform, try_catch, set_user}
use blackrock.Webhook.{apply_mod, is_stale, invoice_changes}
use blackrock.Cards.{
  CleanSource, first_source, sanitize_source, logged_in_user, delete_card_for_user,
  make_card_primary, get_stripe_data,
}
use blackrock.Subscriptions.{
  set_this_user, Changes, no_change, ends_at, subscribe, report_card, record_plan, suspend_account,
  delete_account,
}
use blackrock.Charges.{validate_source, query_sources, create_payment, commit}
use blackrock.Bonuses.{is_up_to_date, plan_bonus_of, stripe_bonus, on_mailing_list}
use blackrock.Mailing.{
  Mailchimp, update_mailchimp, subscribe_mailing_list, unsubscribe_mailing_list,
}
use blackrock.Offer.{bonuses_migration}
use blackrock.System.{
  Operation, stripe_webhook, mailchimp_webhook, offer_bonuses, add_card, delete_card, make_primary,
  stripe_data, bonuses, update_plan, buy_plan, suspend, delete, subscribe_list, unsubscribe_list,
  use_source, list_sources, pay, capture,
}
use blackrock.Fiber.{Fiber, done, once, ◌>>=◌, ◌>>◌}

module _ {S : Type 0} (v : Services S) where
  -- `createUser`
  unfoldable pub create_user_fiber : Text → Text → Text → Fiber S Customer
  create_user_fiber user_id token email = do
    customer ← once (perform (create_customer token email (some user_id)) v.request_customer)
    once (set_user user_id (set_customer customer.id))
    done (ok customer)

  -- `addCardForUser`
  unfoldable pub add_card_fiber : Option Text → Text → Text → Fiber S CleanSource
  add_card_fiber none token email = done (err (meteor_error 403 "Must be logged in to add card"))
  add_card_fiber (some user_id) token email = do
    user ← once (logged_in_user v user_id)
    elim (customer_id user) [
      | some id ↦ do
        source ← once (perform (create_source id token) v.request_source)
        done (ok (sanitize_source v source (some false)))
      | none ↦ do
        customer ← create_user_fiber user_id token email
        elim (first_source customer) [
          | some source ↦ done (ok (sanitize_source v source (some true)))
          | none ↦ done (err (meteor_error 500 "Stripe created new user with no payment sources"))
        ]
    ]

  -- The first half of `createUserSubscription`.
  unfoldable pub customer_for_card_fiber :
      Text → Text → Text → User → Fiber S (Text × Option CleanSource)
  customer_for_card_fiber user_id token email user = elim (customer_id user) [
    | none ↦ do
      customer ← create_user_fiber user_id token email
      elim (first_source customer) [
        | none ↦ done (ok (customer.id, none))
        | some source ↦ done (ok (customer.id, some (sanitize_source v source none)))
      ]
    | some id ↦ do clean ← add_card_fiber (some user_id) token email; done (ok (id, some clean))
  ]

  -- The second half of `createUserSubscription`.
  unfoldable pub pay_plan_fiber :
      Text → Text → Text × Option CleanSource → Fiber S (Option CleanSource)
  pay_plan_fiber user_id plan made = do
    once (perform (create_subscription made.0 (stripe_plan v.out_of_beta plan)) v.request)
    once (set_user user_id (set_plan plan))
    done (ok made.1)

  -- `createUserSubscription`
  unfoldable pub buy_plan_fiber : Option Text → Text → Text → Text → Fiber S (Option CleanSource)
  buy_plan_fiber none token email plan =
      done (err (meteor_error 403 "Must be logged in to update subscription"))
  buy_plan_fiber (some user_id) token email plan = do
    user ← once (logged_in_user v user_id)
    made ← customer_for_card_fiber user_id token email user
    pay_plan_fiber user_id plan made

  -- `cancelSubscription`, where `this.userId` is undefined
  unfoldable pub cancel_fiber : Text → Fiber S Changes
  cancel_fiber id = do
    customer ← once (read (v.retrieve_customer id))
    elim (current_subscription customer) [
      | some current ↦
          if current.cancel_at_period_end
          then done (ok (ends_at (current.current_period_end * 1000)))
          else do
            info ← once (perform (cancel_subscription id current.id true) v.request_subscription)
            done (ok (ends_at (info.current_period_end * 1000)))
      | none ↦ once (set_this_user v none (set_plan free)) >> done (ok no_change)
    ]

  -- `updateUserSubscription`
  unfoldable pub update_plan_fiber : Option Text → Text → Fiber S Changes
  update_plan_fiber none plan =
      done (err (meteor_error 403 "Must be logged in to update subscription"))
  update_plan_fiber (some user_id) plan = do
    info ← once (read (v.get_plan plan none))
    if info.hidden then done (err (meteor_error 403 "Can't choose discontinued plan.")) else do
      user ← once (logged_in_user v user_id)
      elim (customer_id user) [
        | some id ↦ if text_eq plan free then cancel_fiber id else do
          customer ← once (read (v.retrieve_customer id))
          once (try_catch (subscribe v id plan customer) (report_card v))
          once (record_plan v user_id plan)
        | none ↦
            if not (text_eq plan free)
            then done (err (meteor_error 403 "User must have stripe data already"))
            else once (record_plan v user_id plan)
      ]

  -- The two invoice events of `handleWebhookEvent`.
  unfoldable pub invoice_fiber : ℕ → Bool → Invoice → Fiber S (Unit {0})
  invoice_fiber created failed invoice = do
    found ← once (gets_users (find_by_customer invoice.customer))
    elim found [
      | none ↦ done (ok tt)
      | some user ↦ if is_stale user created then done (ok tt) else do
        changes ← once (invoice_changes v created failed invoice user)
        once (set_user user.id (apply_mod changes))
    ]

  -- `customer.subscription.deleted`
  unfoldable pub deleted_fiber : Text → Fiber S (Unit {0})
  deleted_fiber id = do
    found ← once (gets_users (find_by_customer id))
    elim found [
      | none ↦ done (ok tt)
      | some user ↦ do
        customer ← once (read (v.retrieve_customer id))
        elim (current_subscription customer) [
          | none ↦ once (set_user user.id (set_plan free))
          | some _ ↦ done (ok tt)
        ]
    ]

  -- What `handleWebhookEvent` does with the event that Stripe has sent again.
  unfoldable pub event_fiber : Event → Fiber S (Unit {0})
  event_fiber event = elim event.body [
    | payment_succeeded invoice ↦ invoice_fiber event.created false invoice
    | payment_failed invoice ↦ invoice_fiber event.created true invoice
    | subscription_deleted id ↦ deleted_fiber id
    | other_event ↦ done (ok tt)
  ]

  -- `handleWebhookEvent`
  unfoldable pub webhook_fiber : Text → Fiber S (Unit {0})
  webhook_fiber event_id = do event ← once (read (v.retrieve_event event_id)); event_fiber event

  -- `updateBonuses`
  unfoldable pub update_bonuses_fiber : User → Fiber S PaymentsBonuses
  update_bonuses_fiber user = do
    metadata ← once (stripe_bonus v user)
    listed ← once (on_mailing_list v user)
    let bonuses : PaymentsBonuses = record { mailing_list = listed; metadata = metadata }
    if is_up_to_date user (plan_bonus_of bonuses) bonuses
        then done (ok bonuses)
        else (once (set_user user.id (set_bonuses (plan_bonus_of bonuses) bonuses))
            >> done (ok bonuses))

  -- What the publication sends, of the user's document as it is then.
  unfoldable pub sent_bonuses_fiber : Text → Fiber S (Option PaymentsBonuses)
  sent_bonuses_fiber user_id = do
    found ← once (gets_users (find_by_id user_id))
    done (ok (elim found [ none ↦ none | some user ↦ (payments_of user).bonuses ]))

  -- The publication "myBonuses"
  unfoldable pub my_bonuses_fiber : Option Text → Fiber S (Option PaymentsBonuses)
  my_bonuses_fiber none = done (ok none)
  my_bonuses_fiber (some user_id) = do
    found ← once (gets_users (find_by_id user_id))
    elim found [
      | none ↦ done (err type_error)
      | some user ↦ do update_bonuses_fiber user; sent_bonuses_fiber user_id
    ]

module _ {S : Type 0} (v : Services S) (m : Mailchimp S) (message : Failure → Text) where
  -- The fiber of an operation, whose result is of no further use here.
  unfoldable pub spawn : Operation → Fiber S (Unit {0})
  spawn (stripe_webhook event_id) = webhook_fiber v event_id
  spawn mailchimp_webhook = once (update_mailchimp v m)
  spawn offer_bonuses = once (bonuses_migration v m)
  spawn (add_card session token email) = add_card_fiber v session token email >> done (ok tt)
  spawn (delete_card session hashed) = once (delete_card_for_user v session hashed)
  spawn (make_primary session hashed) = once (make_card_primary v session hashed)
  spawn (stripe_data session) = once (get_stripe_data v session) >> done (ok tt)
  spawn (bonuses session) = my_bonuses_fiber v session >> done (ok tt)
  spawn (update_plan session plan) = update_plan_fiber v session plan >> done (ok tt)
  spawn (buy_plan session token email plan) =
      buy_plan_fiber v session token email plan >> done (ok tt)
  spawn (suspend user_id) = once (suspend_account v user_id)
  spawn (delete user) = once (delete_account v user)
  spawn (subscribe_list user_id) = once (subscribe_mailing_list v m user_id)
  spawn (unsubscribe_list user_id) = once (unsubscribe_mailing_list v m user_id)
  spawn (use_source session hashed) = once (validate_source v session hashed) >> done (ok tt)
  spawn (list_sources user_id) = once (query_sources v user_id) >> done (ok tt)
  spawn (pay config source invoice) =
      once (create_payment v message config source invoice) >> done (ok tt)
  spawn (capture payment) = once (commit v payment)
