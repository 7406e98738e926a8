-- ===== src/Fiber/Spawned.antt =====
-- The fiber of any operation, where nobody interrupts it, and a schedule without interruptions.
use blackrock.Charges.{create_payment, query_sources, validate_source}
use blackrock.Cards.{get_stripe_data}
use blackrock.System.{
  Operation, run, stripe_webhook, mailchimp_webhook, offer_bonuses, add_card, delete_card,
  make_primary, stripe_data, bonuses, update_plan, buy_plan, suspend, delete, subscribe_list,
  unsubscribe_list, use_source, list_sources, pay, capture,
}
use blackrock.Mailing.{Mailchimp}
use blackrock.Stripe.Objects.{current_subscription}
use blackrock.Action.{World}
use blackrock.Users.{PaymentsBonuses, find_by_id, find_by_customer, User}
use blackrock.Text.{Text}
use blackrock.Bonuses.{
  plan_bonus_of, update_bonuses, my_bonuses, stripe_bonus, on_mailing_list, is_up_to_date,
}
use blackrock.Webhook.{
  handle_webhook_event, handle_invoice_event, handle_deleted, invoice_changes, is_stale,
  handle_invoice, handle_event,
}
use blackrock.Fiber.Methods.{
  buy_plan_fiber, update_plan_fiber, add_card_fiber, spawn, webhook_fiber, update_bonuses_fiber,
  my_bonuses_fiber, invoice_fiber, deleted_fiber, event_fiber, sent_bonuses_fiber,
}
use blackrock.Stripe.{
  ok, Failure, EventBody, Result-cases, Event, Invoice, Services, err, payment_succeeded,
  payment_failed, subscription_deleted, other_event,
}
use blackrock.Prelude.{
  true, false, ℕ, ◌≡◌, refl, ap, ◌∙◌, inl, inr, Bool, Option, none, some, arith, Bool-cases,
  Option-cases,
}
use blackrock.Fiber.{Fiber, done, step, once, alone, ◌>>◌}
use blackrock.Fiber.Alone.{alone->>=}
use blackrock.Fiber.Serial.{alone-add_card, alone-buy_plan, alone-update_plan}

module _ {S : Type 0} (v : Services S) where
  alone-invoice :
      (created : ℕ) (failed : Bool) (invoice : Invoice) (w : World S)
      → alone (invoice_fiber v created failed invoice) w
        ≡ handle_invoice_event v created failed invoice w
  unfolding alone invoice_fiber handle_invoice_event handle_invoice
  alone-invoice created failed invoice w =
      elim (Option-cases (find_by_customer invoice.customer w.users)) [
        | inl nobody ↦ ground arith
        | inr (user, found) ↦ elim (Bool-cases (is_stale user created)) [
          | inl stale ↦ ground arith
          | inr fresh ↦ elim (Result-cases (invoice_changes v created failed invoice user w).0) [
            | inl (changes, fine) ↦ ground arith
            | inr (e, thrown) ↦ ground arith
          ]
        ]
      ]

  alone-deleted : (id : Text) (w : World S) → alone (deleted_fiber v id) w ≡ handle_deleted v id w
  unfolding alone deleted_fiber handle_deleted
  alone-deleted id w = elim (Option-cases (find_by_customer id w.users)) [
    | inl nobody ↦ ground arith
    | inr (user, found) ↦ elim (Result-cases (v.retrieve_customer id w.outside)) [
      | inr (e, refused) ↦ ground arith
      | inl (customer, is) ↦ elim (Option-cases (current_subscription customer)) [
        | inl ended ↦ ground arith
        | inr (current, goes_on) ↦ ground arith
      ]
    ]
  ]

  alone-event :
      (event : Event) (body : EventBody)
      → event.body ≡ body
      → (w : World S) → alone (event_fiber v event) w ≡ handle_event v event w
  unfolding alone event_fiber handle_event
  alone-event event (payment_succeeded invoice) e w =
      rw e (alone-invoice event.created false invoice w)
  alone-event event (payment_failed invoice) e w = rw e (alone-invoice event.created true invoice w)
  alone-event event (subscription_deleted id) e w = rw e (alone-deleted id w)
  alone-event event other_event e w = rw e refl

  alone-webhook :
      (event_id : Text) (w : World S)
      → alone (webhook_fiber v event_id) w ≡ handle_webhook_event v event_id w
  unfolding alone webhook_fiber handle_webhook_event handle_event
  alone-webhook event_id w = elim (Result-cases (v.retrieve_event event_id w.outside)) [
    | inr (e, refused) ↦ ground arith
    | inl (event, is) ↦ ground (arith, is, alone-event event event.body refl w)
  ]

  alone-update_bonuses :
      (user : User) (w : World S) → alone (update_bonuses_fiber v user) w ≡ update_bonuses v user w
  unfolding alone update_bonuses_fiber update_bonuses
  alone-update_bonuses user w = elim (Result-cases (stripe_bonus v user w).0) [
    | inr (e, refused) ↦ ground arith
    | inl (bonus, is) ↦ elim (Result-cases (on_mailing_list v user (stripe_bonus v user w).1).0) [
      | inr (e, thrown) ↦ ground arith
      | inl (listed, known) ↦
          let bonuses : PaymentsBonuses = record { mailing_list = listed; metadata = bonus } in
          elim (Bool-cases (is_up_to_date user (plan_bonus_of bonuses) bonuses)) [
            | inl same ↦ ground arith
            | inr new ↦ ground arith
          ]
    ]
  ]

  alone-my_bonuses :
      (session : Option Text) (w : World S)
      → alone (my_bonuses_fiber v session) w ≡ my_bonuses v session w
  unfolding alone my_bonuses_fiber sent_bonuses_fiber my_bonuses
  alone-my_bonuses none w = refl
  alone-my_bonuses (some user_id) w = elim (Option-cases (find_by_id user_id w.users)) [
    | inl nobody ↦ ground arith
    | inr (user, found) ↦ ground (
      arith,
      found,
      alone->>= {B = Option PaymentsBonuses} (update_bonuses_fiber v user)
          (λ _. sent_bonuses_fiber v user_id) w,
      alone-update_bonuses user w,
    )
  ]

alone-ignored :
    {S A : Type 0} (f : Fiber S A) (w : World S) → (alone (f >> done (ok tt)) w).1 ≡ (alone f w).1
unfolding alone
alone-ignored (done (ok a)) w = refl
alone-ignored (done (err e)) w = refl
alone-ignored (step act next) w = alone-ignored (next w) (act w)

module _ {S : Type 0} (v : Services S) (m : Mailchimp S) (message : Failure → Text) where
  -- The fiber of any operation, where no other runs before it is done, leaves the world as the operation
  -- does.
  pub alone-spawn :
      (o : Operation) (w : World S) → (alone (spawn v m message o) w).1 ≡ run v m message o w
  unfolding spawn run alone
  alone-spawn (stripe_webhook event_id) w = ap (λ r. r.1) (alone-webhook v event_id w)
  alone-spawn mailchimp_webhook w = refl
  alone-spawn offer_bonuses w = refl
  alone-spawn (add_card session token email) w =
      alone-ignored (add_card_fiber v session token email) w
      ∙ ap (λ r. r.1) (alone-add_card v session token email w)
  alone-spawn (delete_card session hashed) w = refl
  alone-spawn (make_primary session hashed) w = refl
  alone-spawn (stripe_data session) w = alone-ignored (once (get_stripe_data v session)) w
  alone-spawn (bonuses session) w =
      alone-ignored (my_bonuses_fiber v session) w ∙ ap (λ r. r.1) (alone-my_bonuses v session w)
  alone-spawn (update_plan session plan) w =
      alone-ignored (update_plan_fiber v session plan) w
      ∙ ap (λ r. r.1) (alone-update_plan v session plan w)
  alone-spawn (buy_plan session token email plan) w =
      alone-ignored (buy_plan_fiber v session token email plan) w
      ∙ ap (λ r. r.1) (alone-buy_plan v session token email plan w)
  alone-spawn (suspend user_id) w = refl
  alone-spawn (delete user) w = refl
  alone-spawn (subscribe_list user_id) w = refl
  alone-spawn (unsubscribe_list user_id) w = refl
  alone-spawn (use_source session hashed) w =
      alone-ignored (once (validate_source v session hashed)) w
  alone-spawn (list_sources user_id) w = alone-ignored (once (query_sources v user_id)) w
  alone-spawn (pay config source invoice) w =
      alone-ignored (once (create_payment v message config source invoice)) w
  alone-spawn (capture payment) w = refl
