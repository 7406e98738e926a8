-- ===== src/System/Refines.antt =====
-- Every operation of the server is at most one step of one account.
use blackrock.Prelude.{◌≡◌, ap, ◌∙◌, ◌⊎◌, inl, inr, none, some, arith, Option-cases}
use blackrock.Text.{Text}
use blackrock.Users.Laws.{HasDistinctIds}
use blackrock.Stripe.{Failure, Result-cases, Services}
use blackrock.Action.{World}
use blackrock.Webhook.{handle_webhook_event}
use blackrock.Webhook.Writes.{customer_of, webhook_other, webhook_writes}
use blackrock.Cards.Keeps.{
  delete_card-KeepsUsers, make_primary-KeepsUsers, get_stripe_data-KeepsUsers,
}
use blackrock.Cards.Joins.{add_card_for_user_nobody, add_card_for_user_joins}
use blackrock.Subscriptions.{create_user_subscription}
use blackrock.Subscriptions.Keeps.{
  suspend-KeepsUsers, delete_account-KeepsUsers, update_user_subscription_keeps,
}
use blackrock.Subscriptions.Joins.{create_user_subscription_nobody, create_user_subscription_joins}
use blackrock.Charges.Keeps.{
  validate_source-KeepsUsers, query_sources-KeepsUsers, create_payment-KeepsUsers,
  commit-KeepsUsers,
}
use blackrock.Bonuses.Keeps.{my_bonuses-Keeps}
use blackrock.Mailing.{Mailchimp}
use blackrock.Mailing.Keeps.{
  update_mailchimp-Keeps, subscribe_mailing_list-Keeps, unsubscribe_mailing_list-Keeps,
}
use blackrock.Offer.Keeps.{bonuses_migration-Keeps}
use blackrock.System.{
  Operation, stripe_webhook, mailchimp_webhook, offer_bonuses, add_card, delete_card, make_primary,
  stripe_data, bonuses, update_plan, buy_plan, suspend, delete, subscribe_list, unsubscribe_list,
  use_source, list_sources, pay, capture, run, accounts_of, Step,
}
use blackrock.System.Accounts.{Stays}
use blackrock.System.Entries.{
  accounts_of-set_plan, accounts_of-set_bonuses, Stays-join, Stays-write,
}

module _ {S : Type 0} (v : Services S) where
  webhook-Stays :
      (event_id : Text) (w : World S)
      → HasDistinctIds w.users
      → Stays (accounts_of w.users) (accounts_of (handle_webhook_event v event_id w).1.users)
  unfolding handle_webhook_event
  webhook-Stays event_id w distinct = elim (Result-cases (v.retrieve_event event_id w.outside)) [
    | inr (e, unknown) ↦ inl (ground arith)
    | inl (event, fetched) ↦ elim (Option-cases (customer_of event.body)) [
      | inl other ↦ inl (ap accounts_of (webhook_other v event_id event w fetched other))
      | inr (customer, about) ↦
          Stays-write distinct (webhook_writes v event_id event customer w fetched about)
    ]
  ]

  purchase-Stays :
      (user_id token email plan : Text) (w : World S)
      → Stays
          (accounts_of w.users)
          (accounts_of (create_user_subscription v (some user_id) token email plan w).1.users)
  purchase-Stays user_id token email plan w =
      let (users, joined, then_plan) =
        create_user_subscription_joins v user_id token email plan w in
      let same : accounts_of (create_user_subscription v (some user_id) token email plan w).1.users
          ≡ accounts_of users =
        elim then_plan [
          | inl e ↦ ap accounts_of e
          | inr e ↦ ap accounts_of e ∙ accounts_of-set_plan user_id plan users
        ] in
      rw same (Stays-join joined)

module _ {S : Type 0} (v : Services S) (m : Mailchimp S) (message : Failure → Text) where
  -- Any operation, on users with distinct ids: either no account changes, or one account takes one
  -- step, by becoming a Stripe customer, which it was not, or by an invoice that is not older than the
  -- last one. Plans, bonuses, cards and the mailing list do not show, and no account comes or goes.
  pub run_refines :
      (o : Operation) (w : World S)
      → HasDistinctIds w.users
      → (accounts_of (run v m message o w).users ≡ accounts_of w.users)
        ⊎ Step (accounts_of w.users) (accounts_of (run v m message o w).users)
  unfolding run
  run_refines (stripe_webhook event_id) w distinct = webhook-Stays v event_id w distinct
  run_refines mailchimp_webhook w _ =
      inl (update_mailchimp-Keeps v m accounts_of accounts_of-set_bonuses w)
  run_refines offer_bonuses w _ =
      inl (bonuses_migration-Keeps v m accounts_of accounts_of-set_bonuses w)
  run_refines (add_card none token email) w _ =
      inl (ap accounts_of (add_card_for_user_nobody v token email w))
  run_refines (add_card (some user_id) token email) w _ =
      Stays-join (add_card_for_user_joins v user_id token email w)
  run_refines (delete_card session hashed) w _ =
      inl (ap accounts_of (delete_card-KeepsUsers v session hashed w))
  run_refines (make_primary session hashed) w _ =
      inl (ap accounts_of (make_primary-KeepsUsers v session hashed w))
  run_refines (stripe_data session) w _ =
      inl (ap accounts_of (get_stripe_data-KeepsUsers v session w))
  run_refines (bonuses session) w _ =
      inl (my_bonuses-Keeps v accounts_of accounts_of-set_bonuses session w)
  run_refines (update_plan session plan) w _ =
      inl (update_user_subscription_keeps v accounts_of accounts_of-set_plan session plan w)
  run_refines (buy_plan none token email plan) w _ =
      inl (ap accounts_of (create_user_subscription_nobody v token email plan w))
  run_refines (buy_plan (some user_id) token email plan) w _ =
      purchase-Stays v user_id token email plan w
  run_refines (suspend user_id) w _ = inl (ap accounts_of (suspend-KeepsUsers v user_id w))
  run_refines (delete user) w _ = inl (ap accounts_of (delete_account-KeepsUsers v user w))
  run_refines (subscribe_list user_id) w _ =
      inl (subscribe_mailing_list-Keeps v m accounts_of accounts_of-set_bonuses user_id w)
  run_refines (unsubscribe_list user_id) w _ =
      inl (unsubscribe_mailing_list-Keeps v m accounts_of accounts_of-set_bonuses user_id w)
  run_refines (use_source session hashed) w _ =
      inl (ap accounts_of (validate_source-KeepsUsers v session hashed w))
  run_refines (list_sources user_id) w _ =
      inl (ap accounts_of (query_sources-KeepsUsers v user_id w))
  run_refines (pay config source invoice) w _ =
      inl (ap accounts_of (create_payment-KeepsUsers v message config source invoice w))
  run_refines (capture payment) w _ = inl (ap accounts_of (commit-KeepsUsers v payment w))
