-- ===== src/Fiber/OwnedAll.antt =====
-- The turns of the fibers of any operations, in any order.
use blackrock.Charges.Keeps.{
  commit-KeepsUsers, create_payment-KeepsUsers, query_sources-KeepsUsers,
  validate_source-KeepsUsers,
}
use blackrock.Charges.{query_sources, validate_source, create_payment, commit}
use blackrock.Subscriptions.Keeps.{delete_account-KeepsUsers, suspend-KeepsUsers}
use blackrock.Subscriptions.{delete_account, suspend_account}
use blackrock.Cards.Keeps.{
  get_stripe_data-KeepsUsers, make_primary-KeepsUsers, delete_card-KeepsUsers,
}
use blackrock.Cards.{get_stripe_data, make_card_primary, delete_card_for_user}
use blackrock.Offer.Keeps.{bonuses_migration-Keeps}
use blackrock.Offer.{bonuses_migration}
use blackrock.System.Entries.{accounts_of-set_bonuses}
use blackrock.Mailing.Keeps.{
  unsubscribe_mailing_list-Keeps, subscribe_mailing_list-Keeps, update_mailchimp-Keeps,
}
use blackrock.Mailing.{
  unsubscribe_mailing_list, subscribe_mailing_list, update_mailchimp, Mailchimp,
}
use blackrock.Prelude.{ℕ, true, ◌≡◌, ap, List, [], ◌∷◌, some, map, All}
use blackrock.Text.{Text, is_truthy}
use blackrock.System.{
  Account, accounts_of, Operation, stripe_webhook, mailchimp_webhook, offer_bonuses, add_card,
  delete_card, make_primary, stripe_data, bonuses, update_plan, buy_plan, suspend, delete,
  subscribe_list, unsubscribe_list, use_source, list_sources, pay, capture,
}
use blackrock.Stripe.{ok, Failure, Customer, create_customer, Services}
use blackrock.Action.{World}
use blackrock.Fiber.{once, Fiber, done, interleave, ◌>>◌}
use blackrock.Fiber.Methods.{
  spawn, add_card_fiber, my_bonuses_fiber, update_plan_fiber, buy_plan_fiber,
}
use blackrock.Fiber.Safe.{interleave-Ensures}
use blackrock.Fiber.Fits.{Fits, Fits-refl}
use blackrock.Fiber.Owned.{FitsBefore, IsSafe, keeps_IsSafe, part-IsSafe, done-IsSafe}
use blackrock.Fiber.OwnedMethods.{add_card-IsSafe, buy_plan-IsSafe, update_plan-IsSafe}
use blackrock.Fiber.OwnedEvents.{webhook-IsSafe, my_bonuses-IsSafe}

module _ {S : Type 0} (v : Services S) (m : Mailchimp S) (message : Failure → Text)
    (Owns : Text → Text → Type 0)
    (names : (token email user_id : Text) (s : S) (c : Customer)
      → (v.request_customer (create_customer token email (some user_id)) s).0 ≡ ok c
      → (is_truthy c.id ≡ true) × Owns user_id c.id) where
  ignored-IsSafe :
      {A : Type 0} (before : List Account) (f : Fiber S A)
      → IsSafe Owns before f
      → IsSafe Owns before (f >> done (ok tt))
  ignored-IsSafe before f safe =
      part-IsSafe Owns before f _ safe λ _. done-IsSafe S Owns before (ok tt)

  spawn-IsSafe : (before : List Account) (o : Operation) → IsSafe Owns before (spawn v m message o)
  unfolding spawn
  spawn-IsSafe before (stripe_webhook event_id) = webhook-IsSafe v Owns before event_id
  spawn-IsSafe before mailchimp_webhook =
      keeps_IsSafe Owns before (update_mailchimp v m)
        (update_mailchimp-Keeps v m accounts_of accounts_of-set_bonuses)
  spawn-IsSafe before offer_bonuses =
      keeps_IsSafe Owns before (bonuses_migration v m)
        (bonuses_migration-Keeps v m accounts_of accounts_of-set_bonuses)
  spawn-IsSafe before (add_card session token email) =
      ignored-IsSafe before (add_card_fiber v session token email)
        (add_card-IsSafe v Owns names before session token email)
  spawn-IsSafe before (delete_card session hashed) =
      keeps_IsSafe Owns before (delete_card_for_user v session hashed)
        λ w. ap accounts_of (delete_card-KeepsUsers v session hashed w)
  spawn-IsSafe before (make_primary session hashed) =
      keeps_IsSafe Owns before (make_card_primary v session hashed)
        λ w. ap accounts_of (make_primary-KeepsUsers v session hashed w)
  spawn-IsSafe before (stripe_data session) =
      ignored-IsSafe before (once (get_stripe_data v session)) (
        keeps_IsSafe Owns before (get_stripe_data v session)
          λ w. ap accounts_of (get_stripe_data-KeepsUsers v session w))
  spawn-IsSafe before (bonuses session) =
      ignored-IsSafe before (my_bonuses_fiber v session) (my_bonuses-IsSafe v Owns before session)
  spawn-IsSafe before (update_plan session plan) =
      ignored-IsSafe before (update_plan_fiber v session plan)
        (update_plan-IsSafe v Owns names before session plan)
  spawn-IsSafe before (buy_plan session token email plan) =
      ignored-IsSafe before (buy_plan_fiber v session token email plan)
        (buy_plan-IsSafe v Owns names before session token email plan)
  spawn-IsSafe before (suspend user_id) =
      keeps_IsSafe Owns before (suspend_account v user_id)
        λ w. ap accounts_of (suspend-KeepsUsers v user_id w)
  spawn-IsSafe before (delete user) =
      keeps_IsSafe Owns before (delete_account v user)
        λ w. ap accounts_of (delete_account-KeepsUsers v user w)
  spawn-IsSafe before (subscribe_list user_id) =
      keeps_IsSafe Owns before (subscribe_mailing_list v m user_id)
        (subscribe_mailing_list-Keeps v m accounts_of accounts_of-set_bonuses user_id)
  spawn-IsSafe before (unsubscribe_list user_id) =
      keeps_IsSafe Owns before (unsubscribe_mailing_list v m user_id)
        (unsubscribe_mailing_list-Keeps v m accounts_of accounts_of-set_bonuses user_id)
  spawn-IsSafe before (use_source session hashed) =
      ignored-IsSafe before (once (validate_source v session hashed)) (
        keeps_IsSafe Owns before (validate_source v session hashed)
          λ w. ap accounts_of (validate_source-KeepsUsers v session hashed w))
  spawn-IsSafe before (list_sources user_id) =
      ignored-IsSafe before (once (query_sources v user_id)) (
        keeps_IsSafe Owns before (query_sources v user_id)
          λ w. ap accounts_of (query_sources-KeepsUsers v user_id w))
  spawn-IsSafe before (pay config source invoice) =
      ignored-IsSafe before (once (create_payment v message config source invoice)) (
        keeps_IsSafe Owns before (create_payment v message config source invoice)
          λ w. ap accounts_of (create_payment-KeepsUsers v message config source invoice w))
  spawn-IsSafe before (capture payment) =
      keeps_IsSafe Owns before (commit v payment)
        λ w. ap accounts_of (commit-KeepsUsers v payment w)

  spawned-IsSafe :
      (before : List Account) (operations : List Operation)
      → All (IsSafe Owns before) (map (spawn v m message) operations)
  spawned-IsSafe before [] = tt
  spawned-IsSafe before (o ∷ operations) = (spawn-IsSafe before o, spawned-IsSafe before operations)

  -- The fibers of any operations, with turns in any order and as many as there are: no account comes or
  -- goes or changes its id, and each still has the Stripe customer that it had, or has one that Stripe
  -- made on a request for that very user. `Owns` says who a customer is made for; the one thing used of
  -- Stripe is that its answer to such a request has an id that is not empty and that belongs to the user
  -- in the request.
  pub interleave_owned :
      (operations : List Operation) (schedule : List ℕ) (w : World S)
      → Fits Owns
          (accounts_of w.users)
          (accounts_of (interleave schedule (map (spawn v m message) operations) w).1.users)
  interleave_owned operations schedule w =
      interleave-Ensures (FitsBefore Owns (accounts_of w.users)) schedule
        (map (spawn v m message) operations) w (spawned-IsSafe (accounts_of w.users) operations)
        (Fits-refl Owns (accounts_of w.users))
