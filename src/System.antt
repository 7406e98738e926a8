-- ===== src/System.antt =====
-- The server as a whole: the entry points that a browser, an app, Stripe, Mailchimp or Sandstorm can
-- call, as one function from world to world, and the account of a user, with the steps that
-- the operations take on it. An operation that throws still has its effect up to there. Not among
-- them is the migration of payments, which is run once, before users have Stripe customers here.
pub mod Accounts
pub mod Entries
pub mod Refines
pub mod Distinct
pub mod Kept
mod Tests
use blackrock.Prelude.{ℕ, ◌≤◌, ◌≡◌, Option, none, List, [], ◌∷◌, map}
use blackrock.Text.{Text}
use blackrock.Users.{User, customer_id}
use blackrock.Stripe.{Failure, Result, Services}
use blackrock.Action.{World}
use blackrock.Letter.{Config, Item}
use blackrock.Webhook.{handle_webhook_event}
use blackrock.Webhook.Writes.{last_time}
use blackrock.Cards.{add_card_for_user, delete_card_for_user, make_card_primary, get_stripe_data}
use blackrock.Subscriptions.{
  update_user_subscription, create_user_subscription, suspend_account, delete_account,
}
use blackrock.Charges.{SourceRef, Payment, validate_source, query_sources, create_payment, commit}
use blackrock.Bonuses.{my_bonuses}
use blackrock.Mailing.{
  Mailchimp, update_mailchimp, subscribe_mailing_list, unsubscribe_mailing_list,
}
use blackrock.Offer.{bonuses_migration}

-- A call of the server, with its arguments; a session is the `userId`, `none` for nobody.
pub data Operation : Type 0 where
  stripe_webhook : Text → Operation
  mailchimp_webhook offer_bonuses : Operation
  add_card : Option Text → Text → Text → Operation
  delete_card make_primary : Option Text → Text → Operation
  stripe_data bonuses : Option Text → Operation
  update_plan : Option Text → Text → Operation
  buy_plan : Option Text → Text → Text → Text → Operation
  suspend : Text → Operation
  delete : User → Operation
  subscribe_list unsubscribe_list : Text → Operation
  use_source : Option Text → Text → Operation
  list_sources : Text → Operation
  pay : Config → Result SourceRef → Option (List Item) → Operation
  capture : Payment → Operation

-- The world after an operation. `message` is the text of a failure, as `createPayment` returns it.
module _ {S : Type 0} (v : Services S) (m : Mailchimp S) (message : Failure → Text) where
  unfoldable pub run : Operation → World S → World S
  run (stripe_webhook event_id) w = (handle_webhook_event v event_id w).1
  run mailchimp_webhook w = (update_mailchimp v m w).1
  run offer_bonuses w = (bonuses_migration v m w).1
  run (add_card session token email) w = (add_card_for_user v session token email w).1
  run (delete_card session hashed) w = (delete_card_for_user v session hashed w).1
  run (make_primary session hashed) w = (make_card_primary v session hashed w).1
  run (stripe_data session) w = (get_stripe_data v session w).1
  run (bonuses session) w = (my_bonuses v session w).1
  run (update_plan session plan) w = (update_user_subscription v session plan w).1
  run (buy_plan session token email plan) w =
      (create_user_subscription v session token email plan w).1
  run (suspend user_id) w = (suspend_account v user_id w).1
  run (delete user) w = (delete_account v user w).1
  run (subscribe_list user_id) w = (subscribe_mailing_list v m user_id w).1
  run (unsubscribe_list user_id) w = (unsubscribe_mailing_list v m user_id w).1
  run (use_source session hashed) w = (validate_source v session hashed w).1
  run (list_sources user_id) w = (query_sources v user_id w).1
  run (pay config source invoice) w = (create_payment v message config source invoice w).1
  run (capture payment) w = (commit v payment w).1

  -- Any sequence of operations, in any order.
  unfoldable pub run_all : List Operation → World S → World S
  run_all [] w = w
  run_all (o ∷ operations) w = run_all operations (run o w)

-- What the steps of an account are about: whose Stripe customer it is, and up to which time its
-- invoices are handled.
pub record Account : Type 0 where
  pub id : Text
  pub customer : Option Text
  pub time : ℕ

abbrev pub account_of : User → Account
account_of user = record { id = user.id; customer = customer_id user; time = last_time user }

abbrev pub accounts_of : List User → List Account
accounts_of users = map account_of users

-- One change of one account: it becomes a Stripe customer, which it is not yet, or an invoice is
-- handled, and not an older one.
pub data AccountStep (a b : Account) : Type 0 where
  join : a.customer ≡ none → b.id ≡ a.id → b.time ≡ 0 → AccountStep a b
  advance : a.time ≤ b.time → b.id ≡ a.id → b.customer ≡ a.customer → AccountStep a b

-- A step of one of the accounts; none comes or goes.
pub data Step : List Account → List Account → Type 0 where
  first : {a b : Account} {rest : List Account} → AccountStep a b → Step (a ∷ rest) (b ∷ rest)
  next : {a : Account} {rest rest' : List Account} → Step rest rest' → Step (a ∷ rest) (a ∷ rest')
