-- ===== src/Subscriptions.antt =====
-- Subscriptions in shell/packages/blackrock-payments/payments-server.js: `cancelSubscription`, the
-- methods `updateUserSubscription` and `createUserSubscription`, and the account hooks
-- `suspendAccount` and `deleteAccount`.
pub mod Cancel
pub mod Update
pub mod Create
pub mod Keeps
pub mod Joins
pub mod Answers
mod Tests
use blackrock.Prelude.{
  ℕ, ◌*◌, Bool, true, false, not, Option, none, some, List, [], ◌∷◌, ◌++◌, if◌then◌else◌,
}
use blackrock.Text.{Text, codes, text_eq}
use blackrock.Users.{User, customer_id, find_by_id, set_plan, free}
use blackrock.Stripe.{
  Failure, meteor_error, card_error, stripe_error, type_error, Result, ok, err, Customer,
  Subscription, Plan, Request, create_subscription, update_subscription, cancel_subscription,
  delete_customer, Services,
}
use blackrock.Stripe.Objects.{current_subscription, is_card_error}
use blackrock.Plans.{stripe_plan}
use blackrock.Action.{
  World, Action, pure, throw, read, gets_users, perform, try_catch, ◌>>=◌, ◌>>◌, set_user, throw_if,
}
use blackrock.Cards.{
  CleanSource, first_source, sanitize_source, logged_in_user, create_user, add_card_for_user,
}

-- The modifications that a method returns to the browser's copy of the customer's data:
-- `{}`, `{subscriptionEnds: new Date(…)}`, and `{subscription: plan, subscriptionEnds: null}`.
pub data Changes : Type 0 where
  no_change : Changes
  -- in milliseconds
  ends_at : ℕ → Changes
  subscribed_to : Text → Changes

-- `err.raw.message` of a card error
abbrev pub card_message : Failure → Text
card_message (stripe_error (some (kind, message)) text) = message
card_message _ = []

module _ {S : Type 0} (v : Services S) where
  -- `Meteor.users.update({_id: this.userId}, {$set: …})`, where an undefined `_id` fits no document.
  unfoldable pub set_this_user : Option Text → (User → User) → Action S (Unit {0})
  set_this_user none change = pure tt
  set_this_user (some id) change = set_user id change

  -- The first argument is `this.userId`, the second the parameter `userId`, which the body ignores.
  unfoldable pub cancel_subscription_of : Option Text → Text → Text → Action S Changes
  unfolding set_this_user
  cancel_subscription_of this_user user_id customer_id = do
    customer ← read (v.retrieve_customer customer_id)
    elim (current_subscription customer) [
      | some current ↦
          if current.cancel_at_period_end
          then pure (ends_at (current.current_period_end * 1000))
          else do
            info ← perform (cancel_subscription customer_id current.id true) v.request_subscription
            pure (ends_at (info.current_period_end * 1000))
      | none ↦ set_this_user this_user (set_plan free) >> pure no_change
    ]

  -- The `try` block of `updateUserSubscription`, on the customer that was retrieved before it.
  unfoldable pub subscribe : Text → Text → Customer → Action S (Unit {0})
  subscribe customer_id plan customer = elim (current_subscription customer) [
    | some current ↦
        perform (update_subscription customer_id current.id (stripe_plan v.out_of_beta plan))
          v.request
    | none ↦ perform (create_subscription customer_id (stripe_plan v.out_of_beta plan)) v.request
  ]

  -- Its `catch`: a declined card is reported by Stripe's message.
  pub report_card : Failure → Action S (Unit {0})
  report_card e = if is_card_error e then throw (card_error (card_message e)) else throw e

  -- The end of `updateUserSubscription`.
  unfoldable pub record_plan : Text → Text → Action S Changes
  record_plan user_id plan = do set_user user_id (set_plan plan); pure (subscribed_to plan)

  -- `cancelSubscription` is called as a plain function, so its `this.userId` is undefined.
  unfoldable pub update_user_subscription : Option Text → Text → Action S Changes
  unfolding logged_in_user cancel_subscription_of subscribe report_card record_plan
  update_user_subscription none plan =
      throw (meteor_error 403 "Must be logged in to update subscription")
  update_user_subscription (some user_id) plan = do
    info ← read (v.get_plan plan none)
    throw_if info.hidden (meteor_error 403 "Can't choose discontinued plan.")
    user ← logged_in_user v user_id
    elim (customer_id user) [
      | some id ↦ if text_eq plan free then cancel_subscription_of none user_id id else do
        customer ← read (v.retrieve_customer id)
        try_catch (subscribe id plan customer) report_card
        record_plan user_id plan
      | none ↦ do
        throw_if (not (text_eq plan free)) (meteor_error 403 "User must have stripe data already")
        record_plan user_id plan
    ]

  unfoldable pub customer_for_card :
      Text → Text → Text → User → Action S (Text × Option CleanSource)
  unfolding create_user sanitize_source add_card_for_user
  customer_for_card user_id token email user = elim (customer_id user) [
    | none ↦ do
      customer ← create_user v user_id token email
      elim (first_source customer) [
        | none ↦ pure (customer.id, none)
        | some source ↦ pure (customer.id, some (sanitize_source v source none))
      ]
    | some id ↦ do clean ← add_card_for_user v (some user_id) token email; pure (id, some clean)
  ]

  unfoldable pub create_user_subscription :
      Option Text → Text → Text → Text → Action S (Option CleanSource)
  unfolding logged_in_user customer_for_card
  create_user_subscription none token email plan =
      throw (meteor_error 403 "Must be logged in to update subscription")
  create_user_subscription (some user_id) token email plan = do
    user ← logged_in_user v user_id
    made ← customer_for_card user_id token email user
    perform (create_subscription made.0 (stripe_plan v.out_of_beta plan)) v.request
    set_user user_id (set_plan plan)
    pure made.1

  pub suspend_account : Text → Action S (Unit {0})
  unfolding logged_in_user cancel_subscription_of
  suspend_account user_id = do
    user ← logged_in_user v user_id
    elim (customer_id user) [
      | none ↦ pure tt
      | some id ↦ cancel_subscription_of none user_id id >> pure tt
    ]

  pub delete_account : User → Action S (Unit {0})
  delete_account user = elim (customer_id user) [
    | none ↦ pure tt
    | some id ↦ perform (delete_customer id) v.request
  ]
