-- ===== src/Fiber/OwnedMethods.antt =====
-- The turns of the methods on cards and plans, one by one.
use blackrock.Subscriptions.Keeps.{subscribe_or_report-KeepsUsers}
use blackrock.Plans.{stripe_plan}
use blackrock.Stripe.Objects.{current_subscription}
use blackrock.System.Entries.{accounts_of-set_plan}
use blackrock.Prelude.{not, true, ◌≡◌, refl, ap, Option, List, some, none, arith}
use blackrock.Text.{text_eq, Text, is_truthy}
use blackrock.Users.{set_plan, free, User, customer_id}
use blackrock.System.{Account, accounts_of}
use blackrock.Stripe.{
  cancel_subscription, create_subscription, err, Result, create_source, ok, Customer,
  create_customer, Services,
}
use blackrock.Action.{try_catch, read, perform, World, set_user}
use blackrock.Cards.{first_source, logged_in_user}
use blackrock.Subscriptions.{set_this_user, no_change, report_card, subscribe, record_plan}
use blackrock.Fiber.{once}
use blackrock.Fiber.Methods.{
  create_user_fiber, add_card_fiber, customer_for_card_fiber, pay_plan_fiber, buy_plan_fiber,
  cancel_fiber, update_plan_fiber,
}
use blackrock.Fiber.Owned.{
  done-IsSafe, IsSafe, keeps_IsSafe, first-IsSafe, part-IsSafe, customer-IsSafe, option-IsSafe,
  bool-IsSafe, FitsBefore,
}
use blackrock.Fiber.Safe.{Ensures, >>=-Ensures, Returned}

module _ {S : Type 0} (v : Services S) (Owns : Text → Text → Type 0)
    (names : (token email user_id : Text) (s : S) (c : Customer)
      → (v.request_customer (create_customer token email (some user_id)) s).0 ≡ ok c
      → (is_truthy c.id ≡ true) × Owns user_id c.id)
    (before : List Account) where
  logged_in_user-accounts_of :
      (user_id : Text) (w : World S)
      → accounts_of (logged_in_user v user_id w).1.users ≡ accounts_of w.users
  unfolding logged_in_user
  logged_in_user-accounts_of user_id w = ground arith

  -- The one method that makes a customer: it belongs to the user whom it is made for.
  create_user-IsSafe :
      (user_id token email : Text) → IsSafe Owns before (create_user_fiber v user_id token email)
  unfolding create_user_fiber Ensures
  create_user-IsSafe user_id token email =
      >>=-Ensures (FitsBefore Owns before)
        (λ (c : Customer). (is_truthy c.id ≡ true) × Owns user_id c.id) (λ _. Unit)
        (once (perform (create_customer token email (some user_id)) v.request_customer)) _
        (λ w p. (p, made _ (names token email user_id w.outside)))
        λ c (named, owns) w p. (customer-IsSafe S Owns before user_id c.id named owns w p)
    where
      made :
          {Q : Customer → Type 0} (r : Result Customer)
          → ((c : Customer) → r ≡ ok c → Q c)
          → Returned Q r
      made (ok c) q = q c refl
      made (err e) q = tt

  pub add_card-IsSafe :
      (session : Option Text) (token email : Text)
      → IsSafe Owns before (add_card_fiber v session token email)
  unfolding add_card_fiber
  add_card-IsSafe none token email = done-IsSafe S Owns before _
  add_card-IsSafe (some user_id) token email =
      first-IsSafe Owns before (logged_in_user v user_id) _ (logged_in_user-accounts_of user_id)
        λ user.
          option-IsSafe Owns before (customer_id user) _ _
            (part-IsSafe Owns before (create_user_fiber v user_id token email) _
              (create_user-IsSafe user_id token email)
              λ customer.
                option-IsSafe Owns before (first_source customer) _ _ (done-IsSafe S Owns before _)
                  λ source. (done-IsSafe S Owns before _))
            λ id.
              first-IsSafe Owns before (perform (create_source id token) v.request_source) _
                (λ w. refl) λ source. (done-IsSafe S Owns before _)

  pub buy_plan-IsSafe :
      (session : Option Text) (token email plan : Text)
      → IsSafe Owns before (buy_plan_fiber v session token email plan)
  unfolding buy_plan_fiber customer_for_card_fiber pay_plan_fiber
  buy_plan-IsSafe none token email plan = done-IsSafe S Owns before _
  buy_plan-IsSafe (some user_id) token email plan =
      first-IsSafe Owns before (logged_in_user v user_id) _ (logged_in_user-accounts_of user_id)
        λ user.
          part-IsSafe Owns before (customer_for_card_fiber v user_id token email user) _
            (made-IsSafe user)
            λ made.
              first-IsSafe Owns before
                (perform (create_subscription made.0 (stripe_plan v.out_of_beta plan)) v.request) _
                (λ w. refl)
                λ _.
                  first-IsSafe Owns before (set_user user_id (set_plan plan)) _
                    (λ w. accounts_of-set_plan user_id plan w.users)
                    λ _. done-IsSafe S Owns before (ok made.1)
    where
      made-IsSafe :
          (user : User) → IsSafe Owns before (customer_for_card_fiber v user_id token email user)
      made-IsSafe user =
          option-IsSafe Owns before (customer_id user) _ _
            (part-IsSafe Owns before (create_user_fiber v user_id token email) _
              (create_user-IsSafe user_id token email)
              λ customer.
                option-IsSafe Owns before (first_source customer) _ _ (done-IsSafe S Owns before _)
                  λ source. (done-IsSafe S Owns before _))
            λ id.
              part-IsSafe Owns before (add_card_fiber v (some user_id) token email) _
                (add_card-IsSafe (some user_id) token email) λ clean. (done-IsSafe S Owns before _)

  plan-IsSafe : (user_id plan : Text) → IsSafe Owns before (once (record_plan v user_id plan))
  unfolding record_plan
  plan-IsSafe user_id plan =
      keeps_IsSafe Owns before (record_plan v user_id plan)
        λ w. accounts_of-set_plan user_id plan w.users

  cancel-IsSafe : (id : Text) → IsSafe Owns before (cancel_fiber v id)
  unfolding cancel_fiber set_this_user
  cancel-IsSafe id =
      first-IsSafe Owns before (read (v.retrieve_customer id)) _ (λ w. refl)
        λ customer.
          option-IsSafe Owns before (current_subscription customer) _ _
            (first-IsSafe Owns before (set_this_user v none (set_plan free)) _ (λ w. refl)
              λ _. done-IsSafe S Owns before (ok no_change))
            λ current.
              bool-IsSafe Owns before current.cancel_at_period_end _ _ (done-IsSafe S Owns before _)
                (first-IsSafe Owns before
                  (perform (cancel_subscription id current.id true) v.request_subscription) _
                  (λ w. refl) λ info. (done-IsSafe S Owns before _))

  pub update_plan-IsSafe :
      (session : Option Text) (plan : Text) → IsSafe Owns before (update_plan_fiber v session plan)
  unfolding update_plan_fiber
  update_plan-IsSafe none plan = done-IsSafe S Owns before _
  update_plan-IsSafe (some user_id) plan =
      first-IsSafe Owns before (read (v.get_plan plan none)) _ (λ w. refl)
        λ info. bool-IsSafe Owns before info.hidden _ _ (done-IsSafe S Owns before _) (
          first-IsSafe Owns before (logged_in_user v user_id) _ (logged_in_user-accounts_of user_id)
            λ user.
              option-IsSafe Owns before (customer_id user) _ _
                (bool-IsSafe Owns before (not (text_eq plan free)) _ _ (done-IsSafe S Owns before _)
                  (plan-IsSafe user_id plan))
                λ id. bool-IsSafe Owns before (text_eq plan free) _ _ (cancel-IsSafe id) (
                  first-IsSafe Owns before (read (v.retrieve_customer id)) _ (λ w. refl)
                    λ customer.
                      first-IsSafe Owns before
                        (try_catch (subscribe v id plan customer) (report_card v)) _
                        (λ w. ap accounts_of (subscribe_or_report-KeepsUsers v id plan customer w))
                        λ _. plan-IsSafe user_id plan))
