-- ===== src/Webhook/Deleted.antt =====
-- The event `customer.subscription.deleted`, branch by branch.
use blackrock.Prelude.{◌≡◌, none, some, arith}
use blackrock.Text.{Text}
use blackrock.Users.{User, find_by_customer, set_plan, update_user, free}
use blackrock.Stripe.{Failure, ok, err, Customer, Subscription, Services}
use blackrock.Action.{World}
use blackrock.Stripe.Objects.{current_subscription}
use blackrock.Webhook.{handle_deleted}

module _ {S : Type 0} (v : Services S) (id : Text) (w : World S) where
  pub deleted_missing : find_by_customer id w.users ≡ none → handle_deleted v id w ≡ (ok tt, w)
  unfolding handle_deleted
  deleted_missing missing = ground arith

  module _ (user : User) (found : find_by_customer id w.users ≡ some user) where
    pub deleted_unreachable :
        (e : Failure)
        → v.retrieve_customer id w.outside ≡ err e
        → handle_deleted v id w ≡ (err e, w)
    unfolding handle_deleted
    deleted_unreachable e fetched = ground arith

    module _ (customer : Customer) (fetched : v.retrieve_customer id w.outside ≡ ok customer) where
      pub deleted_downgrade :
          current_subscription customer ≡ none
          → handle_deleted v id w
            ≡ (ok tt, record w { users = update_user user.id (set_plan free) w.users })
      unfolding handle_deleted
      deleted_downgrade unsubscribed = ground arith

      pub deleted_subscribed :
          (s : Subscription)
          → current_subscription customer ≡ some s
          → handle_deleted v id w ≡ (ok tt, w)
      unfolding handle_deleted
      deleted_subscribed s subscribed = ground arith
