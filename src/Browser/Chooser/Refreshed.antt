-- ===== src/Browser/Chooser/Refreshed.antt =====
-- What the chooser shows once the Stripe data are refreshed.
use blackrock.Prelude.{ap, none, ◌≡◌, true, false, some, arith}
use blackrock.Text.{Text, Lacks, is_truthy}
use blackrock.Users.{User, find_by_id, customer_id}
use blackrock.Stripe.{ok, Customer, Subscription, Services}
use blackrock.Stripe.Objects.{current_subscription}
use blackrock.Plans.{stripe_plan, base_plan}
use blackrock.Plans.Laws.{base_plan-stripe_plan}
use blackrock.Action.{World}
use blackrock.Cards.{StripeData, logged_in_user, stripe_data, get_stripe_data}
use blackrock.Browser.{Client, on_stripe_data}
use blackrock.Browser.Chooser.{my_plan_name}

-- An answer for a subscription that does not end.
answer_shows :
    (data' : StripeData) (plan : Text) (client : Client)
    → data'.subscription ≡ some plan
    → data'.subscription_ends ≡ none
    → is_truthy plan ≡ true
    → my_plan_name (on_stripe_data (ok data') client).customer ≡ plan
unfolding on_stripe_data my_plan_name
answer_shows data' plan client named stays there = ground arith

module _ {S : Type 0} (v : Services S) where
  -- For a user whose current subscription at Stripe is to a plan, under the plan's id there, and does not
  -- end: the server's answer to a refresh makes the chooser show this plan as the user's own, if its
  -- name holds no dash and is not empty.
  pub refresh_shows :
      (user_id plan id : Text) (user : User) (customer : Customer) (current : Subscription)
      (w : World S) (client : Client)
      → find_by_id user_id w.users ≡ some user
      → customer_id user ≡ some id
      → v.retrieve_customer id w.outside ≡ ok customer
      → current_subscription customer ≡ some current
      → current.plan_id ≡ stripe_plan v.out_of_beta plan
      → current.cancel_at_period_end ≡ false
      → Lacks b'-' plan
      → is_truthy plan ≡ true
      → ((get_stripe_data v (some user_id) w).0 ≡ ok (stripe_data v customer))
        × (my_plan_name (on_stripe_data (ok (stripe_data v customer)) client).customer ≡ plan)
  unfolding get_stripe_data stripe_data logged_in_user
  refresh_shows user_id plan id user customer current w client found has fetched on named stays
        whole there =
      let name : base_plan current.plan_id ≡ plan =
        rw named (base_plan-stripe_plan v.out_of_beta plan whole) in
      (
        ground arith,
        answer_shows (stripe_data v customer) plan client (rw (stripe_data, on) (ap some name))
            (ground arith) there,
      )
