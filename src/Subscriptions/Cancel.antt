-- ===== src/Subscriptions/Cancel.antt =====
-- Cancelation: a subscription is only ever canceled at the end of its period, and the user's plan is
-- left as it is.
use blackrock.Prelude.{◌≡◌, true, false, none, some, List, ◌∷◌, arith, if◌then◌else◌}
use blackrock.Text.{Text}
use blackrock.Text.Laws.{text_eq_refl}
use blackrock.Users.{User, find_by_id, customer_id, free}
use blackrock.Stripe.{ok, Customer, Plan, Request, cancel_subscription, Services}
use blackrock.Stripe.Objects.{current_subscription}
use blackrock.Action.{World}
use blackrock.Action.Keeps.{KeepsUsers}
use blackrock.Cards.{logged_in_user}
use blackrock.Subscriptions.{cancel_subscription_of, update_user_subscription, suspend_account}

-- The requests after a cancelation: the current subscription is canceled at the end of its period,
-- unless that was asked for already.
abbrev pub ending : Text → Customer → List Request → List Request
ending id customer requests = elim (current_subscription customer) [
  | none ↦ requests
  | some s ↦
      if s.cancel_at_period_end then requests else cancel_subscription id s.id true ∷ requests
]

module _ {S : Type 0} (v : Services S) where
  pub cancel-KeepsUsers :
      (user_id id : Text) → KeepsUsers (cancel_subscription_of v none user_id id)
  unfolding cancel_subscription_of
  cancel-KeepsUsers user_id id w = ground arith

  cancel_requests :
      (user_id id : Text) (customer : Customer) (w : World S)
      → v.retrieve_customer id w.outside ≡ ok customer
      → (cancel_subscription_of v none user_id id w).1.requests ≡ ending id customer w.requests
  unfolding cancel_subscription_of
  cancel_requests user_id id customer w fetched = ground arith

  free_step :
      (user_id id : Text) (plan : Plan) (user : User) (w : World S)
      → v.get_plan free none w.outside ≡ ok plan
      → plan.hidden ≡ false
      → find_by_id user_id w.users ≡ some user
      → customer_id user ≡ some id
      → update_user_subscription v (some user_id) free w
        ≡ cancel_subscription_of v none user_id id w
  unfolding update_user_subscription logged_in_user
  free_step user_id id plan user w known offered found has = ground (arith, text_eq_refl free)

  -- A user with a Stripe customer that can be fetched, who chooses the plan "free" while it is offered,
  -- keeps the plan that is stored, however the call ends, even where the customer has no subscription that could end later; and the one
  -- request that may be made is to cancel the current subscription at the end of its period.
  pub update_user_subscription-free :
      (user_id id : Text) (plan : Plan) (user : User) (customer : Customer) (w : World S)
      → v.get_plan free none w.outside ≡ ok plan
      → plan.hidden ≡ false
      → find_by_id user_id w.users ≡ some user
      → customer_id user ≡ some id
      → v.retrieve_customer id w.outside ≡ ok customer
      → let w' = (update_user_subscription v (some user_id) free w).1 in
        (w'.users ≡ w.users) × (w'.requests ≡ ending id customer w.requests)
  update_user_subscription-free user_id id plan user customer w known offered found has fetched =
      rw (free_step user_id id plan user w known offered found has)
        (cancel-KeepsUsers user_id id w, cancel_requests user_id id customer w fetched)

  -- Suspending the account of a user with a Stripe customer that can be fetched changes no user, the
  -- suspended one included, and cancels at most the current subscription, at the end of its period.
  pub suspend_account_ends :
      (user_id id : Text) (user : User) (customer : Customer) (w : World S)
      → find_by_id user_id w.users ≡ some user
      → customer_id user ≡ some id
      → v.retrieve_customer id w.outside ≡ ok customer
      → let w' = (suspend_account v user_id w).1 in
        (w'.users ≡ w.users) × (w'.requests ≡ ending id customer w.requests)
  unfolding suspend_account logged_in_user
  suspend_account_ends user_id id user customer w found has fetched = (
    ground (arith, cancel-KeepsUsers user_id id w),
    ground (arith, cancel_requests user_id id customer w fetched),
  )
