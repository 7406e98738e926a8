-- ===== src/Subscriptions/Answers.antt =====
-- What a change of plan answers.
use blackrock.Prelude.{
  ◌≡◌, refl, inl, inr, true, Option, none, some, arith, Bool-cases, Option-cases,
}
use blackrock.Text.{Text, text_eq}
use blackrock.Users.{find_by_id, customer_id, free}
use blackrock.Stripe.{Result-cases, ok, Services}
use blackrock.Action.{World, try_catch}
use blackrock.Cards.{logged_in_user}
use blackrock.Subscriptions.{
  Changes, no_change, ends_at, subscribed_to, subscribe, report_card, record_plan,
  cancel_subscription_of, update_user_subscription,
}

-- The answer to a change to this plan: the plan, or what becomes of the subscription that the free plan
-- cancels.
abbrev pub Answered : Text → Changes → Type 0
Answered plan no_change = text_eq plan free ≡ true
Answered plan (ends_at time) = text_eq plan free ≡ true
Answered plan (subscribed_to name) = name ≡ plan

module _ {S : Type 0} (v : Services S) where
  cancel_answers :
      (user_id id plan : Text) (w : World S) {changes : Changes}
      → text_eq plan free ≡ true
      → (cancel_subscription_of v none user_id id w).0 ≡ ok changes
      → Answered plan changes
  unfolding cancel_subscription_of
  cancel_answers user_id id plan w {changes = no_change} to_free done = to_free
  cancel_answers user_id id plan w {changes = ends_at time} to_free done = to_free
  cancel_answers user_id id plan w {changes = subscribed_to name} to_free done =
      absurd (ground arith)

  pub update_user_subscription_answers :
      (session : Option Text) (plan : Text) (w : World S) {changes : Changes}
      → (update_user_subscription v session plan w).0 ≡ ok changes
      → Answered plan changes
  unfolding update_user_subscription logged_in_user record_plan
  update_user_subscription_answers none plan w done = absurd (ground arith)
  update_user_subscription_answers (some user_id) plan w {changes} done =
      elim (Result-cases (v.get_plan plan none w.outside)) [
        | inr (e, unknown) ↦ absurd (ground arith)
        | inl (info, known) ↦ elim (Bool-cases info.hidden) [
          | inl hidden ↦ absurd (ground arith)
          | inr offered ↦ elim (Option-cases (find_by_id user_id w.users)) [
            | inl gone ↦ absurd (ground arith)
            | inr (user, found) ↦ elim (Option-cases (customer_id user)) [
              | inl fresh ↦ elim (Bool-cases (text_eq plan free)) [
                | inr paid ↦ absurd (ground arith)
                | inl to_free ↦ by_plan changes (ground arith)
              ]
              | inr (id, has) ↦ elim (Bool-cases (text_eq plan free)) [
                | inl to_free ↦ cancel_answers user_id id plan w to_free (ground arith)
                | inr paid ↦ elim (Result-cases (v.retrieve_customer id w.outside)) [
                  | inr (e, failed) ↦ absurd (ground arith)
                  | inl (customer, fetched) ↦
                      elim (Result-cases
                        (try_catch (subscribe v id plan customer) (report_card v) w).0) [
                          | inr (e, refused) ↦ absurd (ground arith)
                          | inl (_, accepted) ↦ by_plan changes (ground arith)
                        ]
                ]
              ]
            ]
          ]
        ]
      ]
    where
      by_plan : (changes : Changes) → changes ≡ subscribed_to plan → Answered plan changes
      by_plan changes same = rw same refl
