-- ===== src/Subscriptions/Keeps.antt =====
-- What the methods on subscriptions leave as it is.
use blackrock.Prelude.{
  Bool-cases, ◌≡◌, refl, inl, inr, Option, none, some, List, arith, Option-cases,
}
use blackrock.Text.{text_eq, Text}
use blackrock.Users.{free, User, find_by_id, customer_id, set_plan, update_user, free}
use blackrock.Stripe.{Customer, Result-cases, Services}
use blackrock.Action.{World, try_catch, ◌>>◌}
use blackrock.Action.Keeps.{KeepsUsers}
use blackrock.Cards.{logged_in_user}
use blackrock.Subscriptions.{
  subscribe, report_card, record_plan, update_user_subscription, suspend_account, delete_account,
}
use blackrock.Subscriptions.Cancel.{cancel-KeepsUsers}

module _ {S : Type 0} (v : Services S) where
  pub suspend-KeepsUsers : (user_id : Text) → KeepsUsers (suspend_account v user_id)
  unfolding suspend_account logged_in_user
  suspend-KeepsUsers user_id w = grind (arith, cancel-KeepsUsers)

  pub delete_account-KeepsUsers : (user : User) → KeepsUsers (delete_account v user)
  unfolding delete_account
  delete_account-KeepsUsers user w = ground arith

  pub subscribe_or_report-KeepsUsers :
      (id plan : Text) (customer : Customer)
      → KeepsUsers (try_catch (subscribe v id plan customer) (report_card v))
  unfolding subscribe report_card
  subscribe_or_report-KeepsUsers id plan customer w = ground arith

  -- A view of the users that no change of a plan shows in.
  module _ {B : Type 0} (view : List User → B)
      (keep : (id plan : Text) (users : List User)
        → view (update_user id (set_plan plan) users) ≡ view users) where
    -- The end of a change of plan, on a world whose users show the same.
    record_keeps :
        (user_id plan : Text) (w : World S)
        → view (record_plan v user_id plan w).1.users ≡ view w.users
    unfolding record_plan
    record_keeps user_id plan w = keep user_id plan w.users

    changed_keeps :
        (user_id id plan : Text) (customer : Customer) (w : World S)
        → let m = try_catch (subscribe v id plan customer) (report_card v) in
          view ((m >> record_plan v user_id plan) w).1.users ≡ view w.users
    changed_keeps user_id id plan customer w =
        let m = try_catch (subscribe v id plan customer) (report_card v) in
        let same : (m w).1.users ≡ w.users = subscribe_or_report-KeepsUsers id plan customer w in
        elim (Result-cases (m w).0) [
          | inl (_, done) ↦ ground (arith, record_keeps user_id plan (m w).1)
          | inr (e, thrown) ↦ ground arith
        ]

    pub update_user_subscription_keeps :
        (session : Option Text) (plan : Text) (w : World S)
        → view (update_user_subscription v session plan w).1.users ≡ view w.users
    unfolding update_user_subscription logged_in_user
    update_user_subscription_keeps none plan w = refl
    update_user_subscription_keeps (some user_id) plan w =
        elim (Result-cases (v.get_plan plan none w.outside)) [
          | inr (e, unknown) ↦ ground arith
          | inl (info, known) ↦ elim (Bool-cases info.hidden) [
            | inl hidden ↦ ground arith
            | inr offered ↦ elim (Option-cases (find_by_id user_id w.users)) [
              | inl gone ↦ ground arith
              | inr (user, found) ↦ elim (Option-cases (customer_id user)) [
                | inl fresh ↦ ground (arith, record_keeps user_id plan w)
                | inr (id, has) ↦ elim (Bool-cases (text_eq plan free)) [
                  | inl cancels ↦ ground (arith, cancel-KeepsUsers v user_id id w)
                  | inr paid ↦ elim (Result-cases (v.retrieve_customer id w.outside)) [
                    | inr (e, failed) ↦ ground arith
                    | inl (customer, fetched) ↦
                        ground (arith, changed_keeps user_id id plan customer w)
                  ]
                ]
              ]
            ]
          ]
        ]
