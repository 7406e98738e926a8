-- ===== src/Browser/Chooser.antt =====
-- The plan chooser of shell/packages/blackrock-payments/billingPrompt.js: the helper `plans`, a click
-- on a plan (`clickPlanHelper`), and the answer to the change of plan.
pub mod Shown
pub mod Clicks
pub mod Refreshed
use blackrock.Prelude.{
  ℕ, ◌+◌, Bool, true, false, not, ◌&&◌, ◌||◌, ltb, Option, none, some, List, [], ◌∷◌, map,
  if◌then◌else◌,
}
use blackrock.Prelude.Int.{pos, ltb_ℤ}
use blackrock.Text.{Text, codes, text_eq, is_truthy}
use blackrock.Users.{User, free}
use blackrock.Stripe.{Failure, Result, ok, err, Plan}
use blackrock.Subscriptions.{Changes, no_change, ends_at, subscribed_to}
use blackrock.Bonuses.{eq_ℤ}
use blackrock.Browser.{
  CustomerData, Client, call, alert, call_update_plan, call_stripe_data, truthy,
}

-- A plan as the chooser shows it; a flag that is not set is false.
pub record Choice : Type 0 where
  pub plan : Plan
  pub is_current : Bool
  pub is_upgrade : Bool
  pub is_downgrade : Bool

-- `(data && data.subscription) || "unknown"`, or "free" once the plan was cancelled
unfoldable pub my_plan_name : Option CustomerData → Text
my_plan_name none = codes "unknown"
my_plan_name (some data') = elim data'.subscription_ends [
  | some _ ↦ free
  | none ↦ elim (truthy data'.subscription) [ none ↦ codes "unknown" | some name ↦ name ]
]

-- The last plan of that name.
unfoldable pub find_plan : Text → List Plan → Option Plan
find_plan name [] = none
find_plan name (p ∷ plans) = elim (find_plan name plans) [
  | some q ↦ some q
  | none ↦ if text_eq p.id name then some p else none
]

abbrev pub choice_of : Text → Option Plan → Plan → Choice
choice_of name mine plan =
    if text_eq plan.id name
    then record { plan = plan; is_current = true; is_upgrade = false; is_downgrade = false }
    else elim mine [
      | none ↦ record { plan = plan; is_current = false; is_upgrade = false; is_downgrade = false }
      | some my_plan ↦ record {
        plan = plan;
        is_current = false;
        is_upgrade = ltb_ℤ my_plan.price plan.price;
        is_downgrade = ltb_ℤ plan.price my_plan.price;
      }
    ]

-- `!plan.hidden || plan.isCurrent`
abbrev pub is_shown : Choice → Bool
is_shown c = not c.plan.hidden || c.is_current

unfoldable pub shown_choices : List Choice → List Choice
shown_choices [] = []
shown_choices (c ∷ choices) =
    if is_shown c then c ∷ shown_choices choices else shown_choices choices

-- The helper `plans`, of the list from `db.listPlans()`.
unfoldable pub plans : List Plan → Option CustomerData → List Choice
unfolding shown_choices find_plan my_plan_name
plans list data' =
    let name = my_plan_name data' in shown_choices (map (choice_of name (find_plan name list)) list)

-- The template instance of the chooser: the plan that is being selected, what its `onComplete` was
-- told (the newest first), the plan whose checkout frame was told to open its dialog, and whether a
-- later refresh is due.
pub record Chooser : Type 0 where
  pub client : Client
  -- `isSelectingPlan`
  pub selecting : Option Text
  -- `promptChoice`
  pub prompt_choice : Option Text
  pub has_on_complete : Bool
  pub completed : List (Bool × Option CustomerData)
  pub opened : List Text
  -- `eventualTimeout`
  pub check_due : Bool

abbrev pub with_client : (Client → Client) → Chooser → Chooser
with_client change t = record t { client = change t.client }

-- `if (template.data.onComplete) template.data.onComplete(success, old)`
abbrev pub complete_if : Bool → Option CustomerData → Chooser → Chooser
complete_if success old t =
    if t.has_on_complete then record t { completed = (success, old) ∷ t.completed } else t

-- `eventuallyCheckConsistency`, which replaces a refresh that is due already, and the refresh itself
abbrev pub eventually_check : Chooser → Chooser
eventually_check t = record t { check_due = true }

abbrev pub on_check : Chooser → Chooser
on_check t = record t { check_due = false; client = call call_stripe_data t.client }

-- `Meteor.user().plan === planName`
abbrev pub is_on : Text → Option User → Bool
is_on name none = false
is_on name (some user) = elim user.plan [ none ↦ false | some plan ↦ text_eq plan name ]

abbrev pub is_empty : {A : Type 0} → List A → Bool
is_empty [] = true
is_empty (_ ∷ _) = false

-- A click on a plan. `discontinued` is whether the user's own plan is hidden, `confirmed` what the user
-- answers to the question that is asked then. A dismissal without an `onComplete` throws.
unfoldable pub click_plan : Bool → Bool → Choice → Chooser → Chooser
click_plan discontinued confirmed context t =
    if discontinued && not confirmed
    then t
    else (if context.is_current && is_on context.plan.id t.client.user
        then complete_if false none t
        else (if not (is_empty t.client.cards) || eq_ℤ context.plan.price (pos 0)
            then record t {
              selecting = some context.plan.id;
              client = call (call_update_plan context.plan.id) t.client;
            }
            else record t { opened = context.plan.id ∷ t.opened }))

-- `StripeCustomerData.update("0", {$set: changes})`
abbrev pub apply_changes : Changes → CustomerData → CustomerData
apply_changes no_change data' = data'
apply_changes (ends_at time) data' = record data' { subscription_ends = some time }
apply_changes (subscribed_to plan) data' = record data' {
  subscription = some plan;
  subscription_ends = none;
}

-- The answer to a change of plan; `onComplete` also gets the data as they were.
unfoldable pub on_plan_updated : Result Changes → Chooser → Chooser
on_plan_updated (err e) t = record t { selecting = none; client = alert e t.client }
on_plan_updated (ok changes) t = complete_if true t.client.customer (
    eventually_check (record t {
      selecting = none;
      client = record t.client {
        customer = elim t.client.customer [
          | none ↦ none
          | some data' ↦ some (apply_changes changes data')
        ];
      };
    }))
