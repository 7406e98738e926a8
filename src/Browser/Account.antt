-- ===== src/Browser/Account.antt =====
-- What the pages show of the account in shell/packages/blackrock-payments/billingPrompt.js: the reason of
-- a prompt, plan, quota and bonuses, and the state of the pop-up of the chooser.
pub mod Sums
use blackrock.Prelude.{
  ℕ, Bool, true, false, not, ◌&&◌, ◌||◌, ltb, Option, none, some, List, [], ◌∷◌, if◌then◌else◌,
}
use blackrock.Prelude.Int.{ℤ, pos}
use blackrock.Text.{Text, codes, text_eq, is_truthy}
use blackrock.Users.{User, Bonus, PaymentsBonuses, payments_of, free}
use blackrock.Stripe.{Plan}
use blackrock.Bonuses.{no_bonus, mailing_list_bonus, eq_ℤ}
use blackrock.Cards.{CleanSource}
use blackrock.Browser.{CustomerData, truthy}
use blackrock.Browser.Chooser.{Choice, is_empty}

-- `this.reason && this.reason !== "voluntary"`, and one of the other reasons
abbrev pub is_involuntary : Option Text → Bool
is_involuntary reason = elim (truthy reason) [
  | none ↦ false
  | some text ↦ not (text_eq text (codes "voluntary"))
]

abbrev pub is_reason : Text → Option Text → Bool
is_reason name none = false
is_reason name (some text) = text_eq text name

-- `Meteor.user() && Meteor.user().plan && Meteor.user().plan !== "free"`
unfoldable pub is_paid : Option User → Bool
is_paid none = false
is_paid (some user) = elim (truthy user.plan) [ none ↦ false | some plan ↦ not (text_eq plan free) ]

-- `!!Meteor.user().plan`
abbrev pub is_plan_chosen : User → Bool
is_plan_chosen user = elim (truthy user.plan) [ none ↦ false | some _ ↦ true ]

-- What a plan or a quota allows.
pub record Limits : Type 0 where
  pub storage : ℕ
  pub compute : ℕ
  pub grains : ℕ

unfoldable pub has_any_bonus : Limits → Limits → Bool
has_any_bonus quota plan =
    ltb plan.storage quota.storage
    || (ltb plan.compute quota.compute || ltb plan.grains quota.grains)

abbrev pub bonuses_of : User → Option PaymentsBonuses
bonuses_of user = (payments_of user).bonuses

unfoldable pub my_metadata_bonus : User → Bonus
my_metadata_bonus user = elim (bonuses_of user) [ none ↦ no_bonus | some b ↦ b.metadata ]

unfoldable pub is_on_list : User → Bool
is_on_list user = elim (bonuses_of user) [ none ↦ false | some b ↦ b.mailing_list ]

unfoldable pub my_mailing_list_bonus : User → Bonus
unfolding is_on_list
my_mailing_list_bonus user =
    if is_on_list user then record no_bonus { storage = some mailing_list_bonus } else no_bonus

-- `plan.title || plan._id`
abbrev pub title_or_id : Plan → Text
title_or_id plan = elim (truthy plan.title) [ none ↦ plan.id | some title ↦ title ]

-- `this.price && !this.isCurrent && data.count() === 0`
unfoldable pub is_showing_iframe : Choice → List CleanSource → Bool
is_showing_iframe choice cards =
    not (eq_ℤ choice.plan.price (pos 0)) && (not choice.is_current && is_empty cards)

-- The pop-up: its own state, and what it told the page that opened it.
pub record Popup : Type 0 where
  pub old_plan_title : Text
  pub old_plan_ends : Option ℕ
  pub is_complete : Bool
  pub told : List Bool

-- `Template._billingPromptPopup.onCreated`
abbrev pub open_popup : Plan → Popup
open_popup plan = record {
  old_plan_title = title_or_id plan;
  old_plan_ends = none;
  is_complete = false;
  told = [];
}

-- `onCompleteWrapper`
unfoldable pub on_complete_wrapper : Bool → Option CustomerData → Popup → Popup
on_complete_wrapper success old popup =
    if success
    then record popup {
      is_complete = true;
      old_plan_ends = elim old [
        | none ↦ popup.old_plan_ends
        | some data' ↦ data'.subscription_ends
      ];
    }
    else record popup { told = false ∷ popup.told }

-- The button "continue" of the pop-up: `if (this.onComplete) this.onComplete(true)`.
abbrev pub click_continue : Bool → Popup → Popup
click_continue has_on_complete popup =
    if has_on_complete then record popup { told = true ∷ popup.told } else popup

-- `myPlanEnds`, before it is printed
abbrev pub my_plan_ends : Option CustomerData → Option ℕ
my_plan_ends none = none
my_plan_ends (some data') = data'.subscription_ends
