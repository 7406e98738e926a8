-- ===== src/Plans.antt =====
-- The ids of Stripe's plans, which are the names of Sandstorm's plans with or without the suffix
-- "-beta" (payments-server.js): `MAYBE_BETA`, and the tests on the parts of an id.
pub mod Laws
use blackrock.Prelude.{Bool, true, false, Option, none, some, List, [], ◌∷◌, ◌++◌, if◌then◌else◌}
use blackrock.Text.{Text, codes, text_eq, is_truthy, split, first_part, title_case}
use blackrock.Stripe.{Plan}

-- `newPlan + MAYBE_BETA`, by whether the service is out of beta
abbrev pub stripe_plan : Bool → Text → Text
stripe_plan out_of_beta plan = plan ++ (if out_of_beta then [] else codes "-beta")

-- `planId.split("-")[1] === "beta"`
abbrev is_beta_part : List Text → Bool
is_beta_part (_ ∷ part ∷ _) = text_eq part (codes "beta")
is_beta_part _ = false

unfoldable pub is_beta : Text → Bool
is_beta plan_id = is_beta_part (split b'-' plan_id)

-- `planId.split("-")[0]`
abbrev pub base_plan : Text → Text
base_plan plan_id = first_part b'-' plan_id

-- `plan.title || (plan._id.charAt(0).toUpperCase() + plan._id.slice(1))`
unfoldable pub plan_title : Plan → Text
plan_title plan = elim plan.title [
  | none ↦ title_case plan.id
  | some title ↦ if is_truthy title then title else title_case plan.id
]
