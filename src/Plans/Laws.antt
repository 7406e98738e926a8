-- ===== src/Plans/Laws.antt =====
-- Reading a plan back from the id that the package gives to Stripe.
use blackrock.Prelude.{◌≡◌, Bool, true, false, append-nil, not}
use blackrock.Text.{Text, codes, Lacks, split, text_eq}
use blackrock.Text.Laws.{first_part_lacking, first_part-append, split_lacking, split-append}
use blackrock.Plans.{stripe_plan, base_plan, is_beta}

pub base_plan-stripe_plan :
    (out_of_beta : Bool) (plan : Text)
    → Lacks b'-' plan
    → base_plan (stripe_plan out_of_beta plan) ≡ plan
base_plan-stripe_plan true plan h = rw append-nil (first_part_lacking b'-' plan h)
base_plan-stripe_plan false plan h = first_part-append b'-' plan (codes "beta") h

pub is_beta-stripe_plan :
    (out_of_beta : Bool) (plan : Text)
    → Lacks b'-' plan
    → is_beta (stripe_plan out_of_beta plan) ≡ not out_of_beta
unfolding is_beta split text_eq
is_beta-stripe_plan true plan h = rw (append-nil, split_lacking b'-' plan h)
is_beta-stripe_plan false plan h = rw (split-append b'-' plan (codes "beta") h)

-- What an id in Stripe says: the plan, and whether it is a price of the beta.
abbrev pub NamesPlan : Bool → Text → Text → Type 0
NamesPlan out_of_beta plan plan_id =
    (base_plan plan_id ≡ plan) × (is_beta plan_id ≡ not out_of_beta)

pub stripe_plan-NamesPlan :
    (out_of_beta : Bool) (plan : Text)
    → Lacks b'-' plan
    → NamesPlan out_of_beta plan (stripe_plan out_of_beta plan)
stripe_plan-NamesPlan out_of_beta plan h =
    (base_plan-stripe_plan out_of_beta plan h, is_beta-stripe_plan out_of_beta plan h)
