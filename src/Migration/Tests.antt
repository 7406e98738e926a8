-- ===== src/Migration/Tests.antt =====
-- The migration of two users and a signup key.
use blackrock.Prelude.{◌≡◌, refl, true, false, none, some, List, [], ◌∷◌, ◌++◌}
use blackrock.Text.{Text, codes, text_eq, split, first_part}
use blackrock.Stripe.{Customer}
use blackrock.Stripe.Objects.{current_subscription}
use blackrock.Migration.{
  Candidate, push, group, shift, assign, migrate_one, migrate, unused, payments_migration,
}
use blackrock.Migration.Exact.{Assigned, payments_migration_exact}
use blackrock.Demo.{subscriber, former}
use mathlib.Core.List.{Perm}

abbrev candidate : Text → Candidate
candidate id = record {
  id = id;
  email = some (codes "ann@example.org");
  has_quota = true;
  used = false;
  plan = none;
  payments = none;
}

abbrev users : List Candidate
users = candidate (codes "ann") ∷ record (candidate (codes "bob")) { email = none } ∷ []

abbrev keys : List Candidate
keys = candidate (codes "key") ∷ []

abbrev customers : List Customer
customers = subscriber ∷ record former { id = codes "cus_2" } ∷ record former { email = none } ∷ []

payments_migration_exact_example :
    let (users', keys', left) = payments_migration users keys customers in
    (a : List Customer) × (b : List Customer) × Assigned users users' a
    × Assigned keys keys' b
    × Perm (a ++ (b ++ left)) customers
payments_migration_exact_example = payments_migration_exact users keys customers

-- The first customer of an address goes to the user, the second to the key; one has no address.
ran : payments_migration users keys customers ≡ (
  assign subscriber (candidate (codes "ann"))
      ∷ record (candidate (codes "bob")) { email = none }
      ∷ [],
  assign (record former { id = codes "cus_2" }) (candidate (codes "key")) ∷ [],
  record former { email = none } ∷ [],
)
unfolding payments_migration migrate migrate_one group push shift unused text_eq
ran = refl

plan_of_key : (assign subscriber (candidate (codes "ann"))).plan ≡ some (codes "standard")
unfolding assign current_subscription first_part split
plan_of_key = refl
