-- ===== src/Migration.antt =====
-- `paymentsMigrationHook` of shell/packages/blackrock-payments/payments-server.js, which hands Stripe's
-- customers out to the users and the signup keys that have their e-mail addresses. The keys of
-- `byEmail` are addresses, so that none is the name of a property that every object has.
pub mod Queues
pub mod Exact
mod Tests
use blackrock.Prelude.{
  Bool, true, false, not, ◌&&◌, Option, none, some, List, [], ◌∷◌, ◌++◌, if◌then◌else◌,
}
use blackrock.Text.{Text, codes, text_eq, is_truthy}
use blackrock.Users.{Payments, no_payments, free}
use blackrock.Stripe.{Customer, Subscription}
use blackrock.Stripe.Objects.{current_subscription}
use blackrock.Plans.{base_plan}

-- A user, with `signupEmail` as its address, or a signup key.
pub record Candidate : Type 0 where
  pub id : Text
  pub email : Option Text
  pub has_quota : Bool
  -- of a signup key
  pub used : Bool
  pub plan : Option Text
  pub payments : Option Payments

-- `{quota: {$exists: true}}`
abbrev pub is_due_user : Candidate → Bool
is_due_user user = user.has_quota

-- `{quota: {$exists: true}, used: false}`
abbrev pub is_due_key : Candidate → Bool
is_due_key key = key.has_quota && not key.used

-- `byEmail`: for each address a queue of customers
abbrev pub Queues : Type 0
Queues = List (Text × List Customer)

-- `customer.email` as a property's name
abbrev pub key_of : Customer → Text
key_of customer = elim customer.email [ none ↦ codes "null" | some email ↦ email ]

-- `byEmail[email] = byEmail[email] || []; byEmail[email].push(customer)`
unfoldable pub push : Customer → Queues → Queues
push customer [] = (key_of customer, customer ∷ []) ∷ []
push customer ((key, queue) ∷ queues) =
    if text_eq key (key_of customer)
    then (key, queue ++ customer ∷ []) ∷ queues
    else (key, queue) ∷ push customer queues

unfoldable pub group : List Customer → Queues → Queues
group [] queues = queues
group (customer ∷ customers) queues = group customers (push customer queues)

-- What is left of a queue, behind `key`, and its first customer.
abbrev pub shift_queue : Text → List Customer → Queues → Option Customer × Queues
shift_queue key [] queues = (none, (key, []) ∷ queues)
shift_queue key (customer ∷ queue) queues = (some customer, (key, queue) ∷ queues)

-- `(byEmail[email] || []).shift()`
unfoldable pub shift : Text → Queues → Option Customer × Queues
shift email [] = (none, [])
shift email ((key, queue) ∷ queues) =
    let rest = shift email queues in
    if text_eq key email then shift_queue key queue queues else (rest.0, (key, queue) ∷ rest.1)

-- `{$set: {plan: plan, payments: {id: customer.id}}}`
unfoldable pub assign : Customer → Candidate → Candidate
assign customer candidate = record candidate {
  plan = some (elim (current_subscription customer) [ none ↦ free | some s ↦ base_plan s.plan_id ]);
  payments = some (record no_payments { id = some customer.id });
}

-- The body of the two loops; an empty address is not truthy.
unfoldable pub migrate_one : Candidate → Queues → Candidate × Queues
unfolding shift
migrate_one candidate queues = elim candidate.email [
  | none ↦ (candidate, queues)
  | some email ↦
      if is_truthy email
      then elim (shift email queues).0 [
        | none ↦ (candidate, (shift email queues).1)
        | some customer ↦ (assign customer candidate, (shift email queues).1)
      ]
      else (candidate, queues)
]

-- A loop over the documents that are due.
unfoldable pub migrate : (Candidate → Bool) → List Candidate → Queues → List Candidate × Queues
unfolding migrate_one
migrate is_due [] queues = ([], queues)
migrate is_due (candidate ∷ candidates) queues =
    let here = if is_due candidate then migrate_one candidate queues else (candidate, queues) in
    let rest = migrate is_due candidates here.1 in (here.0 ∷ rest.0, rest.1)

-- The customers that are reported as not used.
unfoldable pub unused : Queues → List Customer
unused [] = []
unused ((_, queue) ∷ queues) = queue ++ unused queues

-- Both collections after the migration, and the customers that nobody got.
unfoldable pub payments_migration :
    List Candidate
    → List Candidate
    → List Customer
    → List Candidate × List Candidate × List Customer
unfolding group migrate unused
payments_migration users keys customers =
    let first = migrate is_due_user users (group customers []) in
    let second = migrate is_due_key keys first.1 in (first.0, second.0, unused second.1)
