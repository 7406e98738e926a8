-- ===== src/Migration/Exact.antt =====
-- No customer is handed out twice, and none is lost.
use blackrock.Prelude.{
  append-nil, Bool, ◌≡◌, refl, inl, inr, some, List, [], ◌∷◌, ◌++◌, Bool-cases, Option-cases,
  append-nil, if◌then◌else◌, sym, ap, ◌⊎◌,
}
use blackrock.Text.{is_truthy}
use blackrock.Stripe.{Customer}
use blackrock.Migration.{
  Candidate, is_due_user, is_due_key, Queues, key_of, group, shift, assign, migrate_one, migrate,
  unused, payments_migration,
}
use mathlib.Core.List.{Perm}
use mathlib.Core.List.Perm
use blackrock.Migration.Queues.{
  IsFiled, unused-group, group-IsFiled, unused-shift_miss, unused-shift_hit, shift-IsFiled,
  key_of-shift,
}

-- The customers that these documents were given, in order: each has the address of its document, and
-- the other documents are as before.
pub data Assigned : List Candidate → List Candidate → List Customer → Type 0 where
  end : Assigned [] [] []
  kept :
      {d : Candidate} {ds ds' : List Candidate} {cs : List Customer}
      → Assigned ds ds' cs
      → Assigned (d ∷ ds) (d ∷ ds') cs
  given :
      {d : Candidate} {ds ds' : List Candidate} {c : Customer} {cs : List Customer}
      → d.email ≡ some (key_of c)
      → Assigned ds ds' cs
      → Assigned (d ∷ ds) (assign c d ∷ ds') (c ∷ cs)

-- What one document does to the queues.
record Step (d : Candidate) (queues : Queues) (r : Candidate × Queues) : Type 0 where
  filed : IsFiled r.1
  outcome :
      ((r.0 ≡ d) × (unused r.1 ≡ unused queues))
      ⊎ ((c : Customer) × (r.0 ≡ assign c d)
          × (d.email ≡ some (key_of c))
          × Perm (c ∷ unused r.1) (unused queues))

migrate_one-Step :
    (d : Candidate) (queues : Queues) → IsFiled queues → Step d queues (migrate_one d queues)
unfolding migrate_one
migrate_one-Step d queues h = elim (Option-cases d.email) [
  | inl bare ↦ rw bare (record { filed = h; outcome = inl (refl, refl) })
  | inr (email, has) ↦ elim (Bool-cases (is_truthy email)) [
    | inr empty ↦ rw (has, empty) (record { filed = h; outcome = inl (refl, refl) })
    | inl full ↦ elim (Option-cases (shift email queues).0) [
      | inl none_left ↦
          rw (has, full, none_left)
            (record {
              filed = shift-IsFiled email queues h;
              outcome = inl (refl, unused-shift_miss email queues none_left);
            })
      | inr (c, e) ↦
          rw (has, full, e)
            (record {
              filed = shift-IsFiled email queues h;
              outcome = inr (
                c,
                refl,
                ap some (sym (key_of-shift email queues {c = c} h e)),
                unused-shift_hit email queues {c = c} e,
              );
            })
    ]
  ]
]

migrate-Step :
    (is_due : Candidate → Bool) (d : Candidate) (queues : Queues)
    → IsFiled queues
    → Step d queues (if is_due d then migrate_one d queues else (d, queues))
migrate-Step is_due d queues h = elim (Bool-cases (is_due d)) [
  | inl due ↦ rw due (migrate_one-Step d queues h)
  | inr other ↦ rw other (record { filed = h; outcome = inl (refl, refl) })
]

-- What a loop does to documents and queues.
record Loop (ds : List Candidate) (queues : Queues) (r : List Candidate × Queues) : Type 0 where
  filed : IsFiled r.1
  customers : List Customer
  assigned : Assigned ds r.0 customers
  exact : Perm (customers ++ unused r.1) (unused queues)

migrate-Loop :
    (is_due : Candidate → Bool) (ds : List Candidate) (queues : Queues)
    → IsFiled queues
    → Loop ds queues (migrate is_due ds queues)
unfolding migrate
migrate-Loop is_due [] queues h = record {
  filed = h;
  customers = [];
  assigned = end;
  exact = Perm.refl (unused queues);
}
migrate-Loop is_due (d ∷ ds) queues h =
    let step = migrate-Step is_due d queues h in
    let here = if is_due d then migrate_one d queues else (d, queues) in
    let rest = migrate-Loop is_due ds here.1 step.filed in
    elim step.outcome [
      | inl (same, left) ↦ record {
        filed = rest.filed;
        customers = rest.customers;
        assigned = rw same (kept rest.assigned);
        exact = rw⁻¹ left rest.exact;
      }
      | inr (c, new, own, left) ↦ record {
        filed = rest.filed;
        customers = c ∷ rest.customers;
        assigned = rw new (given own rest.assigned);
        exact = Perm.trans (Perm.cons c rest.exact) left;
      }
    ]

-- The migration hands every customer of Stripe to at most one user or signup key, one that has the
-- customer's address, and changes no other document; what it hands out and what it reports as not used
-- are together all the customers, each as often as it was listed.
pub payments_migration_exact :
    (users keys : List Candidate) (customers : List Customer)
    → let (users', keys', left) = payments_migration users keys customers in
      (a : List Customer) × (b : List Customer) × Assigned users users' a
      × Assigned keys keys' b
      × Perm (a ++ (b ++ left)) customers
unfolding payments_migration unused
payments_migration_exact users keys customers =
    let first =
      migrate-Loop is_due_user users (group customers []) (group-IsFiled customers [] tt) in
    let second =
      migrate-Loop is_due_key keys (migrate is_due_user users (group customers [])).1 first.filed in
    (
      first.customers,
      second.customers,
      first.assigned,
      second.assigned,
      Perm.trans (Perm.append_left first.customers second.exact)
          (Perm.trans first.exact (rw append-nil at (unused-group customers []))),
    )
