-- ===== src/Bonuses/Update.antt =====
-- What an update of the bonuses stores, and that a second one finds nothing to write.
use blackrock.Prelude.{
  Option, none, if◌then◌else◌, Option-cases, sym, ◌∙◌, List, ◌≡◌, refl, ap, inl, inr, true, false,
  some, arith, Bool-cases,
}
use blackrock.Users.{
  update_user, User, Bonus, PaymentsBonuses, payments_of, find_by_id, customer_id, set_bonuses,
}
use blackrock.Users.Laws.{find_by_id-update_user}
use blackrock.Stripe.{Customer, Metadata, Failure, Result-cases, ok, err, Services}
use blackrock.Action.{World}
use blackrock.Prelude.Int.{ℤ, pos, ◌+ℤ◌, int_laws}
use blackrock.Text.{Text}
use blackrock.Bonuses.{
  no_bonus, add_bonus, metadata_bonus, is_up_to_date, is_listed, verified_emails, plan_bonus_of,
  stripe_bonus, on_mailing_list, update_bonuses,
}
use blackrock.Bonuses.Equal.{up_to_date-set_bonuses, set_bonuses_same}

module _ {S : Type 0} (v : Services S) where
  stripe_bonus_keeps : (user : User) (w : World S) → (stripe_bonus v user w).1 ≡ w
  unfolding stripe_bonus
  stripe_bonus_keeps user w = ground arith

  -- The bonuses found in this world, with this part of them from Stripe.
  abbrev pub found_bonuses : User → Bonus → World S → PaymentsBonuses
  found_bonuses user metadata w = record {
    mailing_list = is_listed (verified_emails (v.user_emails user.id w.outside)) w.subscribers;
    metadata = metadata;
  }

  pub update_fails :
      (user : User) (w : World S) (e : Failure)
      → (stripe_bonus v user w).0 ≡ err e
      → update_bonuses v user w ≡ (err e, w)
  unfolding update_bonuses
  update_fails user w e failed = ground (arith, stripe_bonus_keeps user w)

  pub update_current :
      (user : User) (w : World S) (m : Bonus)
      → (stripe_bonus v user w).0 ≡ ok m
      → let bonuses = found_bonuses user m w in
        is_up_to_date user (plan_bonus_of bonuses) bonuses ≡ true
        → update_bonuses v user w ≡ (ok bonuses, w)
  unfolding update_bonuses on_mailing_list
  update_current user w m e current = ground (arith, stripe_bonus_keeps user w)

  pub update_writes :
      (user : User) (w : World S) (m : Bonus)
      → (stripe_bonus v user w).0 ≡ ok m
      → let bonuses = found_bonuses user m w in
        is_up_to_date user (plan_bonus_of bonuses) bonuses ≡ false
        → update_bonuses v user w ≡ (
          ok bonuses,
          record w {
            users = update_user user.id (set_bonuses (plan_bonus_of bonuses) bonuses) w.users;
          },
        )
  unfolding update_bonuses on_mailing_list
  update_writes user w m e old = ground (arith, stripe_bonus_keeps user w)

  stripe_again :
      (user : User) (w : World S) (users : List User) (bonus m : Bonus) (bonuses : PaymentsBonuses)
      → (stripe_bonus v user w).0 ≡ ok m
      → (stripe_bonus v (set_bonuses bonus bonuses user) (record w { users = users })).0 ≡ ok m
  unfolding stripe_bonus customer_id
  stripe_again user w users bonus m bonuses e = elim (Option-cases (payments_of user).id) [
    | inl bare ↦ ground arith
    | inr (id, has) ↦ ground arith
  ]

  update_again :
      (user : User) (w : World S) (users : List User) (m : Bonus)
      → (stripe_bonus v user w).0 ≡ ok m
      → let bonuses = found_bonuses user m w in
        let w' : World S = record w { users = users } in
        update_bonuses v (set_bonuses (plan_bonus_of bonuses) bonuses user) w' ≡ (ok bonuses, w')
  update_again user w users m e =
      let bonuses = found_bonuses user m w in
      update_current (set_bonuses (plan_bonus_of bonuses) bonuses user) (record w { users = users })
        m (stripe_again user w users (plan_bonus_of bonuses) m bonuses e)
        (up_to_date-set_bonuses user (plan_bonus_of bonuses) bonuses)

  -- The part of the bonuses that Stripe's customer has: none for a user without a customer, and what
  -- the metadata says, if there is any.
  abbrev pub IsMetadata : Option Metadata → Bonus → Type 0
  IsMetadata none b = (b.storage ≡ none) × (b.compute ≡ none) × (b.grains ≡ none)
  IsMetadata (some m) b =
      (b.storage ≡ m.bonus_storage) × (b.compute ≡ m.bonus_compute) × (b.grains ≡ m.bonus_grains)

  abbrev pub IsFromStripe : Option Text → S → Bonus → Type 0
  IsFromStripe none outside b = IsMetadata none b
  IsFromStripe (some id) outside b =
      (customer : Customer) × (v.retrieve_customer id outside ≡ ok customer)
      × IsMetadata customer.metadata b

  -- A missing field counts as 0.
  abbrev pub size : Option ℤ → ℤ
  size none = pos 0
  size (some n) = n

  -- A plan's bonus has the sum of what Stripe has and the gigabyte for the mailing list, and of the
  -- other two kinds what Stripe has.
  abbrev pub AddsUp : Bonus → PaymentsBonuses → Type 0
  AddsUp plan b =
      (size plan.storage
        ≡ size b.metadata.storage +ℤ (if b.mailing_list then pos 1000000000 else pos 0))
      × (plan.compute ≡ b.metadata.compute)
      × (plan.grains ≡ b.metadata.grains)

  stripe_bonus-IsFromStripe :
      (user : User) (w : World S) {m : Bonus}
      → (stripe_bonus v user w).0 ≡ ok m
      → IsFromStripe (customer_id user) w.outside m
  unfolding stripe_bonus
  stripe_bonus-IsFromStripe user w {m} e = elim (Option-cases (customer_id user)) [
    | inl fresh ↦ let same : m ≡ no_bonus = ground arith in rw (fresh, same) (refl, refl, refl)
    | inr (id, has) ↦ rw has (elim (Result-cases (v.retrieve_customer id w.outside)) [
      | inr (failure, failed) ↦ absurd (ground arith)
      | inl (customer, known) ↦
          let same : m ≡ metadata_bonus customer = ground arith in
          (
            customer,
            known,
            rw same (elim (Option-cases customer.metadata) [
              | inl bare ↦ rw bare (refl, refl, refl)
              | inr (data', is) ↦ rw is (refl, refl, refl)
            ]),
          )
    ])
  ]

  plan_bonus_of-AddsUp : (b : PaymentsBonuses) → AddsUp (plan_bonus_of b) b
  unfolding add_bonus
  plan_bonus_of-AddsUp b = elim (Bool-cases b.mailing_list) [
    | inr unlisted ↦ rw unlisted (omega int_laws, refl, refl)
    | inl listed ↦ elim (Option-cases b.metadata.storage) [
      | inl nothing ↦ rw (listed, nothing) (omega int_laws, refl, refl)
      | inr (n, some_) ↦ rw (listed, some_) (refl, refl, refl)
    ]
  ]

  -- What is stored after an update, given the bonus from Stripe.
  stored :
      (user : User) (w : World S) (m : Bonus)
      → find_by_id user.id w.users ≡ some user
      → (stripe_bonus v user w).0 ≡ ok m
      → let bonuses = found_bonuses user m w in
        (users : List User) × (update_bonuses v user w ≡ (ok bonuses, record w { users = users }))
        × (find_by_id user.id users ≡ some (set_bonuses (plan_bonus_of bonuses) bonuses user))
  stored user w m found e =
      let bonuses = found_bonuses user m w in
      elim (Bool-cases (is_up_to_date user (plan_bonus_of bonuses) bonuses)) [
        | inl current ↦ (
          w.users,
          update_current user w m e current,
          found ∙ ap some (sym (set_bonuses_same user (plan_bonus_of bonuses) bonuses current)),
        )
        | inr old ↦ (
          update_user user.id (set_bonuses (plan_bonus_of bonuses) bonuses) w.users,
          update_writes user w m e old,
          find_by_id-update_user user.id (set_bonuses (plan_bonus_of bonuses) bonuses) w.users
              (λ u. refl) {u = user} found,
        )
      ]

  -- An update that returns, by the functions that it uses.
  pub update_bonuses-plan_bonus_of :
      (user : User) (w : World S) (bonuses : PaymentsBonuses)
      → find_by_id user.id w.users ≡ some user
      → (update_bonuses v user w).0 ≡ ok bonuses
      → let w' = (update_bonuses v user w).1 in
        let user' = set_bonuses (plan_bonus_of bonuses) bonuses user in
        (find_by_id user.id w'.users ≡ some user')
        × IsFromStripe (customer_id user) w.outside bonuses.metadata
        × (bonuses.mailing_list
            ≡ is_listed (verified_emails (v.user_emails user.id w.outside)) w.subscribers)
        × (w'.requests ≡ w.requests)
        × (update_bonuses v user' w' ≡ (ok bonuses, w'))
  update_bonuses-plan_bonus_of user w bonuses found done =
      elim (Result-cases (stripe_bonus v user w).0) [
        | inr (e, failed) ↦ absurd (ground (arith, update_fails user w e failed))
        | inl (m, e) ↦
            let (users, step, now) = stored user w m found e in
            let same : bonuses ≡ found_bonuses user m w = ground (arith, step) in
            rw (step, same)
              (now, stripe_bonus-IsFromStripe user w e, refl, refl, update_again user w users m e)
      ]

  -- After an update of a stored user's bonuses that returns: the part from Stripe is what the metadata
  -- of the user's customer says, and nothing without a customer; whether the mailing list counts is
  -- whether a verified address is subscribed; the user's document holds the bonuses that were returned,
  -- and a bonus of the plan whose storage is the sum of Stripe's and a gigabyte for the mailing list,
  -- and whose other two fields are Stripe's; nothing was requested outside; and a second update, of
  -- the document as it is then, returns the same and changes nothing.
  pub update_bonuses_stored :
      (user : User) (w : World S) (bonuses : PaymentsBonuses)
      → find_by_id user.id w.users ≡ some user
      → (update_bonuses v user w).0 ≡ ok bonuses
      → let w' = (update_bonuses v user w).1 in
        IsFromStripe (customer_id user) w.outside bonuses.metadata
        × (bonuses.mailing_list
            ≡ is_listed (verified_emails (v.user_emails user.id w.outside)) w.subscribers)
        × ((plan : Bonus) × AddsUp plan bonuses
            × (find_by_id user.id w'.users ≡ some (set_bonuses plan bonuses user))
            × (update_bonuses v (set_bonuses plan bonuses user) w' ≡ (ok bonuses, w')))
        × (w'.requests ≡ w.requests)
  update_bonuses_stored user w bonuses found done =
      let (now, stripe, listed, silent, again) =
        update_bonuses-plan_bonus_of user w bonuses found done in
      (stripe, listed, (plan_bonus_of bonuses, plan_bonus_of-AddsUp bonuses, now, again), silent)
