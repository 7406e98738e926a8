-- ===== src/Offer/Offered.antt =====
-- What the migration of the bonuses has done for each user that lasts.
use blackrock.Prelude.{
  subst, ◌≡◌, refl, sym, ap, ◌∙◌, inl, inr, true, false, not, ◌||◌, some, List, [], ◌∷◌, All, arith,
}
use blackrock.Text.{text_eq}
use blackrock.Text.Laws.{text_eq_comm}
use blackrock.Users.{Bonus, customer_id, User, Subscriber, PaymentsBonuses, find_by_id, set_bonuses}
use blackrock.Users.Laws.{HasDistinctIds}
use blackrock.Stripe.{Result-cases, ok, Services}
use blackrock.Action.{World, for_each}
use blackrock.Action.Keeps.{for_each_next, for_each_stop}
use blackrock.Bonuses.{is_among, is_listed, verified_emails, update_bonuses}
use blackrock.Bonuses.Update.{update_bonuses_stored, AddsUp, IsFromStripe}
use blackrock.Mailing.{Mailchimp, update_mailchimp}
use blackrock.Offer.{lasting_users, offer_bonus, bonuses_migration}
use blackrock.Offer.Found.{AreFound, lasting_users-AreFound, lasting_users-HasDistinctIds}
use blackrock.Offer.Rounds.{
  is_noticed, still_noticed, update_bonuses_others, offer_users, offer_rest, offer_notifications,
  loop_others, loop_notified,
}

module _ {S : Type 0} (v : Services S) where
  -- A user's bonuses are stored, beside a bonus of the plan that adds up; they have what Stripe's
  -- metadata says, they count the mailing list as it is now, and a user who is not on it, and has
  -- signed up, has a notice.
  abbrev pub Offered : S → List Subscriber → World S → User → Type 0
  Offered outside subscribers w' u =
      (b : PaymentsBonuses) × ((plan : Bonus) × AddsUp v plan b
        × (find_by_id u.id w'.users ≡ some (set_bonuses plan b u)))
      × IsFromStripe v (customer_id u) outside b.metadata
      × (b.mailing_list ≡ is_listed (verified_emails (v.user_emails u.id outside)) subscribers)
      × ((b.mailing_list || (not u.has_completed_signup || is_among u.id w'.notifications)) ≡ true)

  -- One round, for a user who is stored as the loop has it.
  round_offers :
      (u : User) (w : World S)
      → find_by_id u.id w.users ≡ some u
      → (offer_bonus v u w).0 ≡ ok tt
      → Offered w.outside w.subscribers (offer_bonus v u w).1 u
  unfolding offer_bonus
  round_offers u w found done = elim (Result-cases (update_bonuses v u w).0) [
    | inr (e, failed) ↦ absurd (ground arith)
    | inl (b, updated) ↦
        let (stripe, listed, (plan, adds_up, stored, _), _) =
          update_bonuses_stored v u w b found updated in
        (
          b,
          (plan, adds_up, ap (find_by_id u.id) (offer_users v u w) ∙ stored),
          stripe,
          listed,
          rw (offer_notifications v u w b updated)
              (is_noticed b.mailing_list u.has_completed_signup u.id w.notifications),
        )
  ]

  AreFound-round :
      (u : User) (pending : List User) (w : World S)
      → All (λ other. text_eq other.id u.id ≡ false) pending
      → AreFound w.users pending
      → AreFound (offer_bonus v u w).1.users pending
  AreFound-round u [] w _ _ = tt
  AreFound-round u (x ∷ pending) w (apart, far) (found, h) = (
    ap (find_by_id x.id) (offer_users v u w)
        ∙ update_bonuses_others v u x.id w (text_eq_comm u.id x.id ∙ apart)
        ∙ found,
    AreFound-round u pending w far h,
  )

  loop_offers :
      (pending : List User) (w : World S) (outside : S) (subscribers : List Subscriber)
      → w.outside ≡ outside
      → w.subscribers ≡ subscribers
      → HasDistinctIds pending
      → AreFound w.users pending
      → (for_each (offer_bonus v) pending w).0 ≡ ok tt
      → All (Offered outside subscribers (for_each (offer_bonus v) pending w).1) pending
  loop_offers [] w _ _ _ _ _ _ done = tt
  loop_offers (u ∷ pending) w outside subscribers eo es (far, distinct) (found, stored) done =
      elim (Result-cases (offer_bonus v u w).0) [
        | inr (e, thrown) ↦
            absurd (ground (arith, for_each_stop (offer_bonus v) u pending w e thrown))
        | inl (_, one) ↦
            let step = for_each_next (offer_bonus v) u pending w one in
            let w1 = (offer_bonus v u w).1 in
            let (same_outside, same_subscribers) = offer_rest v u w in
            let rest = rw step at done in
            let (b, (plan, adds_up, now), stripe, listed, noticed) = round_offers u w found one in
            let all : All (Offered outside subscribers (for_each (offer_bonus v) pending w1).1)
                (u ∷ pending) =
              (
                (
                  b,
                  (plan, adds_up, loop_others v pending u.id w1 far rest ∙ now),
                  subst (λ o. IsFromStripe v (customer_id u) o b.metadata) eo stripe,
                  rw (eo, es) at listed,
                  still_noticed b.mailing_list u.has_completed_signup
                      (loop_notified v pending u.id w1) noticed,
                ),
                loop_offers pending w1 outside subscribers (same_outside ∙ eo)
                    (same_subscribers ∙ es) distinct (AreFound-round u pending w far stored) rest,
              ) in
            subst (λ r. All (Offered outside subscribers r.1) (u ∷ pending)) (sym step) all
      ]

  migration_step :
      (m : Mailchimp S) (w w1 : World S)
      → update_mailchimp v m w ≡ (ok tt, w1)
      → bonuses_migration v m w ≡ for_each (offer_bonus v) (lasting_users w1.users) w1
  unfolding bonuses_migration
  migration_step m w w1 synced = ground (arith, synced)

  -- Once the migration has returned, for a collection of users with distinct ids as the update from
  -- Mailchimp has left it: each user that lasts has its bonuses stored, Stripe's part as the metadata
  -- of the user's customer has it, none without a customer, and the mailing list's as the list is now;
  -- the plan's bonus has the sum of Stripe's storage and a gigabyte for those on the list, and of the
  -- other two fields Stripe's; and who is not on the list but has signed up has a notice.
  pub bonuses_migration_offers :
      (m : Mailchimp S) (w w1 : World S)
      → update_mailchimp v m w ≡ (ok tt, w1)
      → HasDistinctIds w1.users
      → (bonuses_migration v m w).0 ≡ ok tt
      → All (Offered w1.outside w1.subscribers (bonuses_migration v m w).1) (lasting_users w1.users)
  bonuses_migration_offers m w w1 synced distinct done =
      let step = migration_step m w w1 synced in
      rw step (
        loop_offers (lasting_users w1.users) w1 w1.outside w1.subscribers refl refl
          (lasting_users-HasDistinctIds w1.users distinct)
          (lasting_users-AreFound w1.users distinct) (rw step at done))
