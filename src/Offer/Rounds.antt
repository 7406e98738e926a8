-- ===== src/Offer/Rounds.antt =====
-- One round of the migration of the bonuses, and what a later part of the loop leaves of a user.
use blackrock.Prelude.{
  ◌≡◌, refl, ap, ◌∙◌, inl, inr, Bool, true, false, not, ◌&&◌, ◌||◌, List, [], ◌∷◌, All, arith,
  Bool-cases, if◌then◌else◌,
}
use blackrock.Text.{Text, text_eq}
use blackrock.Text.Laws.{text_eq_refl}
use blackrock.Users.{User, PaymentsBonuses, find_by_id, set_bonuses}
use blackrock.Users.Laws.{find_by_id-update_user_ne}
use blackrock.Stripe.{Result-cases, ok, Services}
use blackrock.Action.{World, for_each, ◌>>=◌}
use blackrock.Action.Keeps.{for_each_next, for_each_stop}
use blackrock.Bonuses.{is_among, plan_bonus_of, is_up_to_date, stripe_bonus, update_bonuses}
use blackrock.Bonuses.Update.{found_bonuses, update_fails, update_current, update_writes}
use blackrock.Offer.{notify, notify_user, offer_bonus}

pub is_among-notify_self :
    (id : Text) (notified : List Text) → is_among id (notify id notified) ≡ true
is_among-notify_self id notified = elim (Bool-cases (is_among id notified)) [
  | inl there ↦ rw (there, there)
  | inr fresh ↦ rw fresh (rw (text_eq_refl id))
]

pub is_among-notify :
    (id other : Text) (notified : List Text)
    → is_among id notified ≡ true
    → is_among id (notify other notified) ≡ true
is_among-notify id other notified there = elim (Bool-cases (is_among other notified)) [
  | inl known ↦ rw known there
  | inr fresh ↦ rw fresh (ground (arith, there))
]

pub is_noticed :
    (listed completed : Bool) (id : Text) (notified : List Text)
    → (listed
        || (not completed
            || is_among id (if not listed && completed then notify id notified else notified)))
      ≡ true
is_noticed true completed id notified = refl
is_noticed false false id notified = refl
is_noticed false true id notified = is_among-notify_self id notified

pub still_noticed :
    (listed completed : Bool) {x y : Bool}
    → (x ≡ true → y ≡ true)
    → (listed || (not completed || x)) ≡ true
    → (listed || (not completed || y)) ≡ true
still_noticed true completed f h = refl
still_noticed false false f h = refl
still_noticed false true f h = f h

module _ {S : Type 0} (v : Services S) where
  pub update_bonuses_rest :
      (user : User) (w : World S)
      → let w' = (update_bonuses v user w).1 in
        (w'.outside ≡ w.outside)
        × (w'.subscribers ≡ w.subscribers)
        × (w'.notifications ≡ w.notifications)
  unfolding update_bonuses stripe_bonus
  update_bonuses_rest user w = (ground arith, ground arith, ground arith)

  pub update_bonuses_others :
      (user : User) (other : Text) (w : World S)
      → text_eq user.id other ≡ false
      → find_by_id other (update_bonuses v user w).1.users ≡ find_by_id other w.users
  update_bonuses_others user other w ne = elim (Result-cases (stripe_bonus v user w).0) [
    | inr (e, failed) ↦ rw (update_fails v user w e failed)
    | inl (m, known) ↦
        let bonuses = found_bonuses v user m w in
        elim (Bool-cases (is_up_to_date user (plan_bonus_of bonuses) bonuses)) [
          | inl current ↦ rw (update_current v user w m known current)
          | inr old ↦ rw (update_writes v user w m known old) (
              find_by_id-update_user_ne user.id other (set_bonuses (plan_bonus_of bonuses) bonuses)
                w.users (λ u. refl) ne)
        ]
  ]

  -- What one round leaves, whether it returns or throws.
  pub offer_users :
      (user : User) (w : World S)
      → (offer_bonus v user w).1.users ≡ (update_bonuses v user w).1.users
  unfolding offer_bonus notify_user
  offer_users user w = ground arith

  pub offer_rest :
      (user : User) (w : World S)
      → let w' = (offer_bonus v user w).1 in
        (w'.outside ≡ w.outside) × (w'.subscribers ≡ w.subscribers)
  unfolding offer_bonus notify_user
  offer_rest user w =
      (ground (arith, update_bonuses_rest user w), ground (arith, update_bonuses_rest user w))

  pub offer_notifications :
      (user : User) (w : World S) (b : PaymentsBonuses)
      → (update_bonuses v user w).0 ≡ ok b
      → (offer_bonus v user w).1.notifications ≡ (
          if not b.mailing_list && user.has_completed_signup
          then notify user.id w.notifications
          else w.notifications)
  unfolding offer_bonus notify_user
  offer_notifications user w b done =
      let (_, _, same) = update_bonuses_rest user w in
      elim (Bool-cases (not b.mailing_list && user.has_completed_signup)) [
        | inl offered ↦ rw (offer_bonus, ◌>>=◌, done, offered, same) refl
        | inr other ↦ rw (offer_bonus, ◌>>=◌, done, other) same
      ]

  pub offer_notified :
      (user : User) (id : Text) (w : World S)
      → is_among id w.notifications ≡ true
      → is_among id (offer_bonus v user w).1.notifications ≡ true
  unfolding offer_bonus
  offer_notified user id w there = elim (Result-cases (update_bonuses v user w).0) [
    | inr (e, failed) ↦ ground (arith, update_bonuses_rest user w)
    | inl (b, done) ↦
        let step = offer_notifications user w b done in
        elim (Bool-cases (not b.mailing_list && user.has_completed_signup)) [
          | inl offered ↦ rw (step, offered) (is_among-notify id user.id w.notifications there)
          | inr other ↦ rw (step, other) there
        ]
  ]

  -- What a later part of the loop leaves of a user whom it is not about.
  pub loop_others :
      (pending : List User) (id : Text) (w : World S)
      → All (λ other. text_eq other.id id ≡ false) pending
      → (for_each (offer_bonus v) pending w).0 ≡ ok tt
      → let w' = (for_each (offer_bonus v) pending w).1 in
        (find_by_id id w'.users ≡ find_by_id id w.users)
  loop_others [] id w _ done = unfold for_each in refl
  loop_others (u ∷ pending) id w (apart, far) done = elim (Result-cases (offer_bonus v u w).0) [
    | inr (e, thrown) ↦ absurd (ground (arith, for_each_stop (offer_bonus v) u pending w e thrown))
    | inl (_, one) ↦
        let step = for_each_next (offer_bonus v) u pending w one in
        rw step (
          loop_others pending id (offer_bonus v u w).1 far (rw step at done)
          ∙ ap (find_by_id id) (offer_users u w)
          ∙ update_bonuses_others u id w apart)
  ]

  pub loop_notified :
      (pending : List User) (id : Text) (w : World S)
      → is_among id w.notifications ≡ true
      → is_among id (for_each (offer_bonus v) pending w).1.notifications ≡ true
  loop_notified [] id w there = unfold for_each in there
  loop_notified (u ∷ pending) id w there = elim (Result-cases (offer_bonus v u w).0) [
    | inr (e, thrown) ↦
        rw (for_each_stop (offer_bonus v) u pending w e thrown) (offer_notified u id w there)
    | inl (_, one) ↦
        rw (for_each_next (offer_bonus v) u pending w one)
          (loop_notified pending id (offer_bonus v u w).1 (offer_notified u id w there))
  ]
