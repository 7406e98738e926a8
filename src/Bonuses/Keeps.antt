-- ===== src/Bonuses/Keeps.antt =====
-- What the updates of the bonuses leave as it is: every view of the users that shows no bonus.
use blackrock.Prelude.{
  ◌≡◌, refl, inl, inr, Option, none, some, List, arith, Bool-cases, Option-cases,
}
use blackrock.Text.{Text}
use blackrock.Users.{User, Bonus, PaymentsBonuses, set_bonuses, update_user, find_by_id}
use blackrock.Stripe.{Result-cases, Services}
use blackrock.Action.Keeps.{Keeps}
use blackrock.Bonuses.{is_up_to_date, plan_bonus_of, update_bonuses, my_bonuses, stripe_bonus}
use blackrock.Bonuses.Update.{found_bonuses, update_current, update_writes, update_fails}

module _ {S B : Type 0} (v : Services S) (view : List User → B)
    (keep : (id : Text) (bonus : Bonus) (bonuses : PaymentsBonuses) (users : List User)
      → view (update_user id (set_bonuses bonus bonuses) users) ≡ view users) where
  pub update_bonuses-Keeps : (user : User) → Keeps (λ w. view w.users) (update_bonuses v user)
  update_bonuses-Keeps user w = elim (Result-cases (stripe_bonus v user w).0) [
    | inr (e, failed) ↦ rw (update_fails v user w e failed)
    | inl (m, known) ↦
        let bonuses = found_bonuses v user m w in
        elim (Bool-cases (is_up_to_date user (plan_bonus_of bonuses) bonuses)) [
          | inl current ↦ rw (update_current v user w m known current)
          | inr old ↦
              rw (update_writes v user w m known old)
                (keep user.id (plan_bonus_of bonuses) bonuses w.users)
        ]
  ]

  pub my_bonuses-Keeps : (session : Option Text) → Keeps (λ w. view w.users) (my_bonuses v session)
  unfolding my_bonuses
  my_bonuses-Keeps none w = refl
  my_bonuses-Keeps (some user_id) w = elim (Option-cases (find_by_id user_id w.users)) [
    | inl gone ↦ ground arith
    | inr (user, found) ↦ elim (Result-cases (update_bonuses v user w).0) [
      | inl (bonuses, done) ↦ ground (arith, update_bonuses-Keeps user w)
      | inr (e, thrown) ↦ ground (arith, update_bonuses-Keeps user w)
    ]
  ]
