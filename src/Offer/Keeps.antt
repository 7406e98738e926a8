-- ===== src/Offer/Keeps.antt =====
-- What the migration of the bonuses leaves as it is: every view of the users that shows no bonus.
use blackrock.Prelude.{◌≡◌, inl, inr, List, arith}
use blackrock.Text.{Text}
use blackrock.Users.{User, Bonus, PaymentsBonuses, set_bonuses, update_user}
use blackrock.Stripe.{Result-cases, Services}
use blackrock.Action.Keeps.{Keeps, for_each_keeps}
use blackrock.Bonuses.{update_bonuses}
use blackrock.Bonuses.Keeps.{update_bonuses-Keeps}
use blackrock.Mailing.{Mailchimp, update_mailchimp}
use blackrock.Mailing.Keeps.{update_mailchimp-Keeps}
use blackrock.Offer.{lasting_users, notify_user, offer_bonus, bonuses_migration}

module _ {S B : Type 0} (v : Services S) (m : Mailchimp S) (view : List User → B)
    (keep : (id : Text) (bonus : Bonus) (bonuses : PaymentsBonuses) (users : List User)
      → view (update_user id (set_bonuses bonus bonuses) users) ≡ view users) where
  offer_bonus-Keeps : (user : User) → Keeps (λ w. view w.users) (offer_bonus v user)
  unfolding offer_bonus notify_user
  offer_bonus-Keeps user w = elim (Result-cases (update_bonuses v user w).0) [
    | inl (bonuses, done) ↦ ground (arith, update_bonuses-Keeps v view keep user w)
    | inr (e, thrown) ↦ ground (arith, update_bonuses-Keeps v view keep user w)
  ]

  pub bonuses_migration-Keeps : Keeps (λ w. view w.users) (bonuses_migration v m)
  unfolding bonuses_migration
  bonuses_migration-Keeps w = elim (Result-cases (update_mailchimp v m w).0) [
    | inr (e, thrown) ↦ ground (arith, update_mailchimp-Keeps v m view keep w)
    | inl (_, synced) ↦
        let w' = (update_mailchimp v m w).1 in
        ground (
          arith,
          update_mailchimp-Keeps v m view keep w,
          for_each_keeps (λ w. view w.users) (offer_bonus v) offer_bonus-Keeps
              (lasting_users w'.users) w',
        )
  ]
