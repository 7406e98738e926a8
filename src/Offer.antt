-- ===== src/Offer.antt =====
-- `bonusesMigrationHook` of shell/packages/blackrock-payments/payments-server.js: the bonuses of all
-- accounts that last, and a notice for those who have no bonus for the mailing list yet. Notices are
-- without their timestamps.
pub mod Keeps
pub mod Found
pub mod Rounds
pub mod Offered
mod Tests
use blackrock.Prelude.{not, ◌&&◌, List, [], ◌∷◌, if◌then◌else◌}
use blackrock.Text.{Text}
use blackrock.Users.{User}
use blackrock.Stripe.{Services, ok}
use blackrock.Action.{Action, pure, gets_users, for_each, ◌>>=◌, ◌>>◌}
use blackrock.Bonuses.{is_among, update_bonuses}
use blackrock.Mailing.{Mailchimp, update_mailchimp}

-- `{loginIdentities: {$exists: true}, expires: {$exists: false}}`
unfoldable pub lasting_users : List User → List User
lasting_users [] = []
lasting_users (u ∷ users) =
    if u.has_identities && not u.expires then u ∷ lasting_users users else lasting_users users

-- `Notifications.upsert({userId, mailingListBonus: true}, …)`
abbrev pub notify : Text → List Text → List Text
notify id notified = if is_among id notified then notified else id ∷ notified

module _ {S : Type 0} (v : Services S) where
  unfoldable pub notify_user : Text → Action S (Unit {0})
  notify_user id w = (ok tt, record w { notifications = notify id w.notifications })

  unfoldable pub offer_bonus : User → Action S (Unit {0})
  offer_bonus user = do
    bonuses ← update_bonuses v user
    if not bonuses.mailing_list && user.has_completed_signup then notify_user user.id else pure tt

  unfoldable pub bonuses_migration : Mailchimp S → Action S (Unit {0})
  bonuses_migration m = do
    update_mailchimp v m
    users ← gets_users lasting_users
    for_each offer_bonus users
