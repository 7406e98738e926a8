-- ===== src/Offer/Tests.antt =====
-- The theorem on the migration of the bonuses at a small world.
use blackrock.Prelude.{ℕ, refl, All}
use blackrock.Text.{text_eq}
use blackrock.Stripe.{Services, payment_failed}
use blackrock.Action.{World, for_each}
use blackrock.Mailing.{update_member, fetch, settings, update_mailchimp}
use blackrock.Subscribers.{upsert, last_change}
use blackrock.Offer.{lasting_users, offer_bonus, bonuses_migration}
use blackrock.Bonuses.{update_bonuses, is_listed, verified_emails}
use blackrock.Users.{customer_id}
use blackrock.Email.{canonicalize_email}
use blackrock.Offer.Offered.{Offered, bonuses_migration_offers}
use blackrock.Demo.{world, invoice, subscriber, demo, mailchimp}

abbrev v : Services ℕ
v = demo (payment_failed invoice) subscriber

abbrev synced : World ℕ
synced = (update_mailchimp v (mailchimp 50) world).1

bonuses_migration_offers_example :
    All
      (Offered v synced.outside synced.subscribers (bonuses_migration v (mailchimp 50) world).1)
      (lasting_users synced.users)
unfolding update_mailchimp settings fetch last_change update_member upsert text_eq for_each
    bonuses_migration lasting_users offer_bonus update_bonuses customer_id is_listed verified_emails
    canonicalize_email
bonuses_migration_offers_example =
    bonuses_migration_offers v (mailchimp 50) world synced refl ((refl, tt), (tt, tt)) refl
