-- ===== src/Bonuses/Tests.antt =====
-- A user with a bonus from Stripe and one for the mailing list.
use blackrock.Prelude.{◌≡◌, refl, true, none, some}
use blackrock.Prelude.Int.{pos, ◌+ℤ◌}
use blackrock.Text.{codes, text_eq}
use blackrock.Email.{after_at, strip_tag, canonicalize_email}
use blackrock.Users.{Bonus, PaymentsBonuses, find_by_id, set_bonuses, customer_id}
use blackrock.Stripe.{ok, payment_failed}
use blackrock.Bonuses.{
  is_listed, verified_emails, plan_bonus_of, add_bonus, stripe_bonus, on_mailing_list,
  is_up_to_date, update_bonuses,
}
use blackrock.Bonuses.Update.{update_bonuses_stored, IsFromStripe, AddsUp}
use blackrock.Demo.{ann, world, invoice, subscriber, demo}

abbrev both : PaymentsBonuses
both = record {
  mailing_list = true;
  metadata = record { storage = some (pos 5); compute = none; grains = none };
}

sum_of_both : (plan_bonus_of both).storage ≡ some (pos 1000000005)
unfolding add_bonus ◌+ℤ◌
sum_of_both = refl

update_bonuses_stored_example :
    let v = demo (payment_failed invoice) subscriber in
    let w' = (update_bonuses v ann world).1 in
    IsFromStripe v (some (codes "cus_1")) 0 both.metadata
    × (true ≡ is_listed (verified_emails (v.user_emails (codes "ann") 0)) world.subscribers)
    × ((plan : Bonus) × AddsUp v plan both
        × (find_by_id (codes "ann") w'.users ≡ some (set_bonuses plan both ann))
        × (update_bonuses v (set_bonuses plan both ann) w' ≡ (ok both, w')))
    × (w'.requests ≡ world.requests)
unfolding update_bonuses stripe_bonus customer_id on_mailing_list is_listed verified_emails
    canonicalize_email strip_tag after_at text_eq is_up_to_date
update_bonuses_stored_example =
    update_bonuses_stored (demo (payment_failed invoice) subscriber) ann world both refl refl
