-- ===== src/Browser/Account/Sums.antt =====
-- The bonuses that a page shows beside the bonus that counts.
use blackrock.Prelude.{◌≡◌, refl, some}
use blackrock.Users.{User, PaymentsBonuses, find_by_id, set_bonuses}
use blackrock.Stripe.{ok, Services}
use blackrock.Action.{World}
use blackrock.Bonuses.{add_bonus, plan_bonus_of, is_listed, verified_emails, update_bonuses}
use blackrock.Bonuses.Update.{update_bonuses-plan_bonus_of}
use blackrock.Browser.Account.{my_metadata_bonus, my_mailing_list_bonus, is_on_list}

-- After the server has updated a stored user's bonuses and returned, the bonus that counts for the
-- user's plan is the sum of the two that the page shows of this document, and the page shows the user as
-- subscribed exactly if a verified address is on the mailing list.
pub shown_bonuses_sum :
    {S : Type 0} (v : Services S) (user : User) (w : World S) (bonuses : PaymentsBonuses)
    → find_by_id user.id w.users ≡ some user
    → (update_bonuses v user w).0 ≡ ok bonuses
    → (u : User) × (find_by_id user.id (update_bonuses v user w).1.users ≡ some u)
      × (u.plan_bonus ≡ some (add_bonus (my_metadata_bonus u) (my_mailing_list_bonus u)))
      × (is_on_list u ≡ is_listed (verified_emails (v.user_emails user.id w.outside)) w.subscribers)
unfolding my_metadata_bonus my_mailing_list_bonus is_on_list
shown_bonuses_sum v user w bonuses found done =
    let (stored, _, listed, _, _) = update_bonuses-plan_bonus_of v user w bonuses found done in
    (set_bonuses (plan_bonus_of bonuses) bonuses user, stored, refl, listed)
