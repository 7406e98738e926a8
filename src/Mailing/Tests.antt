-- ===== src/Mailing/Tests.antt =====
-- The theorems on the mailing list at a small list with a key.
use mathlib.Core.List.{Permᴰ}
use blackrock.Mailing.Directory.{directory, sync, update_mailchimp_order}
use blackrock.Prelude.{List, ℕ, ◌≡◌, refl, false, none, some, [], ◌∷◌, map}
use blackrock.Text.{codes, text_eq, split}
use blackrock.Text.Decimal.{decimal}
use blackrock.Email.{canonicalize_email, strip_tag, after_at}
use blackrock.Users.{customer_id}
use blackrock.Stripe.{ok, payment_failed, Services}
use blackrock.Action.{for_each}
use blackrock.Bonuses.{is_listed, verified_emails, update_bonuses, stripe_bonus, on_mailing_list}
use blackrock.Cards.{logged_in_user}
use blackrock.Mailing.{
  Mailchimp, Member, mailchimp_date, members_url, fetch, settings, update_member, update_account,
  update_own_bonuses, update_mailchimp, unsubscribe_entry, unsubscribe_mailing_list,
}
use blackrock.Subscribers.{last_change, upsert, subscribed_entries, update_subscriber}
use blackrock.Mailing.Store.{cleared}
use blackrock.Mailing.Unsubscribe.{unsubscribe_mailing_list_clears}
use blackrock.Demo.{ann, world, invoice, subscriber, demo, bea, mailchimp}

abbrev v : Services ℕ
v = demo (payment_failed invoice) subscriber

date : mailchimp_date (codes "2016-05-04T03:02:01.000Z") ≡ codes "2016-05-04 03:02:01"
unfolding mailchimp_date
date = refl

url :
    members_url (codes "key-us1") (codes "list") none 100
    ≡ codes
        "https://us1.api.mailchimp.com/3.0/lists/list/members?fields=total_items,members.email_address,members.status,members.last_changed&count=100"
unfolding members_url split decimal
url = refl

unsubscribe_mailing_list_clears_example :
    let emails = verified_emails (v.user_emails (codes "ann") 0) in
    let w' = (unsubscribe_mailing_list v (mailchimp 50) (codes "ann") world).1 in
    (w'.subscribers ≡ map (cleared emails) world.subscribers)
    × (is_listed emails w'.subscribers ≡ false)
unfolding unsubscribe_mailing_list settings logged_in_user subscribed_entries verified_emails
    canonicalize_email strip_tag after_at text_eq for_each unsubscribe_entry update_own_bonuses
    update_account update_bonuses stripe_bonus on_mailing_list update_subscriber is_listed
    customer_id
unsubscribe_mailing_list_clears_example =
    unsubscribe_mailing_list_clears v (mailchimp 50) (codes "list") (codes "key-us1") (codes "ann")
      ann world refl refl (tt, tt) refl

abbrev cid : Member
cid = record bea { email_address = codes "cid@example.org" }

-- A Mailchimp that answers with these members.
abbrev answering_with : List Member → Mailchimp ℕ
answering_with members = record (mailchimp 50) {
  get = λ _ _ _. ok (record { total_items = 2; members = some members });
}

update_mailchimp_order_example :
    let one = answering_with (bea ∷ cid ∷ []) in
    let other = answering_with (cid ∷ bea ∷ []) in
    (directory (update_mailchimp v one world).1.subscribers
      ≡ sync (bea ∷ cid ∷ []) (directory world.subscribers))
    × (directory (update_mailchimp v one world).1.subscribers
        ≡ directory (update_mailchimp v other world).1.subscribers)
unfolding update_mailchimp settings fetch last_change update_member upsert text_eq for_each
update_mailchimp_order_example =
    update_mailchimp_order v (answering_with (bea ∷ cid ∷ [])) (answering_with (cid ∷ bea ∷ []))
      (codes "list") (codes "key-us1") (record { total_items = 2; members = some (bea ∷ cid ∷ []) })
      (record { total_items = 2; members = some (cid ∷ bea ∷ []) }) world world refl refl refl refl
      refl refl refl ∣ Permᴰ.swap refl refl ∣₁ ((refl, tt), (tt, tt))
