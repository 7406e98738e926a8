-- ===== src/Mailing.antt =====
-- The mailing list in shell/packages/blackrock-payments/payments-server.js: `updateMailchimp`,
-- `processMailchimpWebhook`, and the methods `subscribeMailingList` and `unsubscribeMailingList` of a
-- user who is logged in. A date is its ISO form, whose order is that of time. Log output is left out.
pub mod Store
pub mod Fetch
pub mod Update
pub mod Directory
pub mod Unsubscribe
pub mod Subscribe
pub mod Keeps
mod Tests
use blackrock.Prelude.{
  ℕ, zero, suc, ◌+◌, Bool, true, false, ◌&&◌, ◌||◌, leb, Option, none, some, List, [], ◌∷◌, ◌++◌,
  if◌then◌else◌,
}
use blackrock.Text.{Text, codes, text_eq, text_lt, is_truthy, split, slice}
use blackrock.Text.Decimal.{decimal}
use blackrock.Email.{canonicalize_email}
use blackrock.Users.{User, Subscriber, PaymentsBonuses}
use blackrock.Stripe.{
  Failure, meteor_error, plain_error, too_many_results, Result, ok, err, EmailEntry, Request,
  mailchimp_patch, mailchimp_put, Services,
}
use blackrock.Action.{
  World, Action, pure, throw, read, gets_outside, gets_users, gets_subscribers, perform, for_each,
  set_subscribers, ◌>>=◌, ◌>>◌,
}
use blackrock.Bonuses.{is_among, verified_emails, update_bonuses}
use blackrock.Subscribers.{
  last_change, upsert, update_subscriber, find_subscriber, subscribed_entries, unsubscribe,
  subscribed_entry, new_entry,
}
use blackrock.Cards.{logged_in_user}

-- An element of `members`, of which `check` says that all three are strings.
pub record Member : Type 0 where
  pub email_address : Text
  pub status : Text
  -- the ISO form of the date that it stands for
  pub last_changed : Text

-- `result.data`
pub record Members : Type 0 where
  pub total_items : ℕ
  pub members : Option (List Member)

-- What the code uses of Mailchimp, of md5 (in hexadecimal), of the settings, and of
-- `db.findAccountsByEmail`, which finds the documents of the users with an address.
pub record Mailchimp (S : Type 0) : Type 0 where
  pub list_id : Option Text
  pub key : Option Text
  pub md5 : Text → Text
  -- `HTTP.get`, by its URL and the header "Authorization"
  pub get : Text → Text → S → Result Members
  pub accounts_by_email : Text → S → List User → List User

-- `key.split("-")[1]`, in the middle of a text
abbrev pub shard_of : Text → Text
shard_of key = elim (split b'-' key) [ _ ∷ shard ∷ _ ↦ shard | _ ↦ codes "undefined" ]

abbrev pub lists_url : Text → Text → Text
lists_url key list_id =
    codes "https://" ++ (shard_of key ++ (codes ".api.mailchimp.com/3.0/lists/" ++ list_id))

-- `YYYY-MM-DD HH:mm:ss`
pub mailchimp_date : Text → Text
unfolding slice
mailchimp_date iso = slice 0 10 iso ++ (codes " " ++ slice 11 19 iso)

-- The URL of an update; only a date that is there limits it.
unfoldable pub members_url : Text → Text → Option Text → ℕ → Text
unfolding mailchimp_date
members_url key list_id since count =
    lists_url key list_id
    ++ (codes
          "/members?fields=total_items,members.email_address,members.status,members.last_changed"
        ++ (codes "&count="
            ++ (decimal count ++ (elim since [
              | none ↦ []
              | some date ↦ codes "&since_last_changed=" ++ mailchimp_date date
            ]))))

abbrev pub authorization : Text → Text
authorization key = codes "apikey " ++ key

-- The entry of a member, as Mailchimp has it now.
abbrev pub entry_of : Member → Subscriber
entry_of member = record {
  email = member.email_address;
  canonical = canonicalize_email member.email_address;
  subscribed = text_eq member.status (codes "subscribed");
  last_changed = some member.last_changed;
}

abbrev pub primary_emails : List EmailEntry → List Text
primary_emails [] = []
primary_emails (entry ∷ entries) =
    if entry.primary then entry.email ∷ primary_emails entries else primary_emails entries

module _ {S : Type 0} (m : Mailchimp S) where
  -- The URL of one member.
  abbrev pub member_url : Text → Text → Text → Text
  member_url key list_id email = lists_url key list_id ++ (codes "/members/" ++ m.md5 email)

module _ {S : Type 0} (v : Services S) where
  unfoldable pub update_account : User → Action S (Unit {0})
  update_account user = update_bonuses v user >> pure tt

  -- `updateBonuses(Meteor.user())`
  unfoldable pub update_own_bonuses : Text → Action S (Unit {0})
  update_own_bonuses user_id = do user ← logged_in_user v user_id; update_account user

module _ {S : Type 0} (v : Services S) (m : Mailchimp S) where
  -- The list's id and the key, where both are there and not empty.
  unfoldable pub settings : Action S (Text × Text)
  settings = elim m.list_id [
    | none ↦ throw (plain_error "Mailchimp not configured!")
    | some list_id ↦ elim m.key [
      | none ↦ throw (plain_error "Mailchimp not configured!")
      | some key ↦
          if is_truthy list_id && is_truthy key
          then pure (list_id, key)
          else throw (plain_error "Mailchimp not configured!")
    ]
  ]

  -- The loop: the flag `retry` is the number of tries that are left.
  unfoldable pub fetch : ℕ → Text → Text → Option Text → ℕ → Action S Members
  fetch zero key list_id since count = do
    result ← read (m.get (members_url key list_id since count) (authorization key))
    if leb result.total_items count
        then pure result
        else throw (too_many_results result.total_items count)
  fetch (suc tries) key list_id since count = do
    result ← read (m.get (members_url key list_id since count) (authorization key))
    elim (leb result.total_items count) [
      | true ↦ pure result
      | false ↦ fetch tries key list_id since (result.total_items + 100)
    ]

  unfoldable pub update_member : Member → Action S (Unit {0})
  update_member member = do
    set_subscribers (upsert member.email_address (λ s. entry_of member) (entry_of member))
    outside ← gets_outside (λ s. s)
    accounts ← gets_users (m.accounts_by_email member.email_address outside)
    for_each (update_account v) accounts

  unfoldable pub update_mailchimp : Action S (Unit {0})
  update_mailchimp = do
    (list_id, key) ← settings
    since ← gets_subscribers last_change
    result ← fetch 1 key list_id since 100
    for_each update_member (elim result.members [ none ↦ [] | some members ↦ members ])

  unfoldable pub unsubscribe_entry : Text → Text → Subscriber → Action S (Unit {0})
  unsubscribe_entry key list_id entry = do
    perform (mailchimp_patch (member_url m key list_id entry.email) (codes "unsubscribed"))
        v.request
    set_subscribers (update_subscriber entry.email unsubscribe)

  unfoldable pub unsubscribe_mailing_list : Text → Action S (Unit {0})
  unsubscribe_mailing_list user_id = do
    (list_id, key) ← settings
    user ← logged_in_user v user_id
    entries ← gets_outside (v.user_emails user.id)
    found ← gets_subscribers (subscribed_entries (verified_emails entries))
    for_each (unsubscribe_entry key list_id) found
    update_own_bonuses v user_id

  unfoldable pub subscribe_mailing_list : Text → Action S (Unit {0})
  subscribe_mailing_list user_id = do
    (list_id, key) ← settings
    user ← logged_in_user v user_id
    entries ← gets_outside (v.user_emails user.id)
    elim (primary_emails entries) [
      | [] ↦ throw (meteor_error 400 "User has no verified email addresses to subscribe.")
      | email ∷ _ ↦ do
        found ← gets_subscribers (find_subscriber email)
        elim found [
          | some _ ↦
              perform (mailchimp_patch (member_url m key list_id email) (codes "subscribed"))
                v.request
          | none ↦
              perform (mailchimp_put (member_url m key list_id email) email (codes "subscribed"))
                v.request
        ]
        set_subscribers (upsert email (subscribed_entry email) (new_entry email))
        update_own_bonuses v user_id
    ]
