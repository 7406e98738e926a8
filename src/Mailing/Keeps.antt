-- ===== src/Mailing/Keeps.antt =====
-- What the methods of the mailing list leave as it is: every view of the users that shows no bonus.
use blackrock.Mailing.Subscribe.{method_step, subscribe_request}
use blackrock.Bonuses.{verified_emails}
use blackrock.Mailing.Update.{members_of}
use blackrock.Prelude.{
  ◌+◌, leb, Bool-cases, List-cases, ℕ, ◌≡◌, zero, suc, refl, inl, inr, Option, none, some, List,
  arith, Option-cases,
}
use blackrock.Text.{Text}
use blackrock.Users.{Subscriber, User, Bonus, PaymentsBonuses, set_bonuses, update_user, find_by_id}
use blackrock.Stripe.{type_error, ok, err, Result-cases, Services}
use blackrock.Action.{World, Action, for_each, perform, set_subscribers, ◌>>◌}
use blackrock.Action.Keeps.{then-Keeps, Keeps, for_each_keeps}
use blackrock.Bonuses.Keeps.{update_bonuses-Keeps}
use blackrock.Cards.{logged_in_user}
use blackrock.Mailing.{
  members_url, authorization, primary_emails, Mailchimp, Member, settings, fetch, update_account,
  update_own_bonuses, update_member, update_mailchimp, unsubscribe_entry, unsubscribe_mailing_list,
  subscribe_mailing_list,
}
use blackrock.Subscribers.{subscribed_entry, new_entry, upsert, subscribed_entries, last_change}

-- Where only the settings, Mailchimp's list and the session are read.
module _ {S : Type 0} (v : Services S) (m : Mailchimp S) where
  settings_same : (w : World S) → (settings v m w).1 ≡ w
  unfolding settings
  settings_same w = ground arith

  fetch_same :
      (tries : ℕ) (key list_id : Text) (since : Option Text) (count : ℕ) (w : World S)
      → (fetch v m tries key list_id since count w).1 ≡ w
  unfolding fetch
  fetch_same zero key list_id since count w = ground arith
  fetch_same (suc tries) key list_id since count w =
      elim (Result-cases
        (m.get (members_url key list_id since count) (authorization key) w.outside)) [
          | inr (e, failed) ↦ ground arith
          | inl (r, answered) ↦ elim (Bool-cases (leb r.total_items count)) [
            | inl enough ↦ ground arith
            | inr more ↦ ground (arith, fetch_same tries key list_id since (r.total_items + 100) w)
          ]
        ]

  logged_in_user_same : (user_id : Text) (w : World S) → (logged_in_user v user_id w).1 ≡ w
  unfolding logged_in_user
  logged_in_user_same user_id w = ground arith

  settings_ready :
      (w : World S) (found : Text × Text)
      → (settings v m w).0 ≡ ok found
      → settings v m w ≡ (ok found, w)
  settings_ready w found configured = ground (arith, settings_same w)

  logged_in_user_gone :
      (user_id : Text) (w : World S)
      → find_by_id user_id w.users ≡ none
      → logged_in_user v user_id w ≡ (err type_error, w)
  unfolding logged_in_user
  logged_in_user_gone user_id w gone = ground arith

  logged_in_user_found :
      (user_id : Text) (w : World S) (user : User)
      → find_by_id user_id w.users ≡ some user
      → logged_in_user v user_id w ≡ (ok user, w)
  unfolding logged_in_user
  logged_in_user_found user_id w user found = ground arith

module _ {S B : Type 0} (v : Services S) (m : Mailchimp S) (view : List User → B)
    (keep : (id : Text) (bonus : Bonus) (bonuses : PaymentsBonuses) (users : List User)
      → view (update_user id (set_bonuses bonus bonuses) users) ≡ view users) where
  -- What the collection of users shows.
  abbrev shown : World S → B
  shown w = view w.users

  update_account-Keeps : (user : User) → Keeps shown (update_account v user)
  unfolding update_account
  update_account-Keeps user w = ground (arith, update_bonuses-Keeps v view keep user w)

  update_own_bonuses-Keeps : (user_id : Text) → Keeps shown (update_own_bonuses v user_id)
  unfolding update_own_bonuses logged_in_user
  update_own_bonuses-Keeps user_id w = elim (Option-cases (find_by_id user_id w.users)) [
    | inl gone ↦ ground arith
    | inr (user, found) ↦ ground (arith, update_account-Keeps user w)
  ]

  update_member-Keeps : (member : Member) → Keeps shown (update_member v m member)
  unfolding update_member
  update_member-Keeps member w = for_each_keeps shown (update_account v) update_account-Keeps _ _

  pub update_mailchimp-Keeps : Keeps shown (update_mailchimp v m)
  unfolding update_mailchimp
  update_mailchimp-Keeps w = elim (Result-cases (settings v m w).0) [
    | inr (e, thrown) ↦ ground (arith, settings_same v m w)
    | inl ((list_id, key), configured) ↦
        let since = last_change w.subscribers in
        elim (Result-cases (fetch v m 1 key list_id since 100 w).0) [
          | inr (e, thrown) ↦
              ground (arith, settings_same v m w, fetch_same v m 1 key list_id since 100 w)
          | inl (result, fetched) ↦ ground (
            arith,
            settings_same v m w,
            fetch_same v m 1 key list_id since 100 w,
            for_each_keeps shown (update_member v m) update_member-Keeps (members_of result) w,
          )
        ]
  ]

  unsubscribe_entry-Keeps :
      (key list_id : Text) (s : Subscriber) → Keeps shown (unsubscribe_entry v m key list_id s)
  unfolding unsubscribe_entry
  unsubscribe_entry-Keeps key list_id s w = ground arith

  -- The end of both methods: some writes elsewhere, then the bonuses.
  then_bonuses-Keeps :
      (before : Action S (Unit {0})) (user_id : Text)
      → Keeps shown before
      → Keeps shown (before >> update_own_bonuses v user_id)
  then_bonuses-Keeps before user_id same =
      then-Keeps shown before (update_own_bonuses v user_id) same (update_own_bonuses-Keeps user_id)

  pub unsubscribe_mailing_list-Keeps :
      (user_id : Text) → Keeps shown (unsubscribe_mailing_list v m user_id)
  unfolding unsubscribe_mailing_list
  unsubscribe_mailing_list-Keeps user_id w = elim (Result-cases (settings v m w).0) [
    | inr (e, thrown) ↦ ground (arith, settings_same v m w)
    | inl ((list_id, key), configured) ↦ elim (Result-cases (logged_in_user v user_id w).0) [
      | inr (e, thrown) ↦ ground (arith, settings_same v m w, logged_in_user_same v m user_id w)
      | inl (user, found) ↦
          let entries =
            subscribed_entries (verified_emails (v.user_emails user.id w.outside)) w.subscribers in
          ground (
            arith,
            settings_same v m w,
            logged_in_user_same v m user_id w,
            then_bonuses-Keeps (for_each (unsubscribe_entry v m key list_id) entries) user_id
                (for_each_keeps shown (unsubscribe_entry v m key list_id)
                  (unsubscribe_entry-Keeps key list_id) entries)
                w,
          )
    ]
  ]

  pub subscribe_mailing_list-Keeps :
      (user_id : Text) → Keeps shown (subscribe_mailing_list v m user_id)
  unfolding subscribe_mailing_list
  subscribe_mailing_list-Keeps user_id w = elim (Result-cases (settings v m w).0) [
    | inr (e, thrown) ↦ ground (arith, settings_same v m w)
    | inl ((list_id, key), configured) ↦ elim (Option-cases (find_by_id user_id w.users)) [
      | inl gone ↦ ground (arith, settings_same v m w, logged_in_user_gone v m user_id w gone)
      | inr (user, found) ↦
          let ready = settings_ready v m w (list_id, key) configured in
          elim (List-cases (primary_emails (v.user_emails user.id w.outside))) [
            | inl nowhere ↦ ground (arith, ready, logged_in_user_found v m user_id w user found)
            | inr (email, rest, primary) ↦
                let r = subscribe_request v m list_id key email w.subscribers in
                rw (method_step v m list_id key user_id email rest user w ready found primary) (
                  then-Keeps shown (perform r v.request)
                    (set_subscribers (upsert email (subscribed_entry email) (new_entry email))
                      >> update_own_bonuses v user_id)
                    (λ w'. refl)
                    (then_bonuses-Keeps
                      (set_subscribers (upsert email (subscribed_entry email) (new_entry email)))
                      user_id λ w'. refl)
                    w)
          ]
    ]
  ]
