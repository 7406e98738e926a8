-- ===== src/Mailing/Unsubscribe.antt =====
-- What leaving the mailing list does to the package's copy of it.
use blackrock.Prelude.{◌≡◌, refl, ◌∙◌, ap, inl, inr, false, some, List, [], ◌∷◌, map, arith}
use blackrock.Text.{Text}
use blackrock.Users.{User, Subscriber, find_by_id}
use blackrock.Stripe.{Result-cases, ok, Services}
use blackrock.Action.{World, for_each, ◌>>◌}
use blackrock.Action.Keeps.{for_each_next, for_each_stop}
use blackrock.Bonuses.{is_listed, verified_emails}
use blackrock.Cards.{logged_in_user}
use blackrock.Mailing.{
  Mailchimp, settings, unsubscribe_entry, unsubscribe_mailing_list, update_own_bonuses,
}
use blackrock.Subscribers.{subscribed_entries}
use blackrock.Mailing.Store.{
  HasDistinctEmails, unsubscribe_all, cleared, unsubscribe_all-subscribed_entries,
  is_listed-cleared,
}
use blackrock.Mailing.Update.{update_own_bonuses-KeepsSubscribers}

module _ {S : Type 0} (v : Services S) (m : Mailchimp S) (list_id key : Text) where
  entry_subscribers :
      (s : Subscriber) (w : World S)
      → (unsubscribe_entry v m key list_id s w).0 ≡ ok tt
      → (unsubscribe_entry v m key list_id s w).1.subscribers
        ≡ unsubscribe_all (s ∷ []) w.subscribers
  unfolding unsubscribe_entry
  entry_subscribers s w done = ground arith

  entries_subscribers :
      (entries : List Subscriber) (w : World S)
      → (for_each (unsubscribe_entry v m key list_id) entries w).0 ≡ ok tt
      → (for_each (unsubscribe_entry v m key list_id) entries w).1.subscribers
        ≡ unsubscribe_all entries w.subscribers
  unfolding for_each
  entries_subscribers [] w done = refl
  entries_subscribers (s ∷ entries) w done =
      let round = unsubscribe_entry v m key list_id in
      elim (Result-cases (unsubscribe_entry v m key list_id s w).0) [
        | inr (e, thrown) ↦
            absurd (
              ground
                (arith, for_each_stop (unsubscribe_entry v m key list_id) s entries w e thrown))
        | inl (_, one) ↦
            let step = for_each_next (unsubscribe_entry v m key list_id) s entries w one in
            rw step (
              entries_subscribers entries (unsubscribe_entry v m key list_id s w).1
                (rw step at done)
              ∙ ap (unsubscribe_all entries) (entry_subscribers s w one))
      ]

  method_step :
      (user_id : Text) (user : User) (w : World S)
      → settings v m w ≡ (ok (list_id, key), w)
      → find_by_id user_id w.users ≡ some user
      → unsubscribe_mailing_list v m user_id w
        ≡ (for_each (unsubscribe_entry v m key list_id) (
                subscribed_entries
                  (verified_emails (v.user_emails user.id w.outside))
                  w.subscribers)
              >> update_own_bonuses v user_id)
            w
  unfolding unsubscribe_mailing_list logged_in_user
  method_step user_id user w configured found = ground arith

  loop_then_finish :
      (user_id : Text) (entries : List Subscriber) (w : World S)
      → let loop = for_each (unsubscribe_entry v m key list_id) entries in
        ((loop >> update_own_bonuses v user_id) w).0 ≡ ok tt
        → ((loop >> update_own_bonuses v user_id) w).1.subscribers
          ≡ unsubscribe_all entries w.subscribers
  loop_then_finish user_id entries w done =
      elim (Result-cases (for_each (unsubscribe_entry v m key list_id) entries w).0) [
        | inr (e, thrown) ↦ absurd (ground arith)
        | inl (_, all) ↦ ground (
          arith,
          update_own_bonuses-KeepsSubscribers v user_id
              (for_each (unsubscribe_entry v m key list_id) entries w).1,
          entries_subscribers entries w all,
        )
      ]

  -- After a user has unsubscribed and the method has returned, the entries that were subscribed under a
  -- verified address of the user are not subscribed any more, all other entries are as before, and so
  -- none of these addresses counts for the bonus; if no two entries share an address.
  pub unsubscribe_mailing_list_clears :
      (user_id : Text) (user : User) (w : World S)
      → settings v m w ≡ (ok (list_id, key), w)
      → find_by_id user_id w.users ≡ some user
      → HasDistinctEmails w.subscribers
      → (unsubscribe_mailing_list v m user_id w).0 ≡ ok tt
      → let emails = verified_emails (v.user_emails user.id w.outside) in
        let w' = (unsubscribe_mailing_list v m user_id w).1 in
        (w'.subscribers ≡ map (cleared emails) w.subscribers)
        × (is_listed emails w'.subscribers ≡ false)
  unsubscribe_mailing_list_clears user_id user w configured found distinct done =
      let emails = verified_emails (v.user_emails user.id w.outside) in
      let step = method_step user_id user w configured found in
      let all : (unsubscribe_mailing_list v m user_id w).1.subscribers
          ≡ map (cleared emails) w.subscribers =
        rw step (
          loop_then_finish user_id (subscribed_entries emails w.subscribers) w (rw step at done)
          ∙ unsubscribe_all-subscribed_entries emails w.subscribers distinct) in
      (all, ap (is_listed emails) all ∙ is_listed-cleared emails w.subscribers)
