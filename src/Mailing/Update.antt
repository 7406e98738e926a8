-- ===== src/Mailing/Update.antt =====
-- What an update from Mailchimp leaves in the package's copy of the mailing list.
use blackrock.Prelude.{
  ◌≡◌, refl, ◌∙◌, ap, Option-cases, inl, inr, Option, none, some, List, [], ◌∷◌, arith,
  if◌then◌else◌,
}
use blackrock.Text.{Text, text_eq}
use blackrock.Users.{User, Subscriber, find_by_id}
use blackrock.Stripe.{Result-cases, ok, Services}
use blackrock.Action.{World, for_each}
use blackrock.Action.Keeps.{for_each_next, for_each_stop, KeepsSubscribers, for_each_keeps}
use blackrock.Cards.{logged_in_user}
use blackrock.Bonuses.{update_bonuses, stripe_bonus}
use blackrock.Mailing.{
  Member, Members, Mailchimp, entry_of, settings, fetch, update_account, update_own_bonuses,
  update_member, update_mailchimp,
}
use blackrock.Subscribers.{find_subscriber, last_change}
use blackrock.Mailing.Store.{find_subscriber-upsert}

-- The members of an answer.
abbrev pub members_of : Members → List Member
members_of result = elim result.members [ none ↦ [] | some members ↦ members ]

-- What is stored under an address once these members are: the last one of them that has the address,
-- or else what there was.
abbrev pub synced : Text → List Member → Option Subscriber → Option Subscriber
synced email [] stored = stored
synced email (member ∷ members) stored =
    synced email members
      (if text_eq member.email_address email then some (entry_of member) else stored)

module _ {S : Type 0} (v : Services S) where
  update_bonuses-KeepsSubscribers : (user : User) → KeepsSubscribers (update_bonuses v user)
  unfolding update_bonuses stripe_bonus
  update_bonuses-KeepsSubscribers user w = ground arith

  pub update_account-KeepsSubscribers : (user : User) → KeepsSubscribers (update_account v user)
  unfolding update_account
  update_account-KeepsSubscribers user w = ground (arith, update_bonuses-KeepsSubscribers user w)

  pub update_own_bonuses-KeepsSubscribers :
      (user_id : Text) → KeepsSubscribers (update_own_bonuses v user_id)
  unfolding update_own_bonuses logged_in_user
  update_own_bonuses-KeepsSubscribers user_id w = elim (Option-cases (find_by_id user_id w.users)) [
    | inl gone ↦ ground arith
    | inr (user, found) ↦ ground (arith, update_account-KeepsSubscribers user w)
  ]

  update_account_requests :
      (user : User) (w : World S) → (update_account v user w).1.requests ≡ w.requests
  unfolding update_account update_bonuses stripe_bonus
  update_account_requests user w = ground arith

  pub update_own_bonuses_requests :
      (user_id : Text) (w : World S) → (update_own_bonuses v user_id w).1.requests ≡ w.requests
  unfolding update_own_bonuses logged_in_user
  update_own_bonuses_requests user_id w = elim (Option-cases (find_by_id user_id w.users)) [
    | inl gone ↦ ground arith
    | inr (user, found) ↦ ground (arith, update_account_requests user w)
  ]

module _ {S : Type 0} (v : Services S) (m : Mailchimp S) where
  update_member_lem :
      (member : Member) (email : Text) (w : World S)
      → find_subscriber email (update_member v m member w).1.subscribers ≡ (
          if text_eq member.email_address email
          then some (entry_of member)
          else find_subscriber email w.subscribers)
  unfolding update_member
  update_member_lem member email w =
      ap (find_subscriber email) (
        for_each_keeps (λ w'. w'.subscribers) (update_account v) (update_account-KeepsSubscribers v)
          _ _)
      ∙ find_subscriber-upsert email (entry_of member) w.subscribers

  update_members :
      (members : List Member) (email : Text) (w : World S)
      → (for_each (update_member v m) members w).0 ≡ ok tt
      → find_subscriber email (for_each (update_member v m) members w).1.subscribers
        ≡ synced email members (find_subscriber email w.subscribers)
  unfolding for_each
  update_members [] email w done = refl
  update_members (member ∷ members) email w done =
      elim (Result-cases (update_member v m member w).0) [
        | inr (e, thrown) ↦
            absurd (ground (arith, for_each_stop (update_member v m) member members w e thrown))
        | inl (_, one) ↦
            let step = for_each_next (update_member v m) member members w one in
            rw step (
              update_members members email (update_member v m member w).1 (rw step at done)
              ∙ ap (synced email members) (update_member_lem member email w))
      ]

  update_step :
      (list_id key : Text) (result : Members) (w : World S)
      → settings v m w ≡ (ok (list_id, key), w)
      → fetch v m 1 key list_id (last_change w.subscribers) 100 w ≡ (ok result, w)
      → update_mailchimp v m w ≡ for_each (update_member v m) (members_of result) w
  unfolding update_mailchimp
  update_step list_id key result w configured fetched = ground arith

  -- After an update that returns, what is stored under any address is the last member with that address
  -- in Mailchimp's answer, as the answer has it, or else what was stored before.
  pub update_mailchimp-synced :
      (list_id key : Text) (result : Members) (email : Text) (w : World S)
      → settings v m w ≡ (ok (list_id, key), w)
      → fetch v m 1 key list_id (last_change w.subscribers) 100 w ≡ (ok result, w)
      → (update_mailchimp v m w).0 ≡ ok tt
      → find_subscriber email (update_mailchimp v m w).1.subscribers
        ≡ synced email (members_of result) (find_subscriber email w.subscribers)
  update_mailchimp-synced list_id key result email w configured fetched done =
      let step = update_step list_id key result w configured fetched in
      rw step (update_members (members_of result) email w (rw step at done))
