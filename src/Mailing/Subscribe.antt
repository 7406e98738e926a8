-- ===== src/Mailing/Subscribe.antt =====
-- What joining the mailing list asks of Mailchimp, and what it leaves in the package's copy.
use blackrock.Prelude.{◌≡◌, refl, inl, inr, true, none, some, List, ◌∷◌, arith, Option-cases}
use blackrock.Text.{Text, codes}
use blackrock.Email.{canonicalize_email}
use blackrock.Users.{User, Subscriber, find_by_id}
use blackrock.Stripe.{Result-cases, ok, Request, mailchimp_patch, mailchimp_put, Services}
use blackrock.Action.{set_subscribers, World, perform, ◌>>◌}
use blackrock.Cards.{logged_in_user}
use blackrock.Mailing.{
  Mailchimp, settings, primary_emails, member_url, update_own_bonuses, subscribe_mailing_list,
}
use blackrock.Subscribers.{find_subscriber, subscribed_entry, new_entry, upsert}
use blackrock.Mailing.Store.{find_subscriber-upsert_self}
use blackrock.Mailing.Update.{update_own_bonuses-KeepsSubscribers, update_own_bonuses_requests}

module _ {S : Type 0} (v : Services S) (m : Mailchimp S) (list_id key : Text) where
  -- The request for an address: a known one is changed, another one is added.
  abbrev pub subscribe_request : Text → List Subscriber → Request
  subscribe_request email subscribers = elim (find_subscriber email subscribers) [
    | some _ ↦ mailchimp_patch (member_url m key list_id email) (codes "subscribed")
    | none ↦ mailchimp_put (member_url m key list_id email) email (codes "subscribed")
  ]

  pub method_step :
      (user_id email : Text) (rest : List Text) (user : User) (w : World S)
      → settings v m w ≡ (ok (list_id, key), w)
      → find_by_id user_id w.users ≡ some user
      → primary_emails (v.user_emails user.id w.outside) ≡ email ∷ rest
      → subscribe_mailing_list v m user_id w
        ≡ (perform (subscribe_request email w.subscribers) v.request
              >> (set_subscribers (upsert email (subscribed_entry email) (new_entry email))
                  >> update_own_bonuses v user_id))
            w
  unfolding subscribe_mailing_list logged_in_user
  method_step user_id email rest user w configured found primary =
      elim (Option-cases (find_subscriber email w.subscribers)) [
        | inl fresh ↦ ground arith
        | inr (s, known) ↦ ground arith
      ]

  write_step :
      (user_id email : Text) (r : Request) (w : World S)
      → let all =
          (perform r v.request
              >> (set_subscribers (upsert email (subscribed_entry email) (new_entry email))
                  >> update_own_bonuses v user_id))
            w in
        all.0 ≡ ok tt
        → (all.1.subscribers
            ≡ upsert email (subscribed_entry email) (new_entry email) w.subscribers)
          × (all.1.requests ≡ r ∷ w.requests)
  write_step user_id email r w done = elim (Result-cases (v.request r w.outside).0) [
    | inr (e, thrown) ↦ absurd (ground arith)
    | inl (_, sent) ↦
        let w' : World S = record w {
          subscribers = upsert email (subscribed_entry email) (new_entry email) w.subscribers;
          requests = r ∷ w.requests;
          outside = (v.request r w.outside).1;
        } in
        (
          ground (arith, update_own_bonuses-KeepsSubscribers v user_id w'),
          ground (arith, update_own_bonuses_requests v user_id w'),
        )
  ]

  -- After a user has subscribed and the method has returned, the first primary address is subscribed in
  -- the package's copy of the list, under its canonical form; and the one request was to change it at
  -- Mailchimp, if the copy had it, or else to add it.
  pub subscribe_mailing_list_stored :
      (user_id email : Text) (rest : List Text) (user : User) (w : World S)
      → settings v m w ≡ (ok (list_id, key), w)
      → find_by_id user_id w.users ≡ some user
      → primary_emails (v.user_emails user.id w.outside) ≡ email ∷ rest
      → (subscribe_mailing_list v m user_id w).0 ≡ ok tt
      → let w' = (subscribe_mailing_list v m user_id w).1 in
        (s : Subscriber) × (find_subscriber email w'.subscribers ≡ some s)
        × (s.subscribed ≡ true)
        × (s.canonical ≡ canonicalize_email email)
        × (w'.requests ≡ subscribe_request email w.subscribers ∷ w.requests)
  subscribe_mailing_list_stored user_id email rest user w configured found primary done =
      let step = method_step user_id email rest user w configured found primary in
      let (stored, requests) =
        write_step user_id email (subscribe_request email w.subscribers) w (rw step at done) in
      let now =
        find_subscriber-upsert_self email (subscribed_entry email) (new_entry email) w.subscribers
          (λ s. refl) refl in
      elim (Option-cases (find_subscriber email w.subscribers)) [
        | inl fresh ↦
            (new_entry email, rw (step, stored) (rw fresh at now), refl, refl, rw step requests)
        | inr (s, known) ↦ (
          subscribed_entry email s,
          rw (step, stored) (rw known at now),
          refl,
          refl,
          rw step requests,
        )
      ]
