-- ===== src/Fiber/Races.antt =====
-- Two fibers that read the same user before either of them writes.
use blackrock.Webhook.Keeps.{invoice_changes-KeepsUsers}
use blackrock.Prelude.{
  sym, ap, ◌∙◌, refl, false, inl, inr, Bool-cases, List, Option-cases, map, ◌≡◌, true, none, some,
  [], ◌∷◌, arith,
}
use blackrock.Stripe.{
  Event, Invoice, payment_failed, ok, Failure, Customer, create_customer, Services,
}
use blackrock.System.{stripe_webhook, add_card}
use blackrock.Webhook.{Mod, apply_mod, is_stale, invoice_changes}
use blackrock.Fiber.Methods.{
  webhook_fiber, event_fiber, invoice_fiber, spawn, create_user_fiber, add_card_fiber,
}
use blackrock.Mailing.{Mailchimp}
use blackrock.Text.{text_eq, Text}
use blackrock.Users.{
  has_id, find_by_customer, has_customer, User, find_by_id, customer_id, set_customer, update_user,
}
use blackrock.Action.{World}
use blackrock.Cards.{logged_in_user, first_source}
use blackrock.Fiber.{turn, interleave, are_done}

set_customer_twice :
    (id a b : Text) (users : List User)
    → update_user id (set_customer b) (update_user id (set_customer a) users)
      ≡ update_user id (set_customer b) users
unfolding update_user
set_customer_twice id a b [] = refl
set_customer_twice id a b (u ∷ users) = elim (Bool-cases (has_id id u)) [
  | inl hit ↦ ground arith
  | inr miss ↦ ground (arith, set_customer_twice id a b users)
]

-- A customer that no user has, and that is not the one that is stored.
find_by_customer-set_customer :
    (id customer other : Text) (users : List User)
    → find_by_customer customer users ≡ none
    → text_eq other customer ≡ false
    → find_by_customer customer (update_user id (set_customer other) users) ≡ none
unfolding update_user has_customer
find_by_customer-set_customer id customer other [] nobody apart = refl
find_by_customer-set_customer id customer other (u ∷ users) nobody apart =
    elim (Bool-cases (has_customer customer u)) [
      | inl has ↦ absurd (ground arith)
      | inr has_not ↦ elim (Bool-cases (has_id id u)) [
        | inl hit ↦ ground (arith, find_by_customer-set_customer id customer other users)
        | inr miss ↦ ground (arith, find_by_customer-set_customer id customer other users)
      ]
    ]

module _ {S : Type 0} (v : Services S) (m : Mailchimp S) (message : Failure → Text) where
  add_card_turns :
      (user_id token_a token_b email : Text) (user : User) (a b : Customer) (w : World S)
      → find_by_id user_id w.users ≡ some user
      → customer_id user ≡ none
      → (v.request_customer (create_customer token_a email (some user_id)) w.outside).0 ≡ ok a
      → (v.request_customer
          (create_customer token_b email (some user_id))
          (v.request_customer (create_customer token_a email (some user_id)) w.outside).1).0
        ≡ ok b
      → (let fibers =
            map (spawn v m message) (
              add_card (some user_id) token_a email ∷ add_card (some user_id) token_b email ∷ []) in
          let (left, w') = interleave (0 ∷ 1 ∷ 0 ∷ 1 ∷ 0 ∷ 1 ∷ []) fibers w in
          (are_done left ≡ true)
          × (w'.requests
              ≡ create_customer token_b email (some user_id)
                ∷ create_customer token_a email (some user_id)
                ∷ w.requests)
          × (w'.users
              ≡ update_user user_id
                  (set_customer b.id)
                  (update_user user_id (set_customer a.id) w.users)))
  unfolding interleave turn spawn add_card_fiber create_user_fiber logged_in_user
  add_card_turns user_id token_a token_b email user a b w found fresh made_a made_b =
      elim (Option-cases (first_source a)) [
        | inl bare ↦ elim (Option-cases (first_source b)) [
          | inl bare' ↦ ground arith
          | inr (source', has') ↦ ground arith
        ]
        | inr (source, has) ↦ elim (Option-cases (first_source b)) [
          | inl bare' ↦ ground arith
          | inr (source', has') ↦ ground arith
        ]
      ]

  -- The same user adds a card twice, in two windows, and is no customer of Stripe's yet; the two fibers
  -- take turns, and Stripe makes two customers that nobody has, `a` and `b`. Then both are done, Stripe
  -- has been asked for two customers, the user has the second, and the first, with its card, is found at
  -- no user.
  pub add_card_twice :
      (user_id token_a token_b email : Text) (user : User) (a b : Customer) (w : World S)
      → find_by_id user_id w.users ≡ some user
      → customer_id user ≡ none
      → (v.request_customer (create_customer token_a email (some user_id)) w.outside).0 ≡ ok a
      → (v.request_customer
          (create_customer token_b email (some user_id))
          (v.request_customer (create_customer token_a email (some user_id)) w.outside).1).0
        ≡ ok b
      → find_by_customer a.id w.users ≡ none
      → text_eq b.id a.id ≡ false
      → (let fibers =
            map (spawn v m message) (
              add_card (some user_id) token_a email ∷ add_card (some user_id) token_b email ∷ []) in
          let (left, w') = interleave (0 ∷ 1 ∷ 0 ∷ 1 ∷ 0 ∷ 1 ∷ []) fibers w in
          (are_done left ≡ true)
          × (w'.requests
              ≡ create_customer token_b email (some user_id)
                ∷ create_customer token_a email (some user_id)
                ∷ w.requests)
          × (w'.users ≡ update_user user_id (set_customer b.id) w.users)
          × (find_by_customer a.id w'.users ≡ none))
  add_card_twice user_id token_a token_b email user a b w found fresh made_a made_b nobody apart =
      let (finished, asked, written) =
        add_card_turns user_id token_a token_b email user a b w found fresh made_a made_b in
      let users' = written ∙ set_customer_twice user_id a.id b.id w.users in
      (
        finished,
        asked,
        users',
        ap (find_by_customer a.id) users'
            ∙ find_by_customer-set_customer user_id a.id b.id w.users nobody apart,
      )

  webhook_turns :
      (event_id : Text) (event : Event) (invoice : Invoice) (user : User) (one two : Mod)
      (w w1 w2 : World S)
      → v.retrieve_event event_id w.outside ≡ ok event
      → event.body ≡ payment_failed invoice
      → find_by_customer invoice.customer w.users ≡ some user
      → is_stale user event.created ≡ false
      → invoice_changes v event.created true invoice user w ≡ (ok one, w1)
      → invoice_changes v event.created true invoice user w1 ≡ (ok two, w2)
      → (let fibers =
            map (spawn v m message) (stripe_webhook event_id ∷ stripe_webhook event_id ∷ []) in
          let (left, w') = interleave (0 ∷ 1 ∷ 0 ∷ 1 ∷ 0 ∷ 1 ∷ 0 ∷ 1 ∷ []) fibers w in
          (are_done left ≡ true)
          × (w'.requests ≡ w2.requests)
          × (w'.users
              ≡ update_user user.id (apply_mod two) (update_user user.id (apply_mod one) w2.users)))
  unfolding interleave turn spawn webhook_fiber event_fiber invoice_fiber
  webhook_turns event_id event invoice user one two w w1 w2 fetched body found fresh first' second =
      ground arith

  -- Stripe delivers an event of a failed payment twice, which is new for its user, the two fibers take
  -- turns, and the handling of neither throws: both find the user before either has stored the event's
  -- time. Then both are done, what the handling requests has been requested twice, the second time in
  -- the world that the first has left, and both changes are stored, one after the other.
  pub webhook_twice :
      (event_id : Text) (event : Event) (invoice : Invoice) (user : User) (one two : Mod)
      (w w1 w2 : World S)
      → v.retrieve_event event_id w.outside ≡ ok event
      → event.body ≡ payment_failed invoice
      → find_by_customer invoice.customer w.users ≡ some user
      → is_stale user event.created ≡ false
      → invoice_changes v event.created true invoice user w ≡ (ok one, w1)
      → invoice_changes v event.created true invoice user w1 ≡ (ok two, w2)
      → (let fibers =
            map (spawn v m message) (stripe_webhook event_id ∷ stripe_webhook event_id ∷ []) in
          let (left, w') = interleave (0 ∷ 1 ∷ 0 ∷ 1 ∷ 0 ∷ 1 ∷ 0 ∷ 1 ∷ []) fibers w in
          (are_done left ≡ true)
          × (w'.requests ≡ w2.requests)
          × (w'.users
              ≡ update_user user.id (apply_mod two) (update_user user.id (apply_mod one) w.users)))
  webhook_twice event_id event invoice user one two w w1 w2 fetched body found fresh first' second =
      let (finished, asked, written) =
        webhook_turns event_id event invoice user one two w w1 w2 fetched body found fresh first'
          second in
      let kept : w2.users ≡ w.users =
        ap (λ r. r.1.users) (sym second)
        ∙ invoice_changes-KeepsUsers v event.created true invoice user w1
        ∙ ap (λ r. r.1.users) (sym first')
        ∙ invoice_changes-KeepsUsers v event.created true invoice user w in
      (
        finished,
        asked,
        written
            ∙ ap
                (λ users.
                  update_user user.id (apply_mod two) (update_user user.id (apply_mod one) users))
                kept,
      )
