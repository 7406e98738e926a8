-- ===== src/Fiber/Tests.antt =====
-- Fibers of a small world.
use blackrock.Stripe.Objects.{current_subscription}
use blackrock.Mail.{recipient, send_to}
use blackrock.Action.{World}
use blackrock.Fiber.Races.{webhook_twice, add_card_twice}
use blackrock.Webhook.{config_of, demote, Mod, apply_mod, is_stale, invoice_changes}
use blackrock.Prelude.{none, arith, ℕ, suc, true, ◌≡◌, refl, some, List, [], ◌∷◌, ◌++◌, map}
use blackrock.Text.{Text, codes, is_truthy, text_eq}
use blackrock.Users.{free, find_by_customer, has_customer, customer_id, set_customer, update_user}
use blackrock.Stripe.{
  Failure, Result, ok, Customer, Request, create_customer, payment_failed, Services,
}
use blackrock.System.{Operation, stripe_webhook, add_card, buy_plan, accounts_of}
use blackrock.Fiber.{interleave, are_done}
use blackrock.Fiber.Methods.{spawn}
use blackrock.Fiber.Fits.{Fits}
use blackrock.Fiber.OwnedAll.{interleave_owned}
use blackrock.Demo.{event, ann, bob, world, invoice, subscriber, demo, mailchimp}

-- A Stripe that names a customer after the user it is made for.
abbrev customer_for : Text → Customer
customer_for user_id = record subscriber { id = codes "cus_" ++ user_id }

abbrev make_customer : Request → ℕ → Result Customer × ℕ
make_customer (create_customer token email (some user_id)) s = (ok (customer_for user_id), suc s)
make_customer _ s = (ok subscriber, suc s)

abbrev v : Services ℕ
v = record (demo (payment_failed invoice) subscriber) { request_customer = make_customer }

abbrev no_message : Failure → Text
no_message _ = []

abbrev bob_id : Text
bob_id = codes "bob"

abbrev email : Text
email = codes "bob@example.org"

-- Bob adds a card and buys a plan, and Stripe reports a payment of Ann's that failed.
abbrev operations : List Operation
operations =
    add_card (some bob_id) (codes "tok_1") email
    ∷ buy_plan (some bob_id) (codes "tok_2") email (codes "standard")
    ∷ stripe_webhook (codes "evt")
    ∷ []

abbrev Owns : Text → Text → Type 0
Owns user_id customer = customer ≡ codes "cus_" ++ user_id

v_names :
    (token email user_id : Text) (s : ℕ) (c : Customer)
    → (v.request_customer (create_customer token email (some user_id)) s).0 ≡ ok c
    → (is_truthy c.id ≡ true) × Owns user_id c.id
v_names token email user_id s c e =
    let same : c.id ≡ codes "cus_" ++ user_id = ground arith in (rw same refl, same)

interleave_owned_example : Fits Owns (accounts_of world.users) (
    accounts_of
      (interleave
        (0 ∷ 1 ∷ 0 ∷ 1 ∷ 2 ∷ 1 ∷ 0 ∷ 1 ∷ [])
        (map (spawn v (mailchimp 50) no_message) operations)
        world).1.users)
interleave_owned_example =
    interleave_owned v (mailchimp 50) no_message Owns v_names operations
      (0 ∷ 1 ∷ 0 ∷ 1 ∷ 2 ∷ 1 ∷ 0 ∷ 1 ∷ []) world

-- A Stripe that numbers its customers.
abbrev numbering : Services ℕ
numbering = record v {
  request_customer = λ _ s. (ok (record subscriber { id = codes "cus_" ++ (s ∷ []) }), suc s);
}

add_card_twice_example :
    (let fibers = map (spawn numbering (mailchimp 50) no_message) (
        add_card (some bob_id) (codes "tok_1") email
        ∷ add_card (some bob_id) (codes "tok_2") email
        ∷ []) in
      let (left, w') = interleave (0 ∷ 1 ∷ 0 ∷ 1 ∷ 0 ∷ 1 ∷ []) fibers world in
      (are_done left ≡ true)
      × (w'.requests
          ≡ create_customer (codes "tok_2") email (some bob_id)
            ∷ create_customer (codes "tok_1") email (some bob_id)
            ∷ [])
      × (w'.users ≡ update_user bob_id (set_customer (codes "cus_" ++ 1 ∷ [])) world.users)
      × (find_by_customer (codes "cus_" ++ 0 ∷ []) w'.users ≡ none))
unfolding customer_id has_customer text_eq
add_card_twice_example =
    add_card_twice numbering (mailchimp 50) no_message bob_id (codes "tok_1") (codes "tok_2") email
      bob (record subscriber { id = codes "cus_" ++ (0 ∷ []) })
      (record subscriber { id = codes "cus_" ++ (1 ∷ []) }) world refl refl refl refl refl refl

abbrev demoted : Mod
demoted = record { last_invoice_time = 60; plan = some free }

-- The world after the handling of the event has been requested once.
abbrev handled : World ℕ → World ℕ
handled w = (invoice_changes v 60 true invoice ann w).1

webhook_twice_example :
    (let hook = stripe_webhook (codes "evt") in
      let fibers = map (spawn v (mailchimp 50) no_message) (hook ∷ hook ∷ []) in
      let (left, w') = interleave (0 ∷ 1 ∷ 0 ∷ 1 ∷ 0 ∷ 1 ∷ 0 ∷ 1 ∷ []) fibers world in
      (are_done left ≡ true)
      × (w'.requests ≡ (handled (handled world)).requests)
      × (w'.users
          ≡ update_user
              (codes "ann")
              (apply_mod demoted)
              (update_user (codes "ann") (apply_mod demoted) world.users)))
unfolding has_customer text_eq is_stale invoice_changes demote config_of send_to recipient
    current_subscription
webhook_twice_example =
    webhook_twice v (mailchimp 50) no_message (codes "evt") (event 60 (payment_failed invoice))
      invoice ann demoted demoted world (handled world) (handled (handled world)) refl refl refl
      refl refl refl
