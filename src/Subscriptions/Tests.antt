-- ===== src/Subscriptions/Tests.antt =====
-- The theorems on subscriptions at a concrete customer.
use blackrock.Prelude.{ℕ, ◌≡◌, refl, true, false, none, some, [], ◌∷◌}
use blackrock.Text.{Text, codes, text_eq}
use blackrock.Plans.Laws.{NamesPlan}
use blackrock.Users.{update_user, find_by_id, customer_id, set_plan, set_customer, free}
use blackrock.Stripe.{
  card_error, card_error, ok, err, meteor_error, create_customer, create_source,
  create_subscription, update_subscription, payment_failed, Services,
}
use blackrock.Stripe.Objects.{is_card_error, current_subscription}
use blackrock.Cards.{logged_in_user, sanitize_source, first_source}
use blackrock.Subscriptions.{subscribed_to, update_user_subscription, create_user_subscription}
use blackrock.Subscriptions.Cancel.{update_user_subscription-free}
use blackrock.Subscriptions.Update.{update_user_subscription_paid, update_user_subscription_thrown}
use blackrock.Subscriptions.Create.{create_user_subscription_first, create_user_subscription_again}
use blackrock.Demo.{
  card, ann, bob, world, invoice, event, plan, subscriber, former, demo, answering,
}

abbrev subscribed : Services ℕ
subscribed = demo (payment_failed invoice) subscriber

abbrev unsubscribed : Services ℕ
unsubscribed = demo (payment_failed invoice) former

abbrev declining : Services ℕ
declining = answering false true (event 60 (payment_failed invoice)) subscriber

abbrev discontinued : Services ℕ
discontinued = answering true false (event 60 (payment_failed invoice)) subscriber

-- Without a subscription nothing is canceled, and ann stays on her plan.
update_user_subscription-free_example :
    let w' = (update_user_subscription unsubscribed (some (codes "ann")) free world).1 in
    (w'.users ≡ world.users) × (w'.requests ≡ [])
unfolding text_eq customer_id current_subscription
update_user_subscription-free_example =
    update_user_subscription-free unsubscribed (codes "ann") (codes "cus_1") (plan false free) ann
      former world refl refl refl refl refl

update_user_subscription_paid_example :
    let end = update_user_subscription subscribed (some (codes "ann")) (codes "power") world in
    (plan_id : Text) × NamesPlan false (codes "power") plan_id
    × ((end ≡ (
      ok (subscribed_to (codes "power")),
      record world {
        users = update_user (codes "ann") (set_plan (codes "power")) world.users;
        requests = update_subscription (codes "cus_1") (codes "sub_1") plan_id ∷ [];
        outside = 1;
      },
    ))
        × (find_by_id (codes "ann") end.1.users ≡ some (set_plan (codes "power") ann)))
unfolding text_eq customer_id current_subscription
update_user_subscription_paid_example =
    update_user_subscription_paid subscribed (codes "ann") (codes "power") (codes "cus_1")
      (plan false (codes "power")) ann world refl refl refl refl refl subscriber refl
      (refl, (refl, (refl, (refl, (refl, tt)))))

update_user_subscription_thrown_example :
    (update_user_subscription declining (some (codes "ann")) (codes "power") world).1.users
    ≡ world.users
unfolding update_user_subscription logged_in_user text_eq customer_id current_subscription
    is_card_error
update_user_subscription_thrown_example =
    update_user_subscription_thrown declining (some (codes "ann")) (codes "power") world
      (card_error (codes "declined")) refl

update_user_subscription_hidden :
    update_user_subscription discontinued (some (codes "ann")) (codes "large") world
    ≡ (err (meteor_error 403 "Can't choose discontinued plan."), world)
unfolding update_user_subscription
update_user_subscription_hidden = refl

-- A discontinued plan is bought by Bob, who is no customer yet.
create_user_subscription_first_example :
    let end =
      create_user_subscription discontinued
        (some (codes "bob"))
        (codes "tok")
        (codes "b@c")
        (codes "large")
        world in
    (plan_id : Text) × NamesPlan false (codes "large") plan_id
    × ((end ≡ (
      ok (some (sanitize_source discontinued card none)),
      record world {
        users =
            update_user
              (codes "bob")
              (set_plan (codes "large"))
              (update_user (codes "bob") (set_customer (codes "cus_1")) world.users);
        requests =
            create_subscription (codes "cus_1") plan_id
            ∷ create_customer (codes "tok") (codes "b@c") (some (codes "bob"))
            ∷ [];
        outside = 2;
      },
    ))
        × (find_by_id (codes "bob") end.1.users
            ≡ some (set_plan (codes "large") (set_customer (codes "cus_1") bob))))
unfolding text_eq customer_id first_source
create_user_subscription_first_example =
    create_user_subscription_first discontinued (codes "bob") (codes "tok") (codes "b@c")
      (codes "large") bob world refl (refl, (refl, (refl, (refl, (refl, tt))))) subscriber refl refl

-- Ann has a subscription already.
create_user_subscription_again_example :
    let end =
      create_user_subscription subscribed
        (some (codes "ann"))
        (codes "tok")
        (codes "b@c")
        (codes "power")
        world in
    (plan_id : Text) × NamesPlan false (codes "power") plan_id
    × ((end ≡ (
      ok (some (sanitize_source subscribed card (some false))),
      record world {
        users = update_user (codes "ann") (set_plan (codes "power")) world.users;
        requests =
            create_subscription (codes "cus_1") plan_id
            ∷ create_source (codes "cus_1") (codes "tok")
            ∷ [];
        outside = 2;
      },
    ))
        × (find_by_id (codes "ann") end.1.users ≡ some (set_plan (codes "power") ann)))
unfolding text_eq customer_id
create_user_subscription_again_example =
    create_user_subscription_again subscribed (codes "ann") (codes "tok") (codes "b@c")
      (codes "power") ann world refl (refl, (refl, (refl, (refl, (refl, tt))))) (codes "cus_1") card
      refl refl
