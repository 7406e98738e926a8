-- ===== src/System/Tests.antt =====
-- The theorems on the whole server at a small world.
use blackrock.Prelude.{ℕ, ◌≡◌, ◌≤◌, refl, some, List, [], ◌∷◌}
use blackrock.Text.{Text, codes, text_eq}
use blackrock.Users.{User, find_by_id, customer_id}
use blackrock.Users.Laws.{HasDistinctIds}
use blackrock.Stripe.{Failure, payment_failed, Services}
use blackrock.Webhook.Writes.{last_time}
use blackrock.System.{Operation, stripe_webhook, mailchimp_webhook, add_card, run_all}
use blackrock.System.Kept.{run_all_kept}
use blackrock.Demo.{ann, world, invoice, subscriber, demo, mailchimp}

abbrev v : Services ℕ
v = demo (payment_failed invoice) subscriber

abbrev no_message : Failure → Text
no_message _ = []

-- Bob adds a card, Stripe reports a payment of Ann's that failed, and Mailchimp a change of its list.
abbrev operations : List Operation
operations =
    add_card (some (codes "bob")) (codes "tok_1") (codes "bob@example.org")
    ∷ stripe_webhook (codes "evt")
    ∷ mailchimp_webhook
    ∷ []

world-HasDistinctIds : HasDistinctIds world.users
unfolding text_eq
world-HasDistinctIds = ((refl, tt), (tt, tt))

run_all_kept_example :
    let w' = run_all v (mailchimp 50) no_message operations world in
    (user' : User) × (find_by_id (codes "ann") w'.users ≡ some user')
    × (customer_id user' ≡ some (codes "cus_1"))
    × (last_time ann ≤ last_time user')
unfolding customer_id text_eq
run_all_kept_example =
    run_all_kept v (mailchimp 50) no_message operations (codes "ann") (codes "cus_1") ann world
      world-HasDistinctIds refl refl
