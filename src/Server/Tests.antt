-- ===== src/Server/Tests.antt =====
-- Runs of the HTTP side.
use blackrock.Prelude.{ℕ, ◌≡◌, refl, arith}
use blackrock.Text.{codes, text_eq}
use blackrock.Stripe.{err, type_error, payment_failed, Services}
use blackrock.Webhook.{handle_webhook_event}
use blackrock.Server.{event_with_id, process_webhook, mailchimp, route}
use blackrock.Server.Answers.{process_webhook_failed}
use blackrock.Demo.{world, invoice, subscriber, demo}

abbrev unreachable : Services ℕ
unreachable = record (demo (payment_failed invoice) subscriber) {
  retrieve_event = λ _ _. err type_error;
}

route-mailchimp :
    route (codes "p.example.org") (codes "p.example.org") (codes "/mailchimp?x=1") ≡ mailchimp
unfolding route text_eq
route-mailchimp = refl

process_webhook_failed_example :
    (process_webhook unreachable (codes "POST") (event_with_id (codes "evt")) world).1.users
    ≡ world.users
unfolding process_webhook handle_webhook_event text_eq
process_webhook_failed_example =
    process_webhook_failed unreachable (codes "POST") (event_with_id (codes "evt")) world
      (omega arith)
