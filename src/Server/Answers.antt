-- ===== src/Server/Answers.antt =====
-- When the webhook answers with success, and which requests reach it.
use blackrock.Webhook.Thrown.{handle_webhook_event_thrown}
use blackrock.Prelude.{◌≡◌, ◌≢◌, ◌↔◌, inl, inr, arith}
use blackrock.Text.{Text, codes, text_eq}
use blackrock.Text.Laws.{text_eq→eq, text_eq_refl, text_eq_iff}
use blackrock.Stripe.{Result-cases, Services}
use blackrock.Action.{World}
use blackrock.Webhook.{handle_webhook_event}
use blackrock.Server.{
  Body, broken, unparsable, without_id, event_with_id, process_webhook, webhook, next, route,
}

module _ {S : Type 0} (v : Services S) where
  -- An answer other than 200 means that no user was changed, whatever the request was.
  pub process_webhook_failed :
      (method : Text) (body : Body) (w : World S)
      → (process_webhook v method body w).0.status ≢ 200
      → (process_webhook v method body w).1.users ≡ w.users
  unfolding process_webhook
  process_webhook_failed method broken w h = ground arith
  process_webhook_failed method unparsable w h = ground arith
  process_webhook_failed method without_id w h = ground arith
  process_webhook_failed method (event_with_id id) w h =
      elim (Result-cases (handle_webhook_event v id w).0) [
        | inl (_, done) ↦ ground arith
        | inr (e, thrown) ↦ ground (arith, handle_webhook_event_thrown v id w e thrown)
      ]

webhook_reached :
    (payments_host host url : Text)
    → route payments_host host url ≡ webhook
    → (host ≡ payments_host) × (url ≡ codes "/webhook")
unfolding route
webhook_reached payments_host host url h = (
  ground (arith, text_eq→eq host payments_host),
  ground (arith, text_eq→eq url (codes "/webhook")),
)

reach_webhook : (host : Text) → route host host (codes "/webhook") ≡ webhook
unfolding route text_eq
reach_webhook host = rw (text_eq_refl host)

-- Exactly the requests to "/webhook" on the payments host reach the webhook, and exactly those to
-- other hosts are passed on.
pub route_iff :
    (payments_host host url : Text)
    → ((route payments_host host url ≡ webhook)
        ↔ ((host ≡ payments_host) × (url ≡ codes "/webhook")))
      × ((route payments_host host url ≡ next) ↔ (host ≢ payments_host))
unfolding route
route_iff payments_host host url = (
  (webhook_reached payments_host host url, λ e. rw (e.0, e.1) (reach_webhook payments_host)),
  (
    λ e same. ground (arith, text_eq_iff host payments_host),
    λ other. ground (arith, text_eq→eq host payments_host),
  ),
)
