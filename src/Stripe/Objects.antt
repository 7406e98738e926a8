-- ===== src/Stripe/Objects.antt =====
-- Tests that payments-server.js makes of what Stripe returns or throws.
use blackrock.Prelude.{Bool, false, Option, none, some, [], ◌∷◌}
use blackrock.Text.{codes, text_eq}
use blackrock.Stripe.{Failure, stripe_error, Customer, Subscription}

-- `data.subscriptions && data.subscriptions.data.length > 0`, and then `data.subscriptions.data[0]`
unfoldable pub current_subscription : Customer → Option Subscription
current_subscription customer = elim customer.subscriptions [
  | none ↦ none
  | some subscriptions ↦ elim subscriptions [ [] ↦ none | s ∷ _ ↦ some s ]
]

-- `err.raw && err.raw.type === "card_error"`
unfoldable pub is_card_error : Failure → Bool
is_card_error (stripe_error (some (kind, message)) text) = text_eq kind (codes "card_error")
is_card_error (stripe_error none text) = false
is_card_error _ = false
