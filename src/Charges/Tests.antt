-- ===== src/Charges/Tests.antt =====
-- The theorems on the payments API at a charge of three dollars.
use blackrock.Prelude.{
  none, List, ℕ, suc, ◌≡◌, refl, true, false, some, [], ◌∷◌, if◌then◌else◌, leb,
}
use blackrock.Prelude.Int.{pos, ◌+ℤ◌}
use blackrock.Text.{Text, codes, text_eq}
use blackrock.Users.{customer_id, has_customer}
use blackrock.Stripe.{
  capture_charge, reference_error, Failure, ok, err, stripe_error, create_charge, payment_failed,
  Services,
}
use blackrock.Money.{format_cents}
use blackrock.Text.Decimal.{decimal}
use blackrock.Action.{World}
use blackrock.Letter.{Config, Item}
use blackrock.Mail.{send_invoice}
use blackrock.Cards.{sanitize_source}
use blackrock.Charges.{
  success, failed, SourceRef, Payment, PowerboxOption, pay_with, create_payment, describe, commit,
  invoice_charge, validate_source, query_sources, source_title, query_acceptor,
}
use blackrock.Charges.Paid.{IsCaptured, create_payment_holds, commit-IsCaptured, commit_unmatched}
use blackrock.Charges.Powerbox.{validate_source-query_sources}
use blackrock.Demo.{card, ann, world, invoice, held, subscriber, demo}
use mathlib.Core.List.{Memᴰ}

-- Stripe captures at the first request only.
abbrev once : Services ℕ
once = record (demo (payment_failed invoice) subscriber) {
  request_charge = λ _ s.
      (if leb s 0 then ok held else err (stripe_error none (codes "already captured")), suc s);
  retrieve_charge = λ _ _. ok (record held { captured = true });
}

abbrev config : Config
config = record {
  acceptor_title = codes "Shop";
  return_address = codes "shop@example.org";
  settings_url = codes "https://example.org/account";
}

abbrev items : List Item
items =
    record { title = codes "Tea"; amount_cents = pos 120 }
    ∷ record { title = codes "Cake"; amount_cents = pos 180 }
    ∷ []

abbrev source : SourceRef
source = record { customer = codes "cus_1"; source = codes "card_1" }

abbrev payment : Payment
payment = record { id = codes "ch_1"; items = items; config = config }

-- The world of a server that has lost its users.
abbrev deserted : World ℕ
deserted = record world { users = [] }

abbrev message : Failure → Text
message _ = codes "failed"

create_payment_holds_example :
    let request = create_charge (pos 300) (codes "cus_1") (codes "card_1") (describe items) false in
    let (outcome, w') = create_payment once message config (ok source) (some items) world in
    (outcome ≡ ok (success (record payment { id = held.id })))
    × (w' ≡ record world { requests = request ∷ []; outside = 1 })
    × ((e : Failure)
        → create_payment once message config (err e) (some items) world
          ≡ (ok (failed (message e)), world))
unfolding ◌+ℤ◌
create_payment_holds_example = create_payment_holds once message config world source items

commit-IsCaptured_example : IsCaptured once payment world
unfolding commit invoice_charge send_invoice has_customer text_eq
commit-IsCaptured_example = commit-IsCaptured once payment world refl

commit_unmatched_example :
    let first = commit once payment deserted in
    let again = commit once payment first.1 in
    (first.0 ≡ err reference_error)
    × (again.0 ≡ ok tt)
    × (again.1.requests ≡ capture_charge (codes "ch_1") ∷ capture_charge (codes "ch_1") ∷ [])
unfolding commit invoice_charge
commit_unmatched_example = commit_unmatched once payment held deserted refl refl (
  stripe_error none (codes "already captured"),
  refl,
  (record held { captured = true }, refl, refl),
)

validate_source-query_sources_example :
    let clean = sanitize_source once card (some true) in
    ((options : List PowerboxOption) × (query_sources once (codes "ann") world
        ≡ (ok options, world))
      × Memᴰ (pay_with clean) options)
    × (validate_source once (some (codes "ann")) clean.id world ≡ (ok source, world))
unfolding text_eq customer_id
validate_source-query_sources_example =
    validate_source-query_sources once (codes "ann") world ann (codes "cus_1") subscriber
      (card ∷ []) card refl refl refl refl (Memᴰ.head refl) (λ _. refl, tt)

describe_items : describe items ≡ codes "Tea $1.20; Cake $1.80"
unfolding describe format_cents decimal
describe_items = refl

-- Only an administrator is offered an acceptor.
not_offered : query_acceptor once (some (codes "ann")) world ≡ (ok false, world)
unfolding query_acceptor text_eq
not_offered = refl

visa : source_title once source world ≡ (ok (codes "Visa **4242"), world)
unfolding source_title text_eq
visa = refl
