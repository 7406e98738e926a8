-- ===== src/Charges/Keeps.antt =====
-- The payments API changes no user.
use blackrock.Prelude.{refl, inl, inr, Option, none, some, List, ◌∷◌, arith, Option-cases}
use blackrock.Text.{Text}
use blackrock.Users.{find_by_customer}
use blackrock.Stripe.{Failure, Result, Result-cases, ok, err, capture_charge, Services}
use blackrock.Action.{World}
use blackrock.Action.Keeps.{KeepsUsers}
use blackrock.Letter.{Config, Item}
use blackrock.Mail.Laws.{send_invoice-KeepsUsers}
use blackrock.Cards.Keeps.{find_original-KeepsUsers}
use blackrock.Charges.{
  SourceRef, Payment, validate_source, query_sources, create_payment, invoice_charge,
  check_captured, commit,
}

module _ {S : Type 0} (v : Services S) where
  pub validate_source-KeepsUsers :
      (session : Option Text) (hashed : Text) → KeepsUsers (validate_source v session hashed)
  unfolding validate_source
  validate_source-KeepsUsers none hashed w = refl
  validate_source-KeepsUsers (some user_id) hashed w = grind (arith, find_original-KeepsUsers v)

  pub query_sources-KeepsUsers : (user_id : Text) → KeepsUsers (query_sources v user_id)
  unfolding query_sources
  query_sources-KeepsUsers user_id w = ground arith

  pub create_payment-KeepsUsers :
      (message : Failure → Text) (config : Config) (source : Result SourceRef)
      (invoice : Option (List Item))
      → KeepsUsers (create_payment v message config source invoice)
  unfolding create_payment
  create_payment-KeepsUsers message config (err e) invoice w = refl
  create_payment-KeepsUsers message config (ok ref) none w = refl
  create_payment-KeepsUsers message config (ok ref) (some items) w = ground arith

  pub commit-KeepsUsers : (payment : Payment) → KeepsUsers (commit v payment)
  unfolding commit invoice_charge check_captured
  commit-KeepsUsers payment w =
      elim (Result-cases (v.request_charge (capture_charge payment.id) w.outside).0) [
        | inr (e, refused) ↦ ground arith
        | inl (charge, taken) ↦ elim (Option-cases (find_by_customer charge.customer w.users)) [
          | inl missing ↦ ground arith
          | inr (user, found) ↦
              let w' : World S = record w {
                requests = capture_charge payment.id ∷ w.requests;
                outside = (v.request_charge (capture_charge payment.id) w.outside).1;
              } in
              ground (arith, send_invoice-KeepsUsers v user payment.items payment.config w')
        ]
      ]
