-- ===== src/Charges/Paid.antt =====
-- What an app's payment does: the money is held, then taken, and an invoice is sent once.
use blackrock.Prelude.{
  [], ◌∙◌, ◌≡◌, refl, ◌⊎◌, inl, inr, true, false, none, some, List, ◌∷◌, arith, Bool-cases,
}
use blackrock.Prelude.Int.{ℤ, pos, ◌+ℤ◌, int_laws}
use blackrock.Text.{Text}
use blackrock.Users.{User, find_by_customer}
use blackrock.Stripe.{
  Failure, reference_error, Result, Result-cases, ok, err, CardCharge, create_charge,
  capture_charge, Services,
}
use blackrock.Action.{World}
use blackrock.Letter.{Config, Item, total_from}
use blackrock.Mail.{send_invoice}
use blackrock.Charges.{
  Outcome, failed, SourceRef, Payment, success, describe, charge_request, create_payment,
  invoice_charge, check_captured, commit,
}

module _ {S : Type 0} (v : Services S) where
  module _ (message : Failure → Text) (config : Config) (w : World S) where
    -- The sum of the amounts of the items.
    abbrev pub sum_amounts : List Item → ℤ
    sum_amounts [] = pos 0
    sum_amounts (item ∷ items) = item.amount_cents +ℤ sum_amounts items

    total_from-sum_amounts :
        (total : ℤ) (items : List Item) → total_from total items ≡ total +ℤ sum_amounts items
    unfolding total_from
    total_from-sum_amounts total [] = omega int_laws
    total_from-sum_amounts total (item ∷ items) =
        total_from-sum_amounts (total +ℤ item.amount_cents) items ∙ omega int_laws

    -- What the app is told, by Stripe's answer to the charge.
    abbrev pub IsTold : List Item → Result CardCharge → Result Outcome → Type 0
    IsTold items (ok charge) outcome =
        (outcome ≡ ok (success (record { id = charge.id; items = items; config = config })))
    IsTold items (err e) outcome = (outcome ≡ ok (failed (message e)))

    -- Making a payment from a source that was resolved, for an invoice with items, makes one request,
    -- for the sum of the items' amounts on that source, held and not yet taken, and changes nothing
    -- else. If Stripe makes the charge, the app gets the payment with the charge's id and these
    -- items; if Stripe refuses, it gets the message of the failure, and nothing is thrown. From a
    -- source that is not resolved, nothing is requested at all.
    pub create_payment_holds :
        (ref : SourceRef) (items : List Item)
        → let request =
            create_charge (sum_amounts items) ref.customer ref.source (describe items) false in
          let (outcome, w') = create_payment v message config (ok ref) (some items) w in
          IsTold items (v.request_charge request w.outside).0 outcome
          × (w' ≡ record w {
            requests = request ∷ w.requests;
            outside = (v.request_charge request w.outside).1;
          })
          × ((e : Failure)
              → create_payment v message config (err e) (some items) w
                ≡ (ok (failed (message e)), w))
    unfolding create_payment charge_request
    create_payment_holds ref items =
        let same : total_from (pos 0) items ≡ sum_amounts items =
          total_from-sum_amounts (pos 0) items ∙ omega int_laws in
        let request =
          create_charge (sum_amounts items) ref.customer ref.source (describe items) false in
        elim (Result-cases (v.request_charge request w.outside).0) [
          | inl (charge, made) ↦ rw made (ground (arith, same), ground (arith, same), λ e. refl)
          | inr (e, refused) ↦ rw refused (ground (arith, same), ground (arith, same), λ e. refl)
        ]

  module _ (payment : Payment) where
    -- The answer to the capture, and the world after it.
    abbrev pub capture : World S → Result CardCharge × S
    capture w = v.request_charge (capture_charge payment.id) w.outside

    -- The charge is captured: Stripe has done so now, or it says that it has been done.
    abbrev pub IsCaptured : World S → Type 0
    IsCaptured w =
        ((charge : CardCharge) × ((capture w).0 ≡ ok charge))
        ⊎ ((charge : CardCharge) × (v.retrieve_charge payment.id (capture w).1 ≡ ok charge)
            × (charge.captured ≡ true))

    -- A commit that returns means that the charge is captured.
    pub commit-IsCaptured : (w : World S) → (commit v payment w).0 ≡ ok tt → IsCaptured w
    unfolding commit check_captured
    commit-IsCaptured w done = elim (Result-cases (capture w).0) [
      | inl captured ↦ inl captured
      | inr (e, refused) ↦ elim (Result-cases (v.retrieve_charge payment.id (capture w).1)) [
        | inr (e', lost) ↦ absurd (ground arith)
        | inl (charge, known) ↦ elim (Bool-cases charge.captured) [
          | inl taken ↦ inr (charge, known, taken)
          | inr free ↦ absurd (ground arith)
        ]
      ]
    ]

    -- The world after Stripe's answer to the capture.
    abbrev pub asked : World S → World S
    asked w = record w {
      requests = capture_charge payment.id ∷ w.requests;
      outside = (capture w).1;
    }

    -- Stripe refuses to capture what it says is captured.
    abbrev pub IsDone : World S → Type 0
    IsDone w =
        (e : Failure) × ((capture w).0 ≡ err e)
        × ((charge : CardCharge) × (v.retrieve_charge payment.id (capture w).1 ≡ ok charge)
            × (charge.captured ≡ true))

    commit_refused :
        (w : World S)
        → IsDone w
        → ((commit v payment w).0 ≡ ok tt)
          × ((commit v payment w).1.requests ≡ capture_charge payment.id ∷ w.requests)
    unfolding commit check_captured
    commit_refused w (e, refused, (charge, known, captured)) = (ground arith, ground arith)

    -- The first commit of a charge that fits a user sends the invoice to that user. A second one, when
    -- Stripe refuses to capture the charge again and says that it is captured, returns and makes no
    -- request but the refused one, so no second invoice is sent.
    pub commit_twice :
        (charge : CardCharge) (user : User) (w : World S)
        → (capture w).0 ≡ ok charge
        → find_by_customer charge.customer w.users ≡ some user
        → IsDone (commit v payment w).1
        → let once = commit v payment w in
          let again = commit v payment once.1 in
          (once ≡ send_invoice v user payment.items payment.config (asked w))
          × (again.0 ≡ ok tt)
          × (again.1.requests ≡ capture_charge payment.id ∷ once.1.requests)
    unfolding commit invoice_charge
    commit_twice charge user w captured found done =
        let (returned, requests) = commit_refused (commit v payment w).1 done in
        (ground arith, returned, requests)

    -- Where the captured charge fits no user, the commit throws a ReferenceError, although the money
    -- was taken; a second one, when Stripe refuses to capture the charge again and says that it is
    -- captured, returns. No invoice is sent by either.
    pub commit_unmatched :
        (charge : CardCharge) (w : World S)
        → (capture w).0 ≡ ok charge
        → find_by_customer charge.customer w.users ≡ none
        → IsDone (commit v payment w).1
        → let once = commit v payment w in
          let again = commit v payment once.1 in
          (once.0 ≡ err reference_error)
          × (again.0 ≡ ok tt)
          × (again.1.requests ≡ capture_charge payment.id ∷ capture_charge payment.id ∷ w.requests)
    unfolding commit invoice_charge
    commit_unmatched charge w captured missing done =
        let (returned, requests) = commit_refused (commit v payment w).1 done in
        (ground arith, returned, ground (arith, requests))
