-- ===== src/Webhook/Keeps.antt =====
-- The handlers of invoice events change no user before their last step.
use blackrock.Prelude.{
  some, none, ◌≡◌, true, ℕ, refl, Bool, false, List, [], ◌∷◌, ◌++◌, ◌&&◌, ◌||◌, inl, inr, arith,
}
use blackrock.Text.{Text}
use blackrock.Users.{User}
use blackrock.Stripe.{
  update_subscription, Result, ok, err, Failure, Line, Result-cases, Subscription,
  subscription_line, other_line, Invoice, Services,
}
use blackrock.Action.{World, pure, perform, ◌>>◌}
use blackrock.Action.Keeps.{KeepsUsers, try_catch-KeepsUsers}
use blackrock.Letter.{failure_html, Config, Item, failure_subject, failure_text}
use blackrock.Mail.Laws.{send_to-KeepsUsers, send_invoice-KeepsUsers}
use blackrock.Plans.{base_plan, is_beta}
use blackrock.Webhook.{
  invoice_changes, Mod, subscription_items, declined, switch_plan, demote, collect, exit_beta,
  invoice_paid,
}

module _ {S : Type 0} (v : Services S) where
  demote-KeepsUsers :
      (user : User) (customer_id : Text) (config : Config) (changes : Mod)
      → KeepsUsers (demote v user customer_id config changes)
  unfolding demote
  demote-KeepsUsers user customer_id config changes w = ground (
    arith,
    send_to-KeepsUsers v user (failure_subject config) (failure_text config v.root_url)
        (failure_html config v.root_url) config w,
  )

  collect-KeepsUsers :
      (user : User) (lines : List Line) (items : List Item) (exit : Bool)
      → KeepsUsers (collect v user lines items exit)
  unfolding collect
  collect-KeepsUsers user [] items exit w = refl
  collect-KeepsUsers user (subscription_line plan_id amount ∷ lines) items exit w =
      elim (Result-cases (v.get_plan (base_plan plan_id) (some user) w.outside)) [
        | inl (plan, e) ↦ ground (
          arith,
          collect-KeepsUsers user lines (items ++ subscription_items plan_id amount plan)
              (exit || (is_beta plan_id && v.out_of_beta)) w,
        )
        | inr (e, thrown) ↦ ground arith
      ]
  collect-KeepsUsers user (other_line description amount ∷ lines) items exit w =
      collect-KeepsUsers user lines
        (items ++ record { title = description; amount_cents = amount } ∷ []) exit w

  declined-KeepsUsers :
      (user : User) (customer_id : Text) (config : Config) (changes : Mod) (e : Failure)
      → KeepsUsers (declined v user customer_id config changes e)
  unfolding declined
  declined-KeepsUsers user customer_id config changes e w =
      ground (arith, demote-KeepsUsers user customer_id config changes w)

  switch_plan-KeepsUsers :
      (user : User) (customer_id : Text) (config : Config) (changes : Mod) (s : Subscription)
      → KeepsUsers (switch_plan v user customer_id config changes s)
  unfolding switch_plan
  switch_plan-KeepsUsers user customer_id config changes s =
      try_catch-KeepsUsers
        (perform (update_subscription customer_id s.id (base_plan s.plan_id)) v.request
          >> pure changes)
        (declined v user customer_id config changes) (λ w. ground arith)
        (declined-KeepsUsers user customer_id config changes)

  exit_beta-KeepsUsers :
      (user : User) (customer_id : Text) (config : Config) (changes : Mod)
      → KeepsUsers (exit_beta v user customer_id config changes)
  unfolding exit_beta
  exit_beta-KeepsUsers user customer_id config changes w = grind (arith, switch_plan-KeepsUsers)

  invoice_paid-KeepsUsers :
      (user : User) (invoice : Invoice) (config : Config) (changes : Mod)
      → KeepsUsers (invoice_paid v user invoice config changes)
  unfolding invoice_paid
  invoice_paid-KeepsUsers user invoice config changes w = grind (
    arith,
    collect-KeepsUsers user invoice.lines [] false w,
    exit_beta-KeepsUsers,
    send_invoice-KeepsUsers,
  )

  pub invoice_changes-KeepsUsers :
      (created : ℕ) (failed : Bool) (invoice : Invoice) (user : User)
      → KeepsUsers (invoice_changes v created failed invoice user)
  unfolding invoice_changes
  invoice_changes-KeepsUsers created true invoice user w =
      demote-KeepsUsers user invoice.customer _
        (record { last_invoice_time = created; plan = none }) w
  invoice_changes-KeepsUsers created false invoice user w =
      invoice_paid-KeepsUsers user invoice _ (record { last_invoice_time = created; plan = none }) w

-- Whatever branch is taken, the fields to write keep the time that they start from.
abbrev HasTime : {S : Type 0} → ℕ → Result Mod × World S → Type 0
HasTime created (ok changes, _) = changes.last_invoice_time ≡ created
HasTime created (err _, _) = Unit

module _ {S : Type 0} (v : Services S) where
  demote-HasTime :
      (user : User) (customer_id : Text) (config : Config) (changes : Mod) (w : World S)
      → HasTime changes.last_invoice_time (demote v user customer_id config changes w)
  unfolding demote
  demote-HasTime user customer_id config changes w = ground arith

  switch_plan-HasTime :
      (user : User) (customer_id : Text) (config : Config) (changes : Mod) (s : Subscription)
      (w : World S)
      → HasTime changes.last_invoice_time (switch_plan v user customer_id config changes s w)
  unfolding switch_plan declined
  switch_plan-HasTime user customer_id config changes s w = grind (arith, demote-HasTime)

  exit_beta-HasTime :
      (user : User) (customer_id : Text) (config : Config) (changes : Mod) (w : World S)
      → HasTime changes.last_invoice_time (exit_beta v user customer_id config changes w)
  unfolding exit_beta
  exit_beta-HasTime user customer_id config changes w = grind (arith, switch_plan-HasTime)

  invoice_paid-HasTime :
      (user : User) (invoice : Invoice) (config : Config) (changes : Mod) (w : World S)
      → HasTime changes.last_invoice_time (invoice_paid v user invoice config changes w)
  unfolding invoice_paid
  invoice_paid-HasTime user invoice config changes w = grind (arith, exit_beta-HasTime)

  invoice_changes-HasTime :
      (created : ℕ) (failed : Bool) (invoice : Invoice) (user : User) (w : World S)
      → HasTime created (invoice_changes v created failed invoice user w)
  unfolding invoice_changes
  invoice_changes-HasTime created true invoice user w =
      demote-HasTime user invoice.customer _ (record { last_invoice_time = created; plan = none }) w
  invoice_changes-HasTime created false invoice user w =
      invoice_paid-HasTime user invoice _ (record { last_invoice_time = created; plan = none }) w

  pub invoice_changes_time :
      (created : ℕ) (failed : Bool) (invoice : Invoice) (user : User) (w : World S) {changes : Mod}
      → (invoice_changes v created failed invoice user w).0 ≡ ok changes
      → changes.last_invoice_time ≡ created
  invoice_changes_time created failed invoice user w e =
      time_of _ _ (invoice_changes-HasTime created failed invoice user w) e
    where
      time_of :
          (r : Result Mod) (w' : World S) {changes : Mod}
          → HasTime created (r, w')
          → r ≡ ok changes
          → changes.last_invoice_time ≡ created
      time_of (ok changes') w' h same = ground arith
      time_of (err failure) w' h same = cc
