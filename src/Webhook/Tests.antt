-- ===== src/Webhook/Tests.antt =====
-- Runs of the webhook, and its theorems at concrete deliveries.
use blackrock.Webhook.Thrown.{handle_webhook_event_thrown}
use blackrock.Prelude.{ℕ, ◌≡◌, refl, false, none, some, [], ◌∷◌, arith, inr}
use blackrock.Prelude.Int.{negsuc, ◌+ℤ◌, ◌-ℤ◌, pos}
use blackrock.Text.{first_part, title_case, codes, text_eq}
use blackrock.Users.{update_user, find_by_id, has_customer, set_plan, set_last_invoice_time, free}
use blackrock.Stripe.{
  Customer, ok, err, type_error, payment_succeeded, payment_failed, subscription_deleted, Services,
}
use blackrock.Stripe.Objects.{current_subscription}
use blackrock.Plans.{plan_title, is_beta}
use blackrock.Letter.{total_from, Config}
use blackrock.Mail.{send_to}
use blackrock.Webhook.{
  subscription_items, Mod, is_stale, handle_webhook_event, collect, with_credit,
}
use blackrock.Webhook.Delivery.{handle_webhook_event_twice}
use blackrock.Webhook.Effects.{handle_webhook_event_failed, handle_webhook_event_deleted}
use blackrock.Webhook.Totals.{collect_amount_due}
use blackrock.Demo.{ann, world, invoice, event, subscriber, former, demo, answering}

abbrev failing : Services ℕ
failing = demo (payment_failed invoice) subscriber

run_failed : (handle_webhook_event failing (codes "evt") world).0 ≡ ok tt
unfolding handle_webhook_event has_customer text_eq is_stale current_subscription send_to
run_failed = refl

handle_webhook_event_twice_example :
    handle_webhook_event failing (codes "evt") (handle_webhook_event failing (codes "evt") world).1
    ≡ (ok tt, (handle_webhook_event failing (codes "evt") world).1)
unfolding text_eq
handle_webhook_event_twice_example =
    handle_webhook_event_twice failing (codes "evt") (event 60 (payment_failed invoice)) invoice
      world ((refl, tt), (tt, tt)) (omega arith) (inr refl) refl refl run_failed

abbrev replayed : Services ℕ
replayed = answering false false (event 50 (payment_succeeded invoice)) subscriber

handle_webhook_event_failed_example :
    find_by_id (codes "ann") (handle_webhook_event failing (codes "evt") world).1.users
    ≡ some (set_plan free (set_last_invoice_time 60 ann))
unfolding has_customer text_eq is_stale
handle_webhook_event_failed_example =
    handle_webhook_event_failed failing (codes "evt") (event 60 (payment_failed invoice)) invoice
      ann world refl refl ((refl, tt), (tt, tt)) refl refl run_failed

abbrev deleted : Customer → Services ℕ
deleted customer = demo (subscription_deleted (codes "cus_1")) customer

handle_webhook_event_deleted_example :
    let (r, w') = handle_webhook_event (deleted former) (codes "evt") world in
    (r ≡ ok tt)
    × (w' ≡ record world { users = update_user (codes "ann") (set_plan free) world.users })
    × (find_by_id (codes "ann") w'.users ≡ some (set_plan free ann))
unfolding has_customer text_eq current_subscription
handle_webhook_event_deleted_example =
    handle_webhook_event_deleted (deleted former) (codes "evt")
      (event 60 (subscription_deleted (codes "cus_1"))) (codes "cus_1") ann former world refl refl
      ((refl, tt), (tt, tt)) refl refl

-- Stripe cannot return the event.
abbrev unreachable : Services ℕ
unreachable = record failing { retrieve_event = λ _ _. err type_error }

handle_webhook_event_thrown_example :
    (handle_webhook_event unreachable (codes "evt") world).1.users ≡ world.users
unfolding handle_webhook_event
handle_webhook_event_thrown_example =
    handle_webhook_event_thrown unreachable (codes "evt") world type_error refl

abbrev config : Config
config = record {
  acceptor_title = codes "Oasis";
  return_address = codes "no-reply@example.org";
  settings_url = codes "https://example.org/account";
}

abbrev fresh : Mod
fresh = record { last_invoice_time = 60; plan = none }

collect_amount_due_example :
    total_from (pos 0) (
      with_credit failing invoice (
        record { title = codes "1 month Standard plan"; amount_cents = pos 600 }
        ∷ record { title = codes "Beta discount"; amount_cents = negsuc 599 }
        ∷ record { title = codes "tax"; amount_cents = pos 90 }
        ∷ []))
    ≡ pos 40
unfolding collect text_eq is_beta subscription_items plan_title title_case first_part ◌-ℤ◌ ◌+ℤ◌
collect_amount_due_example =
    collect_amount_due failing ann invoice world _ false refl refl (omega arith)
