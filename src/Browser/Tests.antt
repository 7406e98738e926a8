-- ===== src/Browser/Tests.antt =====
-- The theorems on the pages at a small copy of the Stripe data.
use blackrock.Browser.Settings.Primary.{click_make_primary_exact, ids_of, primaries}
use blackrock.Browser.Settings.{click_make_primary}
use blackrock.Prelude.{
  inr, ◌++◌, ℕ, ◌≡◌, ◌≤◌, ◌<◌, ◌*◌, suc, ◌⊎◌, ◌&&◌, refl, true, false, none, some, List, [], ◌∷◌,
  arith,
}
use blackrock.Prelude.Int.{pos}
use blackrock.Text.{codes, Text, text_eq}
use blackrock.Text.Decimal.{decimal}
use blackrock.Users.{customer_id}
use blackrock.Stripe.{Plan, Services, payment_failed, ok}
use blackrock.Stripe.Objects.{current_subscription}
use blackrock.Bonuses.{eq_ℤ}
use blackrock.Cards.{CleanSource, StripeData, no_stripe_data, stripe_data, get_stripe_data}
use blackrock.Browser.{
  call_make_primary, CustomerData, Client, call_update_plan, call_buy_plan, call_add_card,
  on_stripe_data,
}
use blackrock.Browser.Cache.{find_card, refreshed, on_stripe_data_cards}
use blackrock.Browser.Chooser.{Choice, Chooser, my_plan_name, is_on, is_empty, click_plan}
use blackrock.Browser.Chooser.Clicks.{click_plan_calls}
use blackrock.Browser.Chooser.Refreshed.{refresh_shows}
use blackrock.Browser.Checkout.{
  Message, Settings, Powerbox, on_prompt_message, on_settings_message, on_powerbox_message,
}
use blackrock.Browser.Checkout.Foreign.{CallsForToken, messages_call}
use blackrock.Browser.Render.{giga, storage_parts, render_storage}
use blackrock.Browser.Render.Bounds.{Names, render_storage_bounds}
use blackrock.Demo.{ann, world, invoice, subscriber, standard, demo, plan}

abbrev v : Services ℕ
v = demo (payment_failed invoice) subscriber

abbrev shown_card : Text → CleanSource
shown_card id = record {
  id = id;
  last4 = codes "4242";
  brand = codes "Visa";
  exp_year = 2030;
  exp_month = 1;
  is_primary = some true;
}

abbrev data_of : Text → CustomerData
data_of name = record {
  email = some (codes "ann@example.org");
  subscription = some name;
  subscription_ends = none;
  credit = some (pos 0);
}

abbrev client : Client
client = record {
  customer = some (data_of (codes "standard"));
  cards = shown_card (codes "old") ∷ [];
  user = some ann;
  calls = [];
  alerts = [];
}

abbrev chooser : Chooser
chooser = record {
  client = client;
  selecting = none;
  prompt_choice = none;
  has_on_complete = true;
  completed = [];
  opened = [];
  check_due = false;
}

abbrev priced : Text → ℕ → Plan
priced name price = record (plan false name) { price = pos price }

-- A plan that is offered, her own, and one that is not offered any more.
abbrev list : List Plan
list =
    priced (codes "free") 0
    ∷ priced (codes "standard") 900
    ∷ record (priced (codes "mega") 9900) { hidden = true }
    ∷ []

abbrev answer : StripeData
answer = record no_stripe_data { sources = some (shown_card (codes "new") ∷ []) }

on_stripe_data_cards_example :
    find_card (codes "old") (on_stripe_data (ok answer) client).cards
    ≡ refreshed (codes "old") (shown_card (codes "new") ∷ []) (find_card (codes "old") client.cards)
on_stripe_data_cards_example =
    on_stripe_data_cards answer (shown_card (codes "new") ∷ []) ann client (codes "old") refl refl

abbrev free_choice : Choice
free_choice = record {
  plan = priced (codes "free") 0;
  is_current = false;
  is_upgrade = false;
  is_downgrade = true;
}

click_plan_calls_example :
    let t' = click_plan false false free_choice chooser in
    (t'.client.calls ≡ [])
    ⊎ ((t'.client.calls ≡ call_update_plan (codes "free") ∷ [])
        × (t'.selecting ≡ some (codes "free"))
        × (t'.opened ≡ [])
        × ((false ≡ false) ⊎ (false ≡ true))
        × (free_choice.is_current && is_on (codes "free") chooser.client.user ≡ false)
        × ((is_empty chooser.client.cards ≡ false)
            ⊎ (eq_ℤ (priced (codes "free") 0).price (pos 0) ≡ true)))
click_plan_calls_example = click_plan_calls false false free_choice chooser

refresh_shows_example :
    ((get_stripe_data v (some (codes "ann")) world).0 ≡ ok (stripe_data v subscriber))
    × (my_plan_name (on_stripe_data (ok (stripe_data v subscriber)) client).customer
        ≡ codes "standard")
unfolding text_eq customer_id current_subscription
refresh_shows_example =
    refresh_shows v (codes "ann") (codes "standard") (codes "cus_1") ann subscriber standard world
      client refl refl refl refl refl refl (ground arith) refl

abbrev message : Message
message = record {
  origin = codes "https://payments.example.org";
  id = codes "7";
  show_prompt = false;
  plan = codes "standard";
  token = some (record { id = codes "tok_1"; email = codes "ann@example.org" });
  error = false;
}

abbrev page_settings : Settings
page_settings = record { client = client; add_card_prompt = true }

abbrev powerbox : Powerbox
powerbox = record { client = client; told = [] }

messages_call_example :
    let url = codes "https://payments.example.org" in
    CallsForToken url
      (codes "7")
      message
      (λ token. call_buy_plan token.id token.email message.plan)
      []
      (on_prompt_message url (codes "7") message chooser).client.calls
    × CallsForToken url
        (codes "7")
        message
        (λ token. call_add_card token.id token.email)
        []
        (on_settings_message url (codes "7") message page_settings).client.calls
    × CallsForToken url
        (codes "7")
        message
        (λ token. call_add_card token.id token.email)
        []
        (on_powerbox_message url (codes "7") message powerbox).client.calls
messages_call_example =
    messages_call (codes "https://payments.example.org") (codes "7") message chooser page_settings
      powerbox

render_storage_bounds_example :
    (n : ℕ) × (unit : ℕ) × (suffix : Text) × Names suffix unit
    × (render_storage 2500000 ≡ decimal n ++ suffix)
    × (n * unit ≤ 2500000)
    × (2500000 < suc n * unit)
    × ((n < 1000) ⊎ (unit ≡ giga))
    × ((◌≡◌ {A = ℕ} 2500000 0) ⊎ (1 ≤ n))
render_storage_bounds_example = render_storage_bounds 2500000

printed : render_storage 2500000 ≡ codes "2MB"
unfolding render_storage storage_parts decimal
printed = refl

-- Two cards, of which the first is primary.
abbrev two_cards : Client
two_cards = record client {
  cards =
      shown_card (codes "one") ∷ record (shown_card (codes "two")) { is_primary = some false } ∷ [];
}

click_make_primary_exact_example :
    let client' = click_make_primary (codes "two") two_cards in
    (primaries client'.cards ≡ codes "two" ∷ [])
    × (ids_of client'.cards ≡ codes "one" ∷ codes "two" ∷ [])
    × (client'.calls ≡ call_make_primary (codes "two") ∷ [])
unfolding text_eq
click_make_primary_exact_example =
    click_make_primary_exact (codes "two") two_cards refl (inr (codes "one", refl))
