-- ===== src/Browser/Checkout.antt =====
-- Messages from the frame with Stripe's checkout: the listeners of the plan chooser (billingPrompt.js),
-- of the settings page (billingSettings.js) and of the powerbox (payments-api-client.js), all in
-- shell/packages/blackrock-payments, and what they make of the server's answers.
pub mod Foreign
use blackrock.Prelude.{
  ℕ, Bool, true, false, not, ◌&&◌, ◌||◌, Option, none, some, List, [], ◌∷◌, ◌++◌, if◌then◌else◌,
}
use blackrock.Text.{Text, codes, text_eq}
use blackrock.Stripe.{Failure, Result, ok, err}
use blackrock.Cards.{CleanSource}
use blackrock.Browser.{
  CustomerData, Client, call, alert, call_buy_plan, call_add_card, upsert_card, update_stripe_data,
}
use blackrock.Browser.Chooser.{Chooser, complete_if, eventually_check}

pub record Token : Type 0 where
  pub id : Text
  pub email : Text

-- A message of the browser, with the id of the page that it is for.
pub record Message : Type 0 where
  pub origin : Text
  pub id : Text
  pub show_prompt : Bool
  pub plan : Text
  pub token : Option Token
  pub error : Bool

-- `window.location.protocol + "//" + makeWildcardHost("payments")`
abbrev pub payments_url : Text → Text → Text
payments_url protocol payments_host = protocol ++ (codes "//" ++ payments_host)

-- Is the message from the payments host, and for the page with this id?
abbrev pub is_ours : Text → Text → Message → Bool
is_ours url id message = text_eq message.origin url && text_eq message.id id

abbrev pub has_token : Message → Bool
has_token message = elim message.token [ none ↦ false | some _ ↦ true ]

-- The listener of the plan chooser, at its own id.
unfoldable pub on_prompt_message : Text → Text → Message → Chooser → Chooser
on_prompt_message url id message t =
    if not (is_ours url id message)
    then t
    else (if message.show_prompt
        then record t { prompt_choice = some message.plan }
        else (let called : Chooser = elim message.token [
          | none ↦ t
          | some token ↦ record t {
            client = call (call_buy_plan token.id token.email message.plan) t.client;
          }
        ] in
            if message.error || has_token message
            then record called { prompt_choice = none }
            else called))

-- The answer to its call: the new document has no credit and no end.
unfoldable pub on_plan_bought : Text → Text → Result (Option CleanSource) → Chooser → Chooser
on_plan_bought email plan (err e) t = record t { client = alert e t.client }
on_plan_bought email plan (ok source) t = complete_if true none (
    eventually_check (record t {
      client = record t.client {
        customer = some (record {
          email = some email;
          subscription = some plan;
          subscription_ends = none;
          credit = none;
        });
        cards = elim source [ none ↦ t.client.cards | some card ↦ upsert_card card t.client.cards ];
      };
    }))

-- The settings page: `addCardPrompt`
pub record Settings : Type 0 where
  pub client : Client
  pub add_card_prompt : Bool

unfoldable pub on_settings_message : Text → Text → Message → Settings → Settings
on_settings_message url id message t =
    if not (is_ours url id message)
    then t
    else (if message.show_prompt
        then record t { add_card_prompt = true }
        else (let called : Settings = elim message.token [
          | none ↦ t
          | some token ↦ record t { client = call (call_add_card token.id token.email) t.client }
        ] in
            if message.error || has_token message
            then record called { add_card_prompt = false }
            else called))

-- The answer to its call, whatever it is: the page is refreshed.
abbrev pub on_card_added : Result CleanSource → Client → Client
on_card_added (err e) client = update_stripe_data (alert e client)
on_card_added (ok source) client = update_stripe_data client

-- What a request of the powerbox is told.
pub data Told : Type 0 where
  fail_request : Failure → Told
  complete_with : Text → Told
  cancel_request : Told

pub record Powerbox : Type 0 where
  pub client : Client
  pub told : List Told

unfoldable pub on_powerbox_message : Text → Text → Message → Powerbox → Powerbox
on_powerbox_message url id message t =
    if not (is_ours url id message)
    then t
    else (if message.show_prompt
        then t
        else (let called : Powerbox = elim message.token [
          | none ↦ t
          | some token ↦ record t { client = call (call_add_card token.id token.email) t.client }
        ] in
            if message.error
            then record called { told = cancel_request ∷ called.told }
            else called))

abbrev pub on_powerbox_card : Result CleanSource → Powerbox → Powerbox
on_powerbox_card (err e) t = record t { told = fail_request e ∷ t.told }
on_powerbox_card (ok source) t = record t { told = complete_with source.id ∷ t.told }
