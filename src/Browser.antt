-- ===== src/Browser.antt =====
-- The payments package in the browser: the copy of the Stripe data that its pages share
-- (shell/packages/blackrock-payments/payments-client.js), the calls that they make of the server, and
-- the simulations of the methods on the mailing list. A call is recorded where it is made; what the
-- page does with the server's answer is a function of its own, named `on_…`, so that answers may come
-- in any order.
pub mod Cache
pub mod Chooser
pub mod Checkout
pub mod Settings
pub mod Render
pub mod Account
mod Tests
use blackrock.Prelude.{ℕ, Bool, true, false, ◌&&◌, Option, none, some, List, [], ◌∷◌, if◌then◌else◌}
use blackrock.Prelude.Int.{ℤ}
use blackrock.Text.{Text, text_eq, is_truthy}
use blackrock.Users.{User, PaymentsBonuses, payments_of, free}
use blackrock.Stripe.{Failure, Result, ok, err}
use blackrock.Bonuses.{no_bonus}
use blackrock.Cards.{CleanSource, StripeData}

-- The document '0' of `StripeCustomerData`.
pub record CustomerData : Type 0 where
  pub email : Option Text
  pub subscription : Option Text
  -- in milliseconds
  pub subscription_ends : Option ℕ
  pub credit : Option ℤ

-- `Meteor.call(…)`
pub data Call : Type 0 where
  call_stripe_data call_subscribe_list call_unsubscribe_list : Call
  -- with the id and the address of a token from the checkout frame, and the plan
  call_buy_plan : Text → Text → Text → Call
  call_add_card : Text → Text → Call
  call_update_plan call_delete_card call_make_primary : Text → Call

-- What the pages share, the newest call and the newest alert first.
pub record Client : Type 0 where
  pub customer : Option CustomerData
  -- `StripeCards`, whose `_id` is the source's id
  pub cards : List CleanSource
  -- `Meteor.user()`
  pub user : Option User
  pub calls : List Call
  pub alerts : List Failure

abbrev pub call : Call → Client → Client
call c client = record client { calls = c ∷ client.calls }

abbrev pub alert : Failure → Client → Client
alert e client = record client { alerts = e ∷ client.alerts }

-- `StripeCards.upsert({_id: source.id}, source)`
unfoldable pub upsert_card : CleanSource → List CleanSource → List CleanSource
upsert_card source [] = source ∷ []
upsert_card source (c ∷ cards) =
    if text_eq c.id source.id then source ∷ cards else c ∷ upsert_card source cards

unfoldable pub upsert_cards : List CleanSource → List CleanSource → List CleanSource
upsert_cards [] cards = cards
upsert_cards (source ∷ sources) cards = upsert_cards sources (upsert_card source cards)

-- `user.plan === "free"`
abbrev pub is_free : User → Bool
is_free user = elim user.plan [ none ↦ false | some plan ↦ text_eq plan free ]

-- A string that is there and not empty.
abbrev pub truthy : Option Text → Option Text
truthy none = none
truthy (some text) = if is_truthy text then some text else none

-- `data.subscription || (Meteor.user().plan === "free" ? "free" : undefined)`, which throws where
-- nobody is logged in any more
abbrev pub subscription_or_free : Option Text → Option User → Option (Option Text)
subscription_or_free subscription user = elim (truthy subscription) [
  | some text ↦ some (some text)
  | none ↦ elim user [ none ↦ none | some u ↦ some (if is_free u then some free else none) ]
]

-- `updateStripeData`, up to the server's answer; no caller passes a callback of its own.
abbrev pub update_stripe_data : Client → Client
update_stripe_data client = call call_stripe_data client

-- Its answer: cards are put in, and none is taken out.
unfoldable pub on_stripe_data : Result StripeData → Client → Client
on_stripe_data (err e) client = alert e client
on_stripe_data (ok data') client = elim (subscription_or_free data'.subscription client.user) [
  | none ↦ client
  | some subscription ↦ record client {
    customer = some (record {
      email = data'.email;
      subscription = subscription;
      subscription_ends = data'.subscription_ends;
      credit = data'.credit;
    });
    cards = elim data'.sources [
      | none ↦ client.cards
      | some sources ↦ upsert_cards sources client.cards
    ];
  }
]

-- `{$set: {"payments.bonuses.mailingList": listed}}`
abbrev pub set_mailing_list : Bool → User → User
set_mailing_list listed u = record u {
  payments = some (record (payments_of u) {
    bonuses = some (elim (payments_of u).bonuses [
      | none ↦ record { mailing_list = listed; metadata = no_bonus }
      | some b ↦ record b { mailing_list = listed }
    ]);
  });
}

-- The call of a method on the mailing list, and its simulation, which runs at once.
abbrev pub simulate : Bool → Client → Client
simulate listed client = record client {
  user = elim client.user [ none ↦ none | some u ↦ some (set_mailing_list listed u) ];
}

unfoldable pub subscribe_list : Client → Client
subscribe_list client = simulate true (call call_subscribe_list client)

unfoldable pub unsubscribe_list : Client → Client
unsubscribe_list client = simulate false (call call_unsubscribe_list client)

-- The answer to either of them.
abbrev pub on_list : Result (Unit {0}) → Client → Client
on_list (ok _) client = client
on_list (err e) client = alert e client

-- `BlackrockPayments.processOptins`, by whether the form has the checkbox and whether it is checked
pub process_optins : Bool → Bool → Client → Client
unfolding subscribe_list
process_optins has_box checked client = if has_box && checked then subscribe_list client else client
