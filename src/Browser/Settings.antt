-- ===== src/Browser/Settings.antt =====
-- The settings page of shell/packages/blackrock-payments/billingSettings.js: its two buttons on a card,
-- and what it shows of the customer's data.
pub mod Primary
use blackrock.Prelude.{true, false, Option, none, some, List, [], ◌∷◌, if◌then◌else◌}
use blackrock.Prelude.Int.{ℤ}
use blackrock.Text.{Text, text_eq}
use blackrock.Users.{free}
use blackrock.Stripe.{Result, ok, err}
use blackrock.Cards.{CleanSource}
use blackrock.Browser.{
  CustomerData, Client, call, alert, call_delete_card, call_make_primary, update_stripe_data,
  truthy,
}

-- `StripeCards.remove({_id: id})`
unfoldable pub remove_card : Text → List CleanSource → List CleanSource
remove_card id [] = []
remove_card id (c ∷ cards) =
    let rest = remove_card id cards in if text_eq c.id id then rest else c ∷ rest

-- `StripeCards.update({isPrimary: true}, {$set: {isPrimary: false}})`, which changes one card
unfoldable pub demote_card : List CleanSource → List CleanSource
demote_card [] = []
demote_card (c ∷ cards) = elim c.is_primary [
  | none ↦ c ∷ demote_card cards
  | some primary ↦
      let rest = demote_card cards in
      if primary then record c { is_primary = some false } ∷ cards else c ∷ rest
]

-- `StripeCards.update({_id: id}, {$set: {isPrimary: true}})`
unfoldable pub promote_card : Text → List CleanSource → List CleanSource
promote_card id [] = []
promote_card id (c ∷ cards) =
    let rest = promote_card id cards in
    if text_eq c.id id then record c { is_primary = some true } ∷ cards else c ∷ rest

abbrev pub click_delete_card : Text → Client → Client
click_delete_card id client = call (call_delete_card id) client

unfoldable pub on_card_deleted : Text → Result (Unit {0}) → Client → Client
on_card_deleted id (err e) client = update_stripe_data (alert e client)
on_card_deleted id (ok _) client =
    update_stripe_data (record client { cards = remove_card id client.cards })

-- The page shows the new primary card before the server has answered.
unfoldable pub click_make_primary : Text → Client → Client
unfolding demote_card promote_card
click_make_primary id client =
    call (call_make_primary id)
      (record client { cards = promote_card id (demote_card client.cards) })

abbrev pub on_card_made_primary : Result (Unit {0}) → Client → Client
on_card_made_primary (err e) client = update_stripe_data (alert e client)
on_card_made_primary (ok _) client = update_stripe_data client

-- `(data && data.subscription) || "free"`
abbrev pub subscription_name : Option CustomerData → Text
subscription_name none = free
subscription_name (some data') = elim (truthy data'.subscription) [ none ↦ free | some name ↦ name ]

-- `data && data.credit`
abbrev pub credit : Option CustomerData → Option ℤ
credit none = none
credit (some data') = data'.credit
