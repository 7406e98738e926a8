-- ===== src/Browser/Render.antt =====
-- The helpers that print quantities, and the data of the checkout frame, in
-- shell/packages/blackrock-payments/billingPrompt.js, billingSettings.js and payments-api-client.js. A
-- quotient of whole numbers below 2^52 is never rounded up to a whole number, so `Math.floor` of it is
-- the whole quotient.
pub mod Bounds
use blackrock.Prelude.{
  ℕ, suc, ◌+◌, ◌/◌, Bool, true, false, leb, Option, none, some, List, [], ◌∷◌, ◌++◌, if◌then◌else◌,
}
use blackrock.Prelude.Int.{ℤ, pos, negsuc}
use blackrock.Text.{Text, codes, title_case}
use blackrock.Text.Decimal.{decimal}
use blackrock.Stripe.{EmailEntry, Plan}
use blackrock.Mailing.{primary_emails}

abbrev pub giga : ℕ
giga = 1000000000

abbrev pub mega : ℕ
mega = 1000000

abbrev pub kilo : ℕ
kilo = 1000

-- The whole number and the unit that `renderStorage` prints.
unfoldable pub storage_parts : ℕ → ℕ × (ℕ × Text)
storage_parts size =
    if leb giga size
    then (size / giga, (giga, codes "GB"))
    else (if leb mega size
        then (size / mega, (mega, codes "MB"))
        else (if leb kilo size then (size / kilo, (kilo, codes "kB")) else (size, (1, codes "B"))))

unfoldable pub render_storage : ℕ → Text
unfolding storage_parts
render_storage size = decimal (storage_parts size).0 ++ (storage_parts size).1.1

-- `Math.floor(n / 1000000 / 3600)`
unfoldable pub render_cu : ℕ → ℕ
render_cu n = n / 1000000 / 3600

-- `Math.floor(price / 100)`
unfoldable pub render_dollars : ℤ → ℤ
render_dollars (pos n) = pos (n / 100)
render_dollars (negsuc n) = negsuc (n / 100)

-- A quantity, where `none` is `Infinity`.
abbrev pub render_quantity : Option ℕ → Text
render_quantity none = codes "unlimited"
render_quantity (some n) = decimal n

-- The object of `checkoutData` in the chooser, before it is encoded.
pub record CheckoutData : Type 0 where
  pub name : Text
  pub description : Text
  pub amount : ℤ
  pub panel_label : Text
  pub id : Text
  pub plan_name : Text
  pub email : Text

unfoldable pub checkout_data : Text → Plan → List EmailEntry → Option CheckoutData
checkout_data id plan entries = elim (primary_emails entries) [
  | [] ↦ none
  | email ∷ _ ↦ some (record {
    name = codes "Sandstorm Oasis";
    description = title_case plan.id ++ codes " Plan";
    amount = plan.price;
    panel_label = codes "{{amount}} / Month";
    id = id;
    plan_name = plan.id;
    email = email;
  })
]

-- The object for a new card, which the powerbox opens at once.
pub record CardData : Type 0 where
  pub name : Text
  pub panel_label : Text
  pub email : Text
  pub id : Text
  pub open_now : Bool

abbrev pub card_data : Bool → Text → List EmailEntry → Option CardData
card_data open_now id entries = elim (primary_emails entries) [
  | [] ↦ none
  | email ∷ _ ↦ some (record {
    name = codes "Sandstorm Oasis";
    panel_label = codes "Add Card";
    email = email;
    id = id;
    open_now = open_now;
  })
]

-- The settings page, which needs the customer's data to be there.
abbrev pub settings_card_data : {A : Type 0} → Option A → Text → List EmailEntry → Option CardData
settings_card_data none id entries = none
settings_card_data (some _) id entries = card_data false id entries
