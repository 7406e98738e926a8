-- ===== src/Bonuses.antt =====
-- Bonuses to a user's quota in shell/packages/blackrock-payments/payments-server.js: `getStripeBonus`,
-- `getMailchimpBonus`, `updateBonuses` and the publication `myBonuses`, with the constant of
-- constants.js. Bonuses are whole numbers.
pub mod Equal
pub mod Update
pub mod Keeps
mod Tests
use blackrock.Prelude.{
  ℕ, Bool, true, false, not, ◌&&◌, ◌||◌, ◌==◌, Option, none, some, List, [], ◌∷◌, map,
  if◌then◌else◌,
}
use blackrock.Prelude.Int.{ℤ, pos, negsuc, ◌+ℤ◌}
use blackrock.Text.{Text, text_eq}
use blackrock.Email.{canonicalize_email}
use blackrock.Users.{
  User, Bonus, PaymentsBonuses, Payments, Subscriber, customer_id, set_bonuses, payments_of,
  find_by_id,
}
use blackrock.Stripe.{type_error, Customer, EmailEntry, Metadata, Services}
use blackrock.Action.{
  World, Action, pure, throw, gets_users, read, gets_outside, gets_subscribers, ◌>>=◌, ◌>>◌,
  set_user,
}

-- `MAILING_LIST_BONUS`
abbrev pub mailing_list_bonus : ℤ
mailing_list_bonus = pos 1000000000

-- `{}`
abbrev pub no_bonus : Bonus
no_bonus = record { storage = none; compute = none; grains = none }

abbrev pub metadata_bonus : Customer → Bonus
metadata_bonus customer = elim customer.metadata [
  | none ↦ no_bonus
  | some m ↦ record {
    storage = m.bonus_storage;
    compute = m.bonus_compute;
    grains = m.bonus_grains;
  }
]

abbrev pub mailchimp_bonus : Bool → Bonus
mailchimp_bonus listed =
    if listed then record no_bonus { storage = some mailing_list_bonus } else no_bonus

-- `email` in a list of addresses
abbrev pub is_among : Text → List Text → Bool
is_among email [] = false
is_among email (e ∷ emails) = text_eq email e || is_among email emails

-- The canonical forms of the verified addresses.
unfoldable pub verified_emails : List EmailEntry → List Text
verified_emails [] = []
verified_emails (entry ∷ entries) =
    if entry.verified
    then canonicalize_email entry.email ∷ verified_emails entries
    else verified_emails entries

-- `find({canonical: {$in: emails}, subscribed: true}).count() > 0`
unfoldable pub is_listed : List Text → List Subscriber → Bool
is_listed emails [] = false
is_listed emails (s ∷ subscribers) =
    (is_among s.canonical emails && s.subscribed) || is_listed emails subscribers

-- `if (field in b) bonus[field] = (bonus[field] || 0) + b[field]`, for the two bonuses in turn
abbrev pub add_field : Option ℤ → Option ℤ → Option ℤ
add_field a none = a
add_field none (some b) = some b
add_field (some a) (some b) = some (a +ℤ b)

unfoldable pub add_bonus : Bonus → Bonus → Bonus
add_bonus a b = record {
  storage = add_field a.storage b.storage;
  compute = add_field a.compute b.compute;
  grains = add_field a.grains b.grains;
}

abbrev pub eq_ℤ : ℤ → ℤ → Bool
eq_ℤ (pos m) (pos n) = m == n
eq_ℤ (negsuc m) (negsuc n) = m == n
eq_ℤ _ _ = false

abbrev pub eq_field : Option ℤ → Option ℤ → Bool
eq_field none none = true
eq_field (some a) (some b) = eq_ℤ a b
eq_field _ _ = false

-- `_.isEqual`
abbrev pub eq_bonus : Bonus → Bonus → Bool
eq_bonus a b =
    eq_field a.storage b.storage && (eq_field a.compute b.compute && eq_field a.grains b.grains)

abbrev pub eq_bool : Bool → Bool → Bool
eq_bool a b = if a then b else not b

abbrev pub eq_bonuses : PaymentsBonuses → PaymentsBonuses → Bool
eq_bonuses a b = eq_bool a.mailing_list b.mailing_list && eq_bonus a.metadata b.metadata

abbrev pub stored_bonuses : Option PaymentsBonuses → PaymentsBonuses → Bool
stored_bonuses none bonuses = false
stored_bonuses (some b) bonuses = eq_bonuses b bonuses

abbrev pub stored_bonus : Option Bonus → Bonus → Bool
stored_bonus none bonus = false
stored_bonus (some b) bonus = eq_bonus b bonus

-- Is there nothing to write? A document without `payments` is always written.
unfoldable pub is_up_to_date : User → Bonus → PaymentsBonuses → Bool
is_up_to_date user bonus bonuses =
    stored_bonus user.plan_bonus bonus
    && (elim user.payments [ none ↦ false | some p ↦ stored_bonuses p.bonuses bonuses ])

-- The `planBonus` that belongs to `payments.bonuses`.
abbrev pub plan_bonus_of : PaymentsBonuses → Bonus
plan_bonus_of bonuses = add_bonus bonuses.metadata (mailchimp_bonus bonuses.mailing_list)

module _ {S : Type 0} (v : Services S) where
  unfoldable pub stripe_bonus : User → Action S Bonus
  stripe_bonus user = elim (customer_id user) [
    | none ↦ pure no_bonus
    | some id ↦ do customer ← read (v.retrieve_customer id); pure (metadata_bonus customer)
  ]

  -- Is a verified address of the user on the mailing list?
  unfoldable pub on_mailing_list : User → Action S Bool
  on_mailing_list user = do
    entries ← gets_outside (v.user_emails user.id)
    gets_subscribers (is_listed (verified_emails entries))

  unfoldable pub update_bonuses : User → Action S PaymentsBonuses
  unfolding stripe_bonus on_mailing_list is_up_to_date add_bonus
  update_bonuses user = do
    metadata ← stripe_bonus user
    listed ← on_mailing_list user
    let bonuses : PaymentsBonuses = record { mailing_list = listed; metadata = metadata }
    if is_up_to_date user (plan_bonus_of bonuses) bonuses
        then pure bonuses
        else (set_user user.id (set_bonuses (plan_bonus_of bonuses) bonuses) >> pure bonuses)

  -- The publication "myBonuses": what it sends of the user's document, after an update.
  unfoldable pub my_bonuses : Option Text → Action S (Option PaymentsBonuses)
  my_bonuses none = pure none
  my_bonuses (some user_id) = do
    found ← gets_users (find_by_id user_id)
    elim found [
      | none ↦ throw type_error
      | some user ↦ do
        update_bonuses user
        found' ← gets_users (find_by_id user_id)
        pure (elim found' [ none ↦ none | some user' ↦ (payments_of user').bonuses ])
    ]
