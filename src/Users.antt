-- ===== src/Users.antt =====
-- The documents of the `users` collection, as far as the payments package reads and writes them, and
-- the two Mongo operations that it applies to the collection: `findOne`, which returns the first
-- document that fits, and `update`, which changes the first document that fits.
pub mod Laws
use blackrock.Prelude.{
  ℕ, Bool, true, false, Option, none, some, List, [], ◌∷◌, if◌then◌else◌, find?,
}
use blackrock.Prelude.Int.{ℤ}
use blackrock.Text.{Text, codes, text_eq, is_truthy}

-- A bonus to a user's quota, in whole units; a missing field adds nothing.
pub record Bonus : Type 0 where
  pub storage : Option ℤ
  pub compute : Option ℤ
  pub grains : Option ℤ

pub record PaymentsBonuses : Type 0 where
  pub mailing_list : Bool
  pub metadata : Bonus

-- `Meteor.user().payments`
pub record Payments : Type 0 where
  pub id : Option Text
  pub last_invoice_time : Option ℕ
  pub bonuses : Option PaymentsBonuses

pub record User : Type 0 where
  pub id : Text
  pub plan : Option Text
  pub payments : Option Payments
  pub plan_bonus : Option Bonus
  pub is_admin : Bool
  -- `loginIdentities: {$exists: true}` and `expires: {$exists: true}`
  pub has_identities : Bool
  pub expires : Bool
  pub has_completed_signup : Bool

abbrev pub no_payments : Payments
no_payments = record { id = none; last_invoice_time = none; bonuses = none }

-- The `payments` object that a write to one of its fields starts from.
abbrev pub payments_of : User → Payments
payments_of u = elim u.payments [ none ↦ no_payments | some p ↦ p ]

-- `user.payments && user.payments.id`, where it is truthy
unfoldable pub customer_id : User → Option Text
customer_id u = elim (payments_of u).id [
  | none ↦ none
  | some id ↦ if is_truthy id then some id else none
]

-- Does `payments.id` equal the given Stripe customer?
unfoldable pub has_customer : Text → User → Bool
has_customer customer u = elim (payments_of u).id [ none ↦ false | some id ↦ text_eq id customer ]

-- `Meteor.users.findOne({"payments.id": customer})`
abbrev pub find_by_customer : Text → List User → Option User
find_by_customer customer users = find? (has_customer customer) users

abbrev pub has_id : Text → User → Bool
has_id id u = text_eq u.id id

-- `Meteor.users.findOne({_id: id})`
abbrev pub find_by_id : Text → List User → Option User
find_by_id id users = find? (has_id id) users

-- `Meteor.users.update({_id: id}, …)`
unfoldable pub update_user : Text → (User → User) → List User → List User
update_user id change [] = []
update_user id change (u ∷ users) =
    if has_id id u then change u ∷ users else u ∷ update_user id change users

-- `{$set: {plan: plan}}`
abbrev pub set_plan : Text → User → User
set_plan plan u = record u { plan = some plan }

-- `{$set: {"payments.lastInvoiceTime": time}}`
abbrev pub set_last_invoice_time : ℕ → User → User
set_last_invoice_time time u = record u {
  payments = some (record (payments_of u) { last_invoice_time = some time });
}

-- `{$set: {payments: {id: customer}}}` replaces the whole object.
abbrev pub set_customer : Text → User → User
set_customer customer u = record u { payments = some (record no_payments { id = some customer }) }

-- `{$set: {planBonus: bonus, "payments.bonuses": bonuses}}`
abbrev pub set_bonuses : Bonus → PaymentsBonuses → User → User
set_bonuses bonus bonuses u = record u {
  plan_bonus = some bonus;
  payments = some (record (payments_of u) { bonuses = some bonuses });
}

-- A member of the mailing list, as the package's own copy of the list has it.
pub record Subscriber : Type 0 where
  -- its `_id`
  pub email : Text
  pub canonical : Text
  pub subscribed : Bool
  -- the ISO form of the date of Mailchimp's last change, if the entry comes from there
  pub last_changed : Option Text

abbrev pub free : Text
free = codes "free"
