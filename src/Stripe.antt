-- ===== src/Stripe.antt =====
-- What the package exchanges with code that is not in the repository: Stripe's objects, and one
-- record of the calls that payments-server.js makes of the Stripe client, of Sandstorm's database
-- and of its mail queue. The calls' answers are a parameter, over a state `S` of the outside world.
pub mod Objects
use blackrock.Prelude.{◌≡◌, refl, ◌⊎◌, inl, inr, ℕ, Bool, Option, List}
use blackrock.Prelude.Int.{ℤ}
use blackrock.Text.{Text}
use blackrock.Users.{User}
use Prim.Native.String.{String}

-- What a call throws.
pub data Failure : Type 0 where
  -- `new Meteor.Error(code, reason)`
  meteor_error : ℕ → String → Failure
  -- `new Meteor.Error("cardError", message)`
  card_error : Text → Failure
  -- an error of the Stripe client: `raw.type` and `raw.message`, if `raw` is there, and `message`
  stripe_error : Option (Text × Text) → Text → Failure
  -- `new Error(message)`
  plain_error : String → Failure
  -- `new Error("Mailchimp: Retry had too many results too: " + total + " > " + count)`
  too_many_results : ℕ → ℕ → Failure
  type_error reference_error : Failure

pub data Result (A : Type 0) : Type 0 where
  ok : A → Result A
  err : Failure → Result A

pub Result-cases :
    {A : Type 0} (r : Result A) → ((a : A) × (r ≡ ok a)) ⊎ ((e : Failure) × (r ≡ err e))
Result-cases (ok a) = inl (a, refl)
Result-cases (err e) = inr (e, refl)

pub record Source : Type 0 where
  pub id : Text
  -- `source.object`, such as "card"
  pub kind : Text
  pub last4 : Text
  pub brand : Text
  pub exp_year : ℕ
  pub exp_month : ℕ

pub record Subscription : Type 0 where
  pub id : Text
  -- `subscription.plan.id`, such as "standard-beta"
  pub plan_id : Text
  pub cancel_at_period_end : Bool
  -- in seconds
  pub current_period_end : ℕ

-- The numbers that `parseFloat` reads from the fields of a customer's `metadata`, 0 where it reads
-- none; `none` stands for a field that is missing or empty. Only whole numbers are modelled.
pub record Metadata : Type 0 where
  pub bonus_storage : Option ℤ
  pub bonus_compute : Option ℤ
  pub bonus_grains : Option ℤ

-- `none` in place of a list stands for an object without `sources.data` or `subscriptions`.
pub record Customer : Type 0 where
  pub id : Text
  pub email : Option Text
  pub sources : Option (List Source)
  pub default_source : Option Text
  pub subscriptions : Option (List Subscription)
  pub account_balance : Option ℤ
  pub metadata : Option Metadata

-- A line of an invoice: one of type "subscription", with its plan's id, or any other, with its
-- description.
pub data Line : Type 0 where
  subscription_line : Text → ℤ → Line
  other_line : Text → ℤ → Line

pub record Invoice : Type 0 where
  pub customer : Text
  pub lines : List Line
  pub amount_due : ℤ
  pub total : ℤ

-- `event.type` with `event.data.object`
pub data EventBody : Type 0 where
  payment_succeeded payment_failed : Invoice → EventBody
  subscription_deleted : Text → EventBody
  other_event : EventBody

pub record Event : Type 0 where
  pub id : Text
  -- in seconds
  pub created : ℕ
  pub body : EventBody

-- A charge that the payments API made, for a customer.
pub record CardCharge : Type 0 where
  pub id : Text
  pub customer : Text
  pub captured : Bool

-- A plan of the `plans` collection; prices are in cents.
pub record Plan : Type 0 where
  pub id : Text
  pub title : Option Text
  pub price : ℤ
  pub hidden : Bool

pub record EmailEntry : Type 0 where
  pub email : Text
  pub verified : Bool
  pub primary : Bool

-- The headers of a message, and its two forms.
pub record Email : Type 0 where
  pub to : Text
  pub sender : Text
  pub subject : Text
  pub text : Text
  pub html : Text
  -- the id under which the HTML shows the attached logo
  pub icon : Text

-- A request that changes something outside, with its arguments.
pub data Request : Type 0 where
  -- source token, e-mail address, description
  create_customer : Text → Text → Option Text → Request
  -- customer, source token
  create_source : Text → Text → Request
  -- customer, card
  delete_card : Text → Text → Request
  -- customer, default source
  update_customer : Text → Text → Request
  delete_customer : Text → Request
  -- amount in cents, customer, source, description, captured at once?
  create_charge : ℤ → Text → Text → Text → Bool → Request
  capture_charge : Text → Request
  -- customer, plan
  create_subscription : Text → Text → Request
  -- customer, subscription, plan
  update_subscription : Text → Text → Text → Request
  -- customer, subscription, at the end of the period?
  cancel_subscription : Text → Text → Bool → Request
  send_email : Email → Request
  -- a call of Mailchimp: the URL and the new status
  mailchimp_patch : Text → Text → Request
  -- the URL, the address and the status
  mailchimp_put : Text → Text → Text → Request

-- Reads see the state; a request may change it, also where it throws.
pub record Services (S : Type 0) : Type 0 where
  pub retrieve_event : Text → S → Result Event
  pub retrieve_customer : Text → S → Result Customer
  -- customer, source
  pub retrieve_source : Text → Text → S → Result Source
  pub retrieve_charge : Text → S → Result CardCharge
  -- `SandstormDb.getPlan`, by the plan's name and, where it is given, the user; it throws if there is
  -- no such plan
  pub get_plan : Text → Option User → S → Result Plan
  -- `SandstormDb.getUserEmails`, by the user's `_id`
  pub user_emails : Text → S → List EmailEntry
  pub server_title : S → Text
  -- `Random.id()`
  pub random_id : S → Text
  pub return_address : S → Text
  -- sha256 in base64
  pub hash : Text → Text
  pub root_url : Text
  -- `Meteor.settings.public.outOfBeta`
  pub out_of_beta : Bool
  -- the customer or the source that the two `create` requests make
  pub request_customer : Request → S → Result Customer × S
  pub request_source : Request → S → Result Source × S
  -- the subscription that a cancelation returns
  pub request_subscription : Request → S → Result Subscription × S
  pub request_charge : Request → S → Result CardCharge × S
  -- a request whose answer the code drops
  pub request : Request → S → Result (Unit {0}) × S
