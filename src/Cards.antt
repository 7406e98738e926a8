-- ===== src/Cards.antt =====
-- Payment sources in shell/packages/blackrock-payments/payments-server.js: `hashSourceId`,
-- `findOriginalSourceId`, `sanitizeSource`, `createUser`, and the methods `addCardForUser`,
-- `deleteCardForUser`, `makeCardPrimary` and `getStripeData`. Arguments are texts, so that the calls
-- of `check` pass; a session is the `userId` of a method call, `none` where nobody is logged in.
pub mod Ids
pub mod Guards
pub mod Stored
pub mod Keeps
pub mod Joins
mod Tests
use blackrock.Prelude.{
  ℕ, zero, suc, ◌*◌, Bool, true, false, ◌&&◌, ◌||◌, Option, none, some, List, [], ◌∷◌, ◌++◌, map,
  if◌then◌else◌,
}
use blackrock.Prelude.Int.{ℤ, pos, ◌-ℤ◌}
use blackrock.Text.{Text, codes, text_eq, is_truthy}
use blackrock.Users.{User, customer_id, find_by_id, set_customer}
use blackrock.Stripe.{
  Failure, meteor_error, stripe_error, type_error, Result, ok, err, Customer, Source, Subscription,
  Request, create_customer, create_source, delete_card, update_customer, Services,
}
use blackrock.Stripe.Objects.{current_subscription}
use blackrock.Plans.{base_plan}
use blackrock.Action.{
  World, Action, pure, throw, read, gets_users, perform, ◌>>=◌, ◌>>◌, set_user, throw_if,
}
use blackrock.Mail.{customer_argument}

-- What a browser is shown of a payment source.
pub record CleanSource : Type 0 where
  pub id : Text
  pub last4 : Text
  pub brand : Text
  pub exp_year : ℕ
  pub exp_month : ℕ
  -- `none` where the caller leaves it undefined
  pub is_primary : Option Bool

-- `source.id === data.default_source`
abbrev pub is_default : Option Text → Source → Bool
is_default none source = false
is_default (some id) source = text_eq source.id id

-- The answer of `getStripeData`; a missing field is undefined.
pub record StripeData : Type 0 where
  pub email : Option Text
  pub subscription : Option Text
  -- in milliseconds
  pub subscription_ends : Option ℕ
  pub sources : Option (List CleanSource)
  pub credit : Option ℤ

abbrev pub no_stripe_data : StripeData
no_stripe_data = record {
  email = none;
  subscription = none;
  subscription_ends = none;
  sources = none;
  credit = none;
}

-- `data.sources && data.sources.data && data.sources.data.length >= 1`, and then the first source
unfoldable pub first_source : Customer → Option Source
first_source customer = elim customer.sources [
  | none ↦ none
  | some sources ↦ elim sources [ [] ↦ none | source ∷ _ ↦ some source ]
]

-- One source, and a subscription: the card that pays for it.
unfoldable pub is_last_card : Customer → Bool
is_last_card customer = elim customer.sources [
  | some (_ ∷ []) ↦ elim customer.subscriptions [ some (_ ∷ _) ↦ true | _ ↦ false ]
  | _ ↦ false
]

module _ {S : Type 0} (v : Services S) where
  -- The id of a source that leaves the server: a hash, with the server's address in front.
  unfoldable pub hash_source_id : Text → Text
  hash_source_id id = v.hash (v.root_url ++ codes ":" ++ id)

  unfoldable pub sanitize_source : Source → Option Bool → CleanSource
  unfolding hash_source_id
  sanitize_source source is_primary = record {
    id = hash_source_id source.id;
    last4 = source.last4;
    brand = source.brand;
    exp_year = source.exp_year;
    exp_month = source.exp_month;
    is_primary = is_primary;
  }

  -- The loop of `findOriginalSourceId`.
  unfoldable pub find_source : Text → List Source → Option Text
  find_source hashed [] = none
  find_source hashed (source ∷ sources) =
      if text_eq (hash_source_id source.id) hashed
      then some source.id
      else find_source hashed sources

  unfoldable pub find_original_source_id : Text → Text → Action S Text
  unfolding find_source
  find_original_source_id hashed customer = do
    found ← read (v.retrieve_customer customer)
    elim found.sources [
      | none ↦ throw (meteor_error 400 "Id not found")
      | some sources ↦ elim (find_source hashed sources) [
        | none ↦ throw (meteor_error 400 "Id not found")
        | some id ↦ pure id
      ]
    ]

  -- `Meteor.user()`, of which every caller reads a field at once.
  unfoldable pub logged_in_user : Text → Action S User
  logged_in_user user_id = do
    found ← gets_users (find_by_id user_id)
    elim found [ none ↦ throw type_error | some user ↦ pure user ]

  -- A new customer in Stripe, and its id in the user's document.
  unfoldable pub create_user : Text → Text → Text → Action S Customer
  create_user user_id token email = do
    customer ← perform (create_customer token email (some user_id)) v.request_customer
    set_user user_id (set_customer customer.id)
    pure customer

  unfoldable pub add_card_for_user : Option Text → Text → Text → Action S CleanSource
  unfolding logged_in_user create_user sanitize_source
  add_card_for_user none token email = throw (meteor_error 403 "Must be logged in to add card")
  add_card_for_user (some user_id) token email = do
    user ← logged_in_user user_id
    elim (customer_id user) [
      | some id ↦ do
        source ← perform (create_source id token) v.request_source
        pure (sanitize_source source (some false))
      | none ↦ do
        customer ← create_user user_id token email
        elim (first_source customer) [
          | some source ↦ pure (sanitize_source source (some true))
          | none ↦ throw (meteor_error 500 "Stripe created new user with no payment sources")
        ]
    ]

  pub delete_card_for_user : Option Text → Text → Action S (Unit {0})
  unfolding logged_in_user find_original_source_id
  delete_card_for_user none hashed = throw (meteor_error 403 "Must be logged in to delete card")
  delete_card_for_user (some user_id) hashed = do
    user ← logged_in_user user_id
    customer ← customer_argument v user
    found ← read (v.retrieve_customer customer)
    throw_if (is_last_card found) (meteor_error 400 "Can't delete last card if still subscribed")
    id ← find_original_source_id hashed customer
    perform (delete_card customer id) v.request

  pub make_card_primary : Option Text → Text → Action S (Unit {0})
  unfolding logged_in_user find_original_source_id
  make_card_primary none hashed =
      throw (meteor_error 403 "Must be logged in to change primary card")
  make_card_primary (some user_id) hashed = do
    user ← logged_in_user user_id
    customer ← customer_argument v user
    id ← find_original_source_id hashed customer
    perform (update_customer customer id) v.request

  -- What `getStripeData` returns for a customer.
  unfoldable pub stripe_data : Customer → StripeData
  unfolding sanitize_source
  stripe_data customer =
      let current = current_subscription customer in
      record {
        email = customer.email;
        subscription = elim current [ none ↦ none | some s ↦ some (base_plan s.plan_id) ];
        subscription_ends = elim current [
          | none ↦ none
          | some s ↦ if s.cancel_at_period_end then some (s.current_period_end * 1000) else none
        ];
        sources = elim customer.sources [
          | none ↦ none
          | some sources ↦ some (
              map
                (λ source.
                  sanitize_source source (some (is_default customer.default_source source)))
                sources)
        ];
        credit = some (elim customer.account_balance [ none ↦ pos 0 | some b ↦ pos 0 -ℤ b ]);
      }

  unfoldable pub get_stripe_data : Option Text → Action S StripeData
  unfolding logged_in_user stripe_data
  get_stripe_data none = throw (meteor_error 403 "Must be logged in to get stripe data")
  get_stripe_data (some user_id) = do
    user ← logged_in_user user_id
    elim (customer_id user) [
      | none ↦ pure no_stripe_data
      | some id ↦ do customer ← read (v.retrieve_customer id); pure (stripe_data customer)
    ]
