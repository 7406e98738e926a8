-- ===== src/Cards/Keeps.antt =====
-- The methods on cards that change no user.
use blackrock.Prelude.{refl, Option, none, some, arith}
use blackrock.Text.{Text}
use blackrock.Users.{User}
use blackrock.Stripe.{Services}
use blackrock.Action.Keeps.{KeepsUsers}
use blackrock.Mail.{customer_argument}
use blackrock.Cards.{
  logged_in_user, find_original_source_id, delete_card_for_user, make_card_primary, get_stripe_data,
}

module _ {S : Type 0} (v : Services S) where
  customer_argument-KeepsUsers : (user : User) → KeepsUsers (customer_argument v user)
  unfolding customer_argument
  customer_argument-KeepsUsers user w = ground arith

  pub find_original-KeepsUsers :
      (hashed customer : Text) → KeepsUsers (find_original_source_id v hashed customer)
  unfolding find_original_source_id
  find_original-KeepsUsers hashed customer w = ground arith

  pub delete_card-KeepsUsers :
      (session : Option Text) (hashed : Text) → KeepsUsers (delete_card_for_user v session hashed)
  unfolding delete_card_for_user logged_in_user
  delete_card-KeepsUsers none hashed w = refl
  delete_card-KeepsUsers (some user_id) hashed w =
      grind (arith, customer_argument-KeepsUsers, find_original-KeepsUsers)

  pub make_primary-KeepsUsers :
      (session : Option Text) (hashed : Text) → KeepsUsers (make_card_primary v session hashed)
  unfolding make_card_primary logged_in_user
  make_primary-KeepsUsers none hashed w = refl
  make_primary-KeepsUsers (some user_id) hashed w =
      grind (arith, customer_argument-KeepsUsers, find_original-KeepsUsers)

  pub get_stripe_data-KeepsUsers : (session : Option Text) → KeepsUsers (get_stripe_data v session)
  unfolding get_stripe_data logged_in_user
  get_stripe_data-KeepsUsers none w = refl
  get_stripe_data-KeepsUsers (some user_id) w = ground arith
