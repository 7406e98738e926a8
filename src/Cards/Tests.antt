-- ===== src/Cards/Tests.antt =====
-- The theorems on cards at a concrete customer.
use blackrock.Prelude.{ℕ, ◌≡◌, refl, true, false, some, [], ◌∷◌}
use blackrock.Text.{Text, codes, text_eq}
use blackrock.Stripe.{
  Customer, Source, ok, err, meteor_error, delete_card, payment_failed, Services,
}
use blackrock.Mail.{customer_argument}
use blackrock.Cards.{
  is_last_card, hash_source_id, sanitize_source, find_original_source_id, logged_in_user,
  delete_card_for_user,
}
use blackrock.Cards.Ids.{find_original_source_id-sanitize_source}
use blackrock.Cards.Guards.{IsOwnCustomer, IsCardOf, delete_card_for_user_owned}
use blackrock.Demo.{card, world, invoice, subscriber, former, demo}
use mathlib.Core.List.{Memᴰ}

abbrev subscribed : Services ℕ
subscribed = demo (payment_failed invoice) subscriber

abbrev unsubscribed : Services ℕ
unsubscribed = demo (payment_failed invoice) former

abbrev hashed : Text
hashed = codes "https://example.org:card_1"

find_original_source_id-sanitize_source_example :
    find_original_source_id subscribed
      (sanitize_source subscribed card (some true)).id
      (codes "cus_1")
      world
    ≡ (ok (codes "card_1"), world)
find_original_source_id-sanitize_source_example =
    find_original_source_id-sanitize_source subscribed (codes "cus_1") subscriber (card ∷ []) card
      (some true) world refl refl (Memᴰ.head refl) (λ _. refl, tt)

delete_card_for_user_owned_example :
    (customer : Text) × (found : Customer) × (source : Source) × IsOwnCustomer unsubscribed
      (codes "ann")
      world
      customer
    × (unsubscribed.retrieve_customer customer world.outside ≡ ok found)
    × (is_last_card found ≡ false)
    × IsCardOf unsubscribed (codes "ann") world customer source
    × (hash_source_id unsubscribed source.id ≡ hashed)
    × ((delete_card_for_user unsubscribed (some (codes "ann")) hashed world).1.requests
        ≡ delete_card customer source.id ∷ [])
    × ((delete_card_for_user unsubscribed (some (codes "ann")) hashed world).1.users ≡ world.users)
unfolding delete_card_for_user logged_in_user customer_argument find_original_source_id
    hash_source_id text_eq is_last_card
delete_card_for_user_owned_example =
    delete_card_for_user_owned unsubscribed (codes "ann") world hashed refl

-- The last card is kept.
delete_last_card :
    delete_card_for_user subscribed (some (codes "ann")) hashed world
    ≡ (err (meteor_error 400 "Can't delete last card if still subscribed"), world)
unfolding delete_card_for_user logged_in_user customer_argument is_last_card text_eq
delete_last_card = refl
