-- ===== src/Browser/Cache.antt =====
-- What a refresh of the Stripe data does to the cards that the pages share.
use blackrock.Prelude.{
  ◌≡◌, refl, ◌∙◌, ap, inl, inr, false, Option, none, some, List, [], ◌∷◌, arith, Bool-cases,
  if◌then◌else◌,
}
use blackrock.Text.{Text, text_eq}
use blackrock.Text.Laws.{text_eq→eq, text_eq_comm}
use blackrock.Users.{User}
use blackrock.Stripe.{ok}
use blackrock.Cards.{CleanSource, StripeData}
use blackrock.Browser.{Client, upsert_card, upsert_cards, on_stripe_data}

-- The card with an id in the pages' copy.
abbrev pub find_card : Text → List CleanSource → Option CleanSource
find_card id [] = none
find_card id (c ∷ cards) = if text_eq c.id id then some c else find_card id cards

-- What is found under an id once these sources are put in: the last one of them, or what there was.
abbrev pub refreshed : Text → List CleanSource → Option CleanSource → Option CleanSource
refreshed id [] before = before
refreshed id (s ∷ sources) before =
    refreshed id sources (if text_eq s.id id then some s else before)

find_card-upsert_card :
    (id : Text) (source : CleanSource) (cards : List CleanSource)
    → find_card id (upsert_card source cards)
      ≡ (if text_eq source.id id then some source else find_card id cards)
unfolding upsert_card
find_card-upsert_card id source [] = refl
find_card-upsert_card id source (c ∷ cards) = elim (Bool-cases (text_eq c.id source.id)) [
  | inl hit ↦ rw hit (by_id (text_eq→eq c.id source.id hit))
  | inr miss ↦ elim (Bool-cases (text_eq c.id id)) [
    | inl here ↦
        let other : text_eq source.id id ≡ false =
          rw (text_eq→eq c.id id here) at (text_eq_comm source.id c.id ∙ miss) in
        rw (miss, here, other)
    | inr there ↦ rw (miss, there) (find_card-upsert_card id source cards)
  ]
]
  where
    by_id :
        c.id ≡ source.id
        → (if text_eq source.id id then some source else find_card id cards) ≡ (
            if text_eq source.id id
            then some source
            else (if text_eq c.id id then some c else find_card id cards))
    by_id same = elim (Bool-cases (text_eq source.id id)) [
      | inl hit ↦ rw hit
      | inr miss ↦ rw (same, miss)
    ]

find_card-upsert_cards :
    (id : Text) (sources cards : List CleanSource)
    → find_card id (upsert_cards sources cards) ≡ refreshed id sources (find_card id cards)
unfolding upsert_cards
find_card-upsert_cards id [] cards = refl
find_card-upsert_cards id (s ∷ sources) cards =
    find_card-upsert_cards id sources (upsert_card s cards)
    ∙ ap (refreshed id sources) (find_card-upsert_card id s cards)

-- After a refresh by an answer that lists sources, while a user is logged in: what is found under any
-- id is the last of these sources with the id, as the server has it, or else the card that was there
-- before; so a card that Stripe has no more stays.
pub on_stripe_data_cards :
    (data' : StripeData) (sources : List CleanSource) (user : User) (client : Client) (id : Text)
    → data'.sources ≡ some sources
    → client.user ≡ some user
    → find_card id (on_stripe_data (ok data') client).cards
      ≡ refreshed id sources (find_card id client.cards)
unfolding on_stripe_data
on_stripe_data_cards data' sources user client id listed logged_in =
    let step : (on_stripe_data (ok data') client).cards ≡ upsert_cards sources client.cards =
      ground (arith, listed, logged_in) in
    rw step (find_card-upsert_cards id sources client.cards)
