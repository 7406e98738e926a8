-- ===== src/Browser/Settings/Primary.antt =====
-- Which cards the settings page shows as primary.
use blackrock.Text.Laws.{text_eq→eq}
use blackrock.Prelude.{
  Option-cases, ◌≡◌, refl, ap, ◌∙◌, ◌⊎◌, inl, inr, Bool, true, false, ◌||◌, none, some, List, [],
  ◌∷◌, map, if◌then◌else◌, arith, Bool-cases,
}
use blackrock.Text.{Text, text_eq}
use blackrock.Cards.{CleanSource}
use blackrock.Browser.{call_make_primary, Client}
use blackrock.Browser.Settings.{demote_card, promote_card, click_make_primary}

abbrev is_marked : CleanSource → Bool
is_marked c = elim c.is_primary [ none ↦ false | some primary ↦ primary ]

-- The ids of the cards that are marked as primary.
abbrev pub primaries : List CleanSource → List Text
primaries [] = []
primaries (c ∷ cards) = let rest = primaries cards in if is_marked c then c.id ∷ rest else rest

abbrev pub has_card : Text → List CleanSource → Bool
has_card id [] = false
has_card id (c ∷ cards) = text_eq c.id id || has_card id cards

abbrev pub ids_of : List CleanSource → List Text
ids_of cards = map (λ (c : CleanSource). c.id) cards

abbrev tail : List Text → List Text
tail [] = []
tail (x ∷ xs) = xs

primaries-demote_card :
    (cards : List CleanSource) → primaries (demote_card cards) ≡ tail (primaries cards)
unfolding demote_card
primaries-demote_card [] = refl
primaries-demote_card (c ∷ cards) = elim (Option-cases c.is_primary) [
  | inl unknown ↦ ground (arith, primaries-demote_card cards)
  | inr (p, known) ↦ elim (Bool-cases p) [
    | inl yes' ↦ ground arith
    | inr no' ↦ ground (arith, primaries-demote_card cards)
  ]
]

ids_of-demote_card : (cards : List CleanSource) → ids_of (demote_card cards) ≡ ids_of cards
unfolding demote_card
ids_of-demote_card [] = refl
ids_of-demote_card (c ∷ cards) = elim (Option-cases c.is_primary) [
  | inl unknown ↦ ground (arith, ids_of-demote_card cards)
  | inr (p, known) ↦ elim (Bool-cases p) [
    | inl yes' ↦ ground arith
    | inr no' ↦ ground (arith, ids_of-demote_card cards)
  ]
]

has_card-demote_card :
    (id : Text) (cards : List CleanSource) → has_card id (demote_card cards) ≡ has_card id cards
unfolding demote_card
has_card-demote_card id [] = refl
has_card-demote_card id (c ∷ cards) = elim (Option-cases c.is_primary) [
  | inl unknown ↦ ground (arith, has_card-demote_card id cards)
  | inr (p, known) ↦ elim (Bool-cases p) [
    | inl yes' ↦ ground arith
    | inr no' ↦ ground (arith, has_card-demote_card id cards)
  ]
]

ids_of-promote_card :
    (id : Text) (cards : List CleanSource) → ids_of (promote_card id cards) ≡ ids_of cards
unfolding promote_card
ids_of-promote_card id [] = refl
ids_of-promote_card id (c ∷ cards) = elim (Bool-cases (text_eq c.id id)) [
  | inl hit ↦ ground arith
  | inr miss ↦ ground (arith, ids_of-promote_card id cards)
]

primaries-promote_card :
    (id : Text) (cards : List CleanSource)
    → primaries cards ≡ []
    → has_card id cards ≡ true
    → primaries (promote_card id cards) ≡ id ∷ []
unfolding promote_card
primaries-promote_card id [] clear has = absurd (ground arith)
primaries-promote_card id (c ∷ cards) clear has = elim (Bool-cases (is_marked c)) [
  | inl marked ↦ absurd (ground arith)
  | inr plain ↦ elim (Bool-cases (text_eq c.id id)) [
    | inl hit ↦ ground (arith, text_eq→eq c.id id)
    | inr miss ↦ ground (arith, primaries-promote_card id cards)
  ]
]

-- The page has the card, and shows at most one as primary: after a click on its button for the primary
-- card the page shows just this card as primary, and the same cards in the same order; and it has called
-- the server for this card.
pub click_make_primary_exact :
    (id : Text) (client : Client)
    → has_card id client.cards ≡ true
    → (primaries client.cards ≡ []) ⊎ ((x : Text) × (primaries client.cards ≡ x ∷ []))
    → let client' = click_make_primary id client in
      (primaries client'.cards ≡ id ∷ [])
      × (ids_of client'.cards ≡ ids_of client.cards)
      × (client'.calls ≡ call_make_primary id ∷ client.calls)
unfolding click_make_primary
click_make_primary_exact id client has few = (
  primaries-promote_card id (demote_card client.cards)
      (primaries-demote_card client.cards
        ∙ (elim few [ inl e ↦ ap tail e | inr (x, e) ↦ ap tail e ]))
      (has_card-demote_card id client.cards ∙ has),
  ids_of-promote_card id (demote_card client.cards) ∙ ids_of-demote_card client.cards,
  refl,
)
