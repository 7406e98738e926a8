-- ===== src/Mailing/Store.antt =====
-- Writes to the package's copy of the mailing list, as a lookup and as a whole sees them.
use blackrock.Prelude.{
  ◌≡◌, refl, ◌∙◌, ap, inl, inr, false, none, some, List, [], ◌∷◌, map, arith, Bool-cases, All,
  if◌then◌else◌,
}
use blackrock.Text.{Text, text_eq}
use blackrock.Text.Laws.{text_eq→eq, text_eq_refl, text_eq_comm}
use blackrock.Users.{Subscriber}
use blackrock.Bonuses.{is_listed}
use blackrock.Subscribers.{
  upsert, update_subscriber, find_subscriber, is_subscribed, subscribed_entries, unsubscribe,
}

-- The collection's primary key: no two entries share an address.
abbrev pub HasDistinctEmails : List Subscriber → Type 0
HasDistinctEmails [] = Unit
HasDistinctEmails (s ∷ subscribers) =
    All (λ other. text_eq s.email other.email ≡ false) subscribers × HasDistinctEmails subscribers

-- What is found after an entry was put in place of any other of its address.
pub find_subscriber-upsert :
    (email : Text) (entry : Subscriber) (subscribers : List Subscriber)
    → find_subscriber email (upsert entry.email (λ s. entry) entry subscribers)
      ≡ (if text_eq entry.email email then some entry else find_subscriber email subscribers)
unfolding find_subscriber upsert
find_subscriber-upsert email entry [] = refl
find_subscriber-upsert email entry (s ∷ subscribers) =
    elim (Bool-cases (text_eq s.email entry.email)) [
      | inl hit ↦ rw hit (by_email (text_eq→eq s.email entry.email hit))
      | inr miss ↦ elim (Bool-cases (text_eq s.email email)) [
        | inl here ↦
            let other : text_eq entry.email email ≡ false =
              rw (text_eq→eq s.email email here) at (text_eq_comm entry.email s.email ∙ miss) in
            rw (miss, here, other)
        | inr there ↦ rw (miss, there) (find_subscriber-upsert email entry subscribers)
      ]
    ]
  where
    by_email :
        s.email ≡ entry.email
        → (if text_eq entry.email email then some entry else find_subscriber email subscribers) ≡ (
            if text_eq entry.email email
            then some entry
            else (if text_eq s.email email then some s else find_subscriber email subscribers))
    by_email same = elim (Bool-cases (text_eq entry.email email)) [
      | inl hit ↦ rw hit
      | inr miss ↦ rw (same, miss)
    ]

-- One write for each of these entries, in order.
abbrev pub unsubscribe_all : List Subscriber → List Subscriber → List Subscriber
unsubscribe_all [] subscribers = subscribers
unsubscribe_all (e ∷ entries) subscribers =
    unsubscribe_all entries (update_subscriber e.email unsubscribe subscribers)

unsubscribe_all-cons :
    (s : Subscriber) (entries subscribers : List Subscriber)
    → All (λ other. text_eq s.email other.email ≡ false) entries
    → unsubscribe_all entries (s ∷ subscribers) ≡ s ∷ unsubscribe_all entries subscribers
unfolding update_subscriber
unsubscribe_all-cons s [] subscribers _ = refl
unsubscribe_all-cons s (e ∷ entries) subscribers (ne, far) =
    rw ne (unsubscribe_all-cons s entries (update_subscriber e.email unsubscribe subscribers) far)

All-subscribed_entries :
    (P : Subscriber → Type 0) (emails : List Text) (subscribers : List Subscriber)
    → All P subscribers
    → All P (subscribed_entries emails subscribers)
unfolding subscribed_entries
All-subscribed_entries P emails [] _ = tt
All-subscribed_entries P emails (s ∷ subscribers) (p, h) =
    elim (Bool-cases (is_subscribed emails s)) [
      | inl hit ↦ rw hit (p, All-subscribed_entries P emails subscribers h)
      | inr miss ↦ rw miss (All-subscribed_entries P emails subscribers h)
    ]

update_subscriber_head :
    (s : Subscriber) (subscribers : List Subscriber)
    → update_subscriber s.email unsubscribe (s ∷ subscribers) ≡ unsubscribe s ∷ subscribers
unfolding update_subscriber
update_subscriber_head s subscribers = rw (text_eq_refl s.email)

-- The entries that are subscribed under these addresses are not any more, and nothing else changes.
abbrev pub cleared : List Text → Subscriber → Subscriber
cleared emails s = if is_subscribed emails s then unsubscribe s else s

pub unsubscribe_all-subscribed_entries :
    (emails : List Text) (subscribers : List Subscriber)
    → HasDistinctEmails subscribers
    → unsubscribe_all (subscribed_entries emails subscribers) subscribers
      ≡ map (cleared emails) subscribers
unfolding subscribed_entries update_subscriber
unsubscribe_all-subscribed_entries emails [] _ = refl
unsubscribe_all-subscribed_entries emails (s ∷ subscribers) (far, distinct) =
    let apart =
      All-subscribed_entries (λ other. text_eq s.email other.email ≡ false) emails subscribers
        far in
    let rest = unsubscribe_all-subscribed_entries emails subscribers distinct in
    elim (Bool-cases (is_subscribed emails s)) [
      | inl hit ↦ rw hit (
          ap (unsubscribe_all (subscribed_entries emails subscribers))
            (update_subscriber_head s subscribers)
          ∙ unsubscribe_all-cons (unsubscribe s) (subscribed_entries emails subscribers) subscribers
              apart
          ∙ ap (λ l. unsubscribe s ∷ l) rest)
      | inr miss ↦ rw miss (
          unsubscribe_all-cons s (subscribed_entries emails subscribers) subscribers apart
          ∙ ap (λ l. s ∷ l) rest)
    ]

pub is_listed-cleared :
    (emails : List Text) (subscribers : List Subscriber)
    → is_listed emails (map (cleared emails) subscribers) ≡ false
unfolding is_listed
is_listed-cleared emails [] = refl
is_listed-cleared emails (s ∷ subscribers) = ground (arith, is_listed-cleared emails subscribers)

-- An address that was written is found with what was set, in the entry that there was or in a new one.
pub find_subscriber-upsert_self :
    (email : Text) (change : Subscriber → Subscriber) (fresh : Subscriber)
    (subscribers : List Subscriber)
    → ((s : Subscriber) → (change s).email ≡ s.email)
    → fresh.email ≡ email
    → find_subscriber email (upsert email change fresh subscribers)
      ≡ some (elim (find_subscriber email subscribers) as (λ _. Subscriber) [
        | none ↦ fresh
        | some s ↦ change s
      ])
unfolding find_subscriber upsert
find_subscriber-upsert_self email change fresh [] keep new = rw (new, text_eq_refl email)
find_subscriber-upsert_self email change fresh (s ∷ subscribers) keep new =
    elim (Bool-cases (text_eq s.email email)) [
      | inl hit ↦ ground (arith, keep s)
      | inr miss ↦
          ground (arith, find_subscriber-upsert_self email change fresh subscribers keep new)
    ]
