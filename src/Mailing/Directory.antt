-- ===== src/Mailing/Directory.antt =====
-- The copy of the mailing list as a directory: what is found under each address, whatever the order of
-- the entries.
use blackrock.Text.Laws.{text_eq_refl, text_eq→eq, text_eq_comm}
use mathlib.Core.Quot
use mathlib.Core.Quot.{Quot, Quot-set}
use mathlib.Core.Logic.{∥∥₁_elim}
use mathlib.Core.List.{Perm, Permᴰ}
use blackrock.Prelude.{
  subst, ◌≡◌, refl, ◌∙◌, sym, ap, inl, inr, false, some, List, [], ◌∷◌, arith, All, Bool-cases,
  if◌then◌else◌,
}
use blackrock.Text.{Text, text_eq}
use blackrock.Users.{Subscriber}
use blackrock.Stripe.{ok, Services}
use blackrock.Action.{World}
use blackrock.Subscribers.{find_subscriber, last_change, upsert}
use blackrock.Mailing.{Member, Members, Mailchimp, entry_of, settings, fetch, update_mailchimp}
use blackrock.Mailing.Store.{find_subscriber-upsert}
use blackrock.Mailing.Update.{members_of, synced, update_mailchimp-synced}

-- The same entry is found under every address.
abbrev pub SameEntries : List Subscriber → List Subscriber → Type 0
SameEntries a b = (email : Text) → find_subscriber email a ≡ find_subscriber email b

abbrev pub Directory : Type 0
Directory = Quot SameEntries

abbrev pub directory : List Subscriber → Directory
directory subscribers = Quot.mk subscribers

-- An entry in place of any other of its address.
abbrev put_entry : Subscriber → List Subscriber → List Subscriber
put_entry entry subscribers = upsert entry.email (λ _. entry) entry subscribers

SameEntries-put_entry :
    (entry : Subscriber) (a b : List Subscriber)
    → SameEntries a b
    → SameEntries (put_entry entry a) (put_entry entry b)
SameEntries-put_entry entry a b same email =
    find_subscriber-upsert email entry a
    ∙ ap (λ found. if text_eq entry.email email then some entry else found) (same email)
    ∙ sym (find_subscriber-upsert email entry b)

pub put : Subscriber → Directory → Directory
put entry =
    Quot.lift Quot-set (λ a. Quot.mk (put_entry entry a))
      (λ a b same. Quot.sound (SameEntries-put_entry entry a b same))

-- The members of an answer, one after the other.
pub sync : List Member → Directory → Directory
sync [] d = d
sync (member ∷ members) d = sync members (put (entry_of member) d)

SameEntries-put_entries :
    (a b : Subscriber) (subscribers : List Subscriber)
    → text_eq a.email b.email ≡ false
    → SameEntries (put_entry a (put_entry b subscribers)) (put_entry b (put_entry a subscribers))
SameEntries-put_entries a b subscribers apart email =
    let ab = find_subscriber-upsert email a (put_entry b subscribers) in
    let b' = find_subscriber-upsert email b subscribers in
    let ba = find_subscriber-upsert email b (put_entry a subscribers) in
    let a' = find_subscriber-upsert email a subscribers in
    elim (Bool-cases (text_eq a.email email)) [
      | inl here ↦ elim (Bool-cases (text_eq b.email email)) [
        | inl there ↦ absurd (
            ground (
              arith,
              text_eq→eq a.email email here,
              text_eq→eq b.email email there,
              text_eq_refl email,
            ))
        | inr not_b ↦ rw (ab, ba, a', here, not_b) refl
      ]
      | inr not_a ↦ elim (Bool-cases (text_eq b.email email)) [
        | inl there ↦ rw (ab, b', ba, not_a, there) refl
        | inr not_b ↦ rw (ab, b', ba, a', not_a, not_b) refl
      ]
    ]

-- Entries of different addresses may come in any order.
put_comm :
    (a b : Subscriber)
    → text_eq a.email b.email ≡ false
    → (d : Directory) → put a (put b d) ≡ put b (put a d)
unfolding put
put_comm a b apart =
    Quot.ind (λ d. Quot-set _ _)
      λ subscribers. Quot.sound (SameEntries-put_entries a b subscribers apart)

abbrev pub HasDistinctAddresses : List Member → Type 0
HasDistinctAddresses [] = Unit
HasDistinctAddresses (member ∷ members) =
    All (λ other. text_eq member.email_address other.email_address ≡ false) members
    × HasDistinctAddresses members

All-Permᴰ : (P : Member → Type 0) {a b : List Member} → Permᴰ a b → All P a → All P b
All-Permᴰ P Permᴰ.nil h = h
All-Permᴰ P (Permᴰ.cons e d) (p, h) = (rw (← e) p, All-Permᴰ P d h)
All-Permᴰ P (Permᴰ.swap e e') (p, (q, h)) = (rw (← e') q, (rw (← e) p, h))
All-Permᴰ P (Permᴰ.trans d d') h = All-Permᴰ P d' (All-Permᴰ P d h)

HasDistinctAddresses-Permᴰ :
    {a b : List Member} → Permᴰ a b → HasDistinctAddresses a → HasDistinctAddresses b
HasDistinctAddresses-Permᴰ Permᴰ.nil h = h
HasDistinctAddresses-Permᴰ (Permᴰ.cons {a} e d) (far, h) = (
  rw (← e) (All-Permᴰ (λ other. text_eq a.email_address other.email_address ≡ false) d far),
  HasDistinctAddresses-Permᴰ d h,
)
HasDistinctAddresses-Permᴰ (Permᴰ.swap {a} {b} {b'} {l} e e') ((ne, far'), (far, h)) =
    subst (λ x. HasDistinctAddresses (x ∷ b' ∷ l)) e'
      (subst (λ y. HasDistinctAddresses (b ∷ y ∷ l)) e
        ((text_eq_comm b.email_address a.email_address ∙ ne, far), (far', h)))
HasDistinctAddresses-Permᴰ (Permᴰ.trans d d') h =
    HasDistinctAddresses-Permᴰ d' (HasDistinctAddresses-Permᴰ d h)

sync-Permᴰ :
    {a b : List Member} → Permᴰ a b → HasDistinctAddresses a → (d : Directory) → sync a d ≡ sync b d
unfolding sync
sync-Permᴰ Permᴰ.nil h d = refl
sync-Permᴰ (Permᴰ.cons {a} {l₂} e p) (far, h) d =
    sync-Permᴰ p h (put (entry_of a) d) ∙ ap (λ x. sync l₂ (put (entry_of x) d)) e
sync-Permᴰ (Permᴰ.swap {a} {b} {b'} {l} e e') ((ne, _), _) d =
    subst (λ x. sync (a ∷ b ∷ l) d ≡ sync (x ∷ b' ∷ l) d) e'
      (subst (λ y. sync (a ∷ b ∷ l) d ≡ sync (b ∷ y ∷ l) d) e
        (ap (sync l) (
          put_comm (entry_of b) (entry_of a) (text_eq_comm b.email_address a.email_address ∙ ne)
            d)))
sync-Permᴰ (Permᴰ.trans p q) h d =
    sync-Permᴰ p h d ∙ sync-Permᴰ q (HasDistinctAddresses-Permᴰ p h) d

sync-directory :
    (members : List Member) (before now : List Subscriber)
    → ((email : Text)
        → find_subscriber email now ≡ synced email members (find_subscriber email before))
    → directory now ≡ sync members (directory before)
unfolding sync put
sync-directory [] before now found = Quot.sound found
sync-directory (member ∷ members) before now found =
    sync-directory members (put_entry (entry_of member) before) now λ email.
      found email
      ∙ ap (synced email members) (sym (find_subscriber-upsert email (entry_of member) before))

module _ {S : Type 0} (v : Services S) (m : Mailchimp S) where
  update_sync :
      (list_id key : Text) (result : Members) (w : World S)
      → settings v m w ≡ (ok (list_id, key), w)
      → fetch v m 1 key list_id (last_change w.subscribers) 100 w ≡ (ok result, w)
      → (update_mailchimp v m w).0 ≡ ok tt
      → directory (update_mailchimp v m w).1.subscribers
        ≡ sync (members_of result) (directory w.subscribers)
  update_sync list_id key result w configured fetched done =
      sync-directory (members_of result) w.subscribers (update_mailchimp v m w).1.subscribers
        λ email. update_mailchimp-synced v m list_id key result email w configured fetched done

module _ {S : Type 0} (v : Services S) (m m' : Mailchimp S) where
  -- Two updates that return, from copies with the same entries, where Mailchimp has answered with the same
  -- members in any two orders and no address occurs twice: they leave copies with the same entries, and
  -- these are the members put into the directory one by one. A directory is a copy of the list of which
  -- only what is found under each address counts.
  pub update_mailchimp_order :
      (list_id key : Text) (result result' : Members) (w w' : World S)
      → settings v m w ≡ (ok (list_id, key), w)
      → settings v m' w' ≡ (ok (list_id, key), w')
      → fetch v m 1 key list_id (last_change w.subscribers) 100 w ≡ (ok result, w)
      → fetch v m' 1 key list_id (last_change w'.subscribers) 100 w' ≡ (ok result', w')
      → (update_mailchimp v m w).0 ≡ ok tt
      → (update_mailchimp v m' w').0 ≡ ok tt
      → directory w.subscribers ≡ directory w'.subscribers
      → Perm (members_of result) (members_of result')
      → HasDistinctAddresses (members_of result)
      → (directory (update_mailchimp v m w).1.subscribers
          ≡ sync (members_of result) (directory w.subscribers))
        × (directory (update_mailchimp v m w).1.subscribers
            ≡ directory (update_mailchimp v m' w').1.subscribers)
  update_mailchimp_order list_id key result result' w w' configured configured' fetched fetched'
        done done' same perm distinct =
      let one = update_sync v m list_id key result w configured fetched done in
      let other = update_sync v m' list_id key result' w' configured' fetched' done' in
      let ordered : sync (members_of result) (directory w.subscribers)
          ≡ sync (members_of result') (directory w.subscribers) =
        ∥∥₁_elim perm (Quot-set _ _) λ p. sync-Permᴰ p distinct (directory w.subscribers) in
      (one, one ∙ ordered ∙ ap (sync (members_of result')) same ∙ sym other)
