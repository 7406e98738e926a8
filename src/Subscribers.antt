-- ===== src/Subscribers.antt =====
-- The package's own copy of the mailing list, the collection `mailchimpSubscribers` of
-- shell/packages/blackrock-payments/payments-server.js: how it is searched and written.
use blackrock.Prelude.{Bool, true, false, ◌&&◌, Option, none, some, List, [], ◌∷◌, if◌then◌else◌}
use blackrock.Text.{Text, text_eq, text_lt}
use blackrock.Email.{canonicalize_email}
use blackrock.Users.{Subscriber}
use blackrock.Bonuses.{is_among}

abbrev pub later : Option Text → Option Text → Option Text
later none b = b
later (some a) none = some a
later (some a) (some b) = if text_lt a b then some b else some a

-- `(findOne({}, {sort: {lastChanged: -1}}) || {}).lastChanged`
unfoldable pub last_change : List Subscriber → Option Text
last_change [] = none
last_change (s ∷ subscribers) = later s.last_changed (last_change subscribers)

-- `upsert({_id: email}, {$set: …})`, where `fresh` is what is set in a document that is new
unfoldable pub upsert :
    Text → (Subscriber → Subscriber) → Subscriber → List Subscriber → List Subscriber
upsert email change fresh [] = fresh ∷ []
upsert email change fresh (s ∷ subscribers) =
    if text_eq s.email email
    then change s ∷ subscribers
    else s ∷ upsert email change fresh subscribers

-- `update({_id: email}, {$set: …})`
unfoldable pub update_subscriber :
    Text → (Subscriber → Subscriber) → List Subscriber → List Subscriber
update_subscriber email change [] = []
update_subscriber email change (s ∷ subscribers) =
    if text_eq s.email email
    then change s ∷ subscribers
    else s ∷ update_subscriber email change subscribers

unfoldable pub find_subscriber : Text → List Subscriber → Option Subscriber
find_subscriber email [] = none
find_subscriber email (s ∷ subscribers) =
    if text_eq s.email email then some s else find_subscriber email subscribers

-- `{canonical: {$in: emails}, subscribed: true}`
abbrev pub is_subscribed : List Text → Subscriber → Bool
is_subscribed emails s = is_among s.canonical emails && s.subscribed

unfoldable pub subscribed_entries : List Text → List Subscriber → List Subscriber
subscribed_entries emails [] = []
subscribed_entries emails (s ∷ subscribers) =
    if is_subscribed emails s
    then s ∷ subscribed_entries emails subscribers
    else subscribed_entries emails subscribers

abbrev pub unsubscribe : Subscriber → Subscriber
unsubscribe s = record s { subscribed = false }

-- The entry of an address that subscribes: the date of the last change stays as it is.
abbrev pub subscribed_entry : Text → Subscriber → Subscriber
subscribed_entry email s = record s { canonical = canonicalize_email email; subscribed = true }

abbrev pub new_entry : Text → Subscriber
new_entry email = record {
  email = email;
  canonical = canonicalize_email email;
  subscribed = true;
  last_changed = none;
}
