-- ===== src/Demo.antt =====
-- A small world for the tests: two users, one of whom is a customer of a Stripe that answers every
-- call, and an event of each kind.
use blackrock.Prelude.{ℕ, suc, Bool, true, false, none, some, [], ◌∷◌}
use blackrock.Prelude.Int.{pos}
use blackrock.Text.{Text, codes}
use blackrock.Users.{User, no_payments}
use blackrock.Stripe.{
  ok, err, Source, Subscription, Customer, subscription_line, other_line, Invoice, Event, EventBody,
  Plan, CardCharge, Services, stripe_error,
}
use blackrock.Action.{World}
use blackrock.Mailing.{Member, Members, Mailchimp}

abbrev pub card : Source
card = record {
  id = codes "card_1";
  kind = codes "card";
  last4 = codes "4242";
  brand = codes "Visa";
  exp_year = 2030;
  exp_month = 1;
}

abbrev pub standard : Subscription
standard = record {
  id = codes "sub_1";
  plan_id = codes "standard-beta";
  cancel_at_period_end = false;
  current_period_end = 1500;
}

abbrev pub subscriber : Customer
subscriber = record {
  id = codes "cus_1";
  email = some (codes "ann@example.org");
  sources = some (card ∷ []);
  default_source = some (codes "card_1");
  subscriptions = some (standard ∷ []);
  account_balance = none;
  metadata =
      some (record { bonus_storage = some (pos 5); bonus_compute = none; bonus_grains = none });
}

-- The same customer without a subscription.
abbrev pub former : Customer
former = record subscriber { subscriptions = some [] }

abbrev pub ann : User
ann = record {
  id = codes "ann";
  plan = some (codes "standard");
  payments = some (record no_payments { id = some (codes "cus_1"); last_invoice_time = some 50 });
  plan_bonus = none;
  is_admin = false;
  has_identities = true;
  expires = false;
  has_completed_signup = true;
}

abbrev pub bob : User
bob = record {
  id = codes "bob";
  plan = some (codes "free");
  payments = none;
  plan_bonus = none;
  is_admin = false;
  has_identities = true;
  expires = false;
  has_completed_signup = true;
}

abbrev pub world : World ℕ
world = record {
  users = bob ∷ ann ∷ [];
  subscribers =
      record {
        email = codes "Ann+news@example.org";
        canonical = codes "ann@example.org";
        subscribed = true;
        last_changed = none;
      }
      ∷ [];
  notifications = [];
  requests = [];
  outside = 0;
}

abbrev pub invoice : Invoice
invoice = record {
  customer = codes "cus_1";
  lines =
      subscription_line (codes "standard-beta") (pos 0) ∷ other_line (codes "tax") (pos 90) ∷ [];
  amount_due = pos 40;
  total = pos 90;
}

-- A charge of hers that is not captured yet.
abbrev pub held : CardCharge
held = record { id = codes "ch_1"; customer = codes "cus_1"; captured = false }

abbrev pub event : ℕ → EventBody → Event
event created body = record { id = codes "evt"; created = created; body = body }

abbrev pub plan : Bool → Text → Plan
plan hidden id = record { id = id; title = none; price = pos 600; hidden = hidden }

-- Every request succeeds and is counted, or, where `declines`, the card is declined.
abbrev pub answering : Bool → Bool → Event → Customer → Services ℕ
answering hidden declines e customer = record {
  retrieve_event = λ _ _. ok e;
  retrieve_customer = λ _ _. ok customer;
  retrieve_source = λ _ _ _. ok card;
  retrieve_charge = λ _ _. ok held;
  get_plan = λ id _ _. ok (plan hidden id);
  user_emails =
      λ _ _. record { email = codes "ann@example.org"; verified = true; primary = true } ∷ [];
  server_title = λ _. codes "Oasis";
  random_id = λ _. codes "logo";
  return_address = λ _. codes "no-reply@example.org";
  hash = λ text. text;
  root_url = codes "https://example.org";
  out_of_beta = false;
  request_customer = λ _ s. (ok customer, suc s);
  request_source = λ _ s. (ok card, suc s);
  request_subscription = λ _ s. (ok standard, suc s);
  request_charge = λ _ s. (ok held, suc s);
  request = λ _ s. (
    elim declines [
      | true ↦ err (stripe_error (some (codes "card_error", codes "declined")) (codes "declined"))
      | false ↦ ok tt
    ],
    suc s,
  );
}

abbrev pub demo : EventBody → Customer → Services ℕ
demo body customer = answering false false (event 60 body) customer

abbrev pub bea : Member
bea = record {
  email_address = codes "bea@example.org";
  status = codes "subscribed";
  last_changed = codes "2016-05-04T03:02:01.000Z";
}

abbrev pub page : ℕ → Members
page total = record { total_items = total; members = some (bea ∷ []) }

-- A Mailchimp that has so many members, whatever is asked for.
abbrev pub mailchimp : ℕ → Mailchimp ℕ
mailchimp total = record {
  list_id = some (codes "list");
  key = some (codes "key-us1");
  md5 = λ text. text;
  get = λ _ _ _. ok (page total);
  accounts_by_email = λ _ _ _. [];
}
