-- ===== src/System/Entries.antt =====
-- The writes to the `users` collection that the entry points are made of, on the accounts.
use blackrock.Prelude.{◌≡◌, refl, ap, inl, inr, List, arith}
use blackrock.Text.{Text}
use blackrock.Users.{
  User, Bonus, PaymentsBonuses, customer_id, set_plan, set_customer, set_bonuses, update_user,
}
use blackrock.Users.Laws.{HasDistinctIds, find_by_id_of_customer}
use blackrock.Cards.Joins.{JoinsAtMost}
use blackrock.Webhook.Writes.{WritesAtMost}
use blackrock.System.{account_of, accounts_of, join, advance}
use blackrock.System.Accounts.{Stays, accounts_of-update_user, Stays-update_user}

account_of-set_plan : (plan : Text) (u : User) → account_of (set_plan plan u) ≡ account_of u
unfolding customer_id
account_of-set_plan plan u = refl

account_of-set_bonuses :
    (bonus : Bonus) (bonuses : PaymentsBonuses) (u : User)
    → account_of (set_bonuses bonus bonuses u) ≡ account_of u
unfolding customer_id
account_of-set_bonuses bonus bonuses u = refl

pub accounts_of-set_plan :
    (id plan : Text) (users : List User)
    → accounts_of (update_user id (set_plan plan) users) ≡ accounts_of users
accounts_of-set_plan id plan users =
    accounts_of-update_user id (set_plan plan) users (account_of-set_plan plan)

pub accounts_of-set_bonuses :
    (id : Text) (bonus : Bonus) (bonuses : PaymentsBonuses) (users : List User)
    → accounts_of (update_user id (set_bonuses bonus bonuses) users) ≡ accounts_of users
accounts_of-set_bonuses id bonus bonuses users =
    accounts_of-update_user id (set_bonuses bonus bonuses) users
      (account_of-set_bonuses bonus bonuses)

pub Stays-join :
    {user_id : Text} {users users' : List User}
    → JoinsAtMost user_id users users'
    → Stays (accounts_of users) (accounts_of users')
Stays-join (inl same) = inl (ap accounts_of same)
Stays-join {user_id} {users} (inr made) = rw made.written (
    Stays-update_user user_id (set_customer made.customer) users λ u found.
      let same : u ≡ made.user = ground (arith, made.found) in join (rw same made.fresh) refl refl)

pub Stays-write :
    {customer : Text} {users users' : List User}
    → HasDistinctIds users
    → WritesAtMost customer users users'
    → Stays (accounts_of users) (accounts_of users')
Stays-write distinct (inl same) = inl (ap accounts_of same)
Stays-write {customer} {users} distinct (inr write) = rw write.written (
    Stays-update_user write.user.id write.change users λ u found.
      let by_id = find_by_id_of_customer customer users {u = write.user} distinct write.found in
      let same : u ≡ write.user = ground (arith, by_id) in
      advance (rw same write.later) (write.same_id u) (write.same_customer u))
