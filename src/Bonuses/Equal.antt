-- ===== src/Bonuses/Equal.antt =====
-- The comparison of stored bonuses with new ones: it tells exactly whether a write would change the
-- user.
use blackrock.Prelude.{
  ◌≡◌, refl, sym, ap, Bool, true, false, ◌&&◌, Option, none, some, arith, ==_iff,
}
use blackrock.Prelude.Int.{ℤ, pos, negsuc}
use blackrock.Users.{User, Bonus, PaymentsBonuses, Payments, no_payments, set_bonuses}
use blackrock.Bonuses.{
  eq_bool, stored_bonus, stored_bonuses, eq_ℤ, eq_field, eq_bonus, eq_bonuses, is_up_to_date,
}

eq_ℤ_refl : (a : ℤ) → eq_ℤ a a ≡ true
eq_ℤ_refl (pos n) = (==_iff n n).1 refl
eq_ℤ_refl (negsuc n) = (==_iff n n).1 refl

eq_ℤ→eq : (a b : ℤ) → eq_ℤ a b ≡ true → a ≡ b
eq_ℤ→eq (pos m) (pos n) h = ap pos ((==_iff m n).0 h)
eq_ℤ→eq (negsuc m) (negsuc n) h = ap negsuc ((==_iff m n).0 h)
eq_ℤ→eq (pos m) (negsuc n) h = cc
eq_ℤ→eq (negsuc m) (pos n) h = cc

eq_field_refl : (a : Option ℤ) → eq_field a a ≡ true
eq_field_refl none = refl
eq_field_refl (some a) = eq_ℤ_refl a

eq_field→eq : (a b : Option ℤ) → eq_field a b ≡ true → a ≡ b
eq_field→eq none none h = refl
eq_field→eq (some a) (some b) h = ap some (eq_ℤ→eq a b h)
eq_field→eq none (some b) h = cc
eq_field→eq (some a) none h = cc

eq_bonus_refl : (a : Bonus) → eq_bonus a a ≡ true
eq_bonus_refl a = rw (eq_field_refl a.storage, eq_field_refl a.compute, eq_field_refl a.grains)

eq_bool_refl : (a : Bool) → eq_bool a a ≡ true
eq_bool_refl true = refl
eq_bool_refl false = refl

eq_bool→eq : (a b : Bool) → eq_bool a b ≡ true → a ≡ b
eq_bool→eq a b h = ground arith

eq_bonuses_refl : (a : PaymentsBonuses) → eq_bonuses a a ≡ true
eq_bonuses_refl a = rw (eq_bool_refl a.mailing_list, eq_bonus_refl a.metadata)

and_true : (a b : Bool) → (a && b) ≡ true → (a ≡ true) × (b ≡ true)
and_true true true h = (refl, refl)
and_true true false h = cc
and_true false b h = cc

eq_bonus→eq : (a b : Bonus) → eq_bonus a b ≡ true → a ≡ b
eq_bonus→eq a b h =
    let (s, cg) = and_true (eq_field a.storage b.storage) _ h in
    let (c, g) = and_true (eq_field a.compute b.compute) _ cg in
    λ i. record {
      storage = eq_field→eq a.storage b.storage s i;
      compute = eq_field→eq a.compute b.compute c i;
      grains = eq_field→eq a.grains b.grains g i;
    }

eq_bonuses→eq : (a b : PaymentsBonuses) → eq_bonuses a b ≡ true → a ≡ b
eq_bonuses→eq a b h =
    let (l, m) = and_true (eq_bool a.mailing_list b.mailing_list) _ h in
    λ i. record {
      mailing_list = eq_bool→eq a.mailing_list b.mailing_list l i;
      metadata = eq_bonus→eq a.metadata b.metadata m i;
    }

-- What was just written is up to date.
pub up_to_date-set_bonuses :
    (user : User) (bonus : Bonus) (bonuses : PaymentsBonuses)
    → is_up_to_date (set_bonuses bonus bonuses user) bonus bonuses ≡ true
unfolding is_up_to_date
up_to_date-set_bonuses user bonus bonuses = rw (eq_bonus_refl bonus, eq_bonuses_refl bonuses)

bonus_field :
    (stored : Option Bonus) (bonus : Bonus) → stored_bonus stored bonus ≡ true → some bonus ≡ stored
bonus_field none bonus h = cc
bonus_field (some b) bonus h = ap some (sym (eq_bonus→eq b bonus h))

bonuses_field :
    (stored : Option PaymentsBonuses) (bonuses : PaymentsBonuses)
    → stored_bonuses stored bonuses ≡ true
    → some bonuses ≡ stored
bonuses_field none bonuses h = cc
bonuses_field (some b) bonuses h = ap some (sym (eq_bonuses→eq b bonuses h))

-- Where nothing is to be written, writing would change nothing.
pub set_bonuses_same :
    (user : User) (bonus : Bonus) (bonuses : PaymentsBonuses)
    → is_up_to_date user bonus bonuses ≡ true
    → set_bonuses bonus bonuses user ≡ user
unfolding is_up_to_date
set_bonuses_same user bonus bonuses h =
    let (b, p) = and_true (stored_bonus user.plan_bonus bonus) _ h in
    λ i. record user {
      plan_bonus = bonus_field user.plan_bonus bonus b i;
      payments = same_payments user.payments p i;
    }
  where
    same_payments :
        (stored : Option Payments)
        → (elim stored as (λ _. Bool) [ none ↦ false | some p ↦ stored_bonuses p.bonuses bonuses ])
          ≡ true
        → some (record (elim stored as (λ _. Payments) [ none ↦ no_payments | some p ↦ p ]) {
          bonuses = some bonuses;
        })
          ≡ stored
    same_payments none h = cc
    same_payments (some p) h =
        λ i. some (record p { bonuses = bonuses_field p.bonuses bonuses h i })
