-- ===== src/Browser/Chooser/Shown.antt =====
-- Which plans the chooser shows, and how it compares them with the user's own plan.
use blackrock.Prelude.{◌≡◌, false, not, ◌||◌, List, [], ◌∷◌, All, if◌then◌else◌}
use blackrock.Prelude.Int.{ltb_ℤ}
use blackrock.Text.{Text, text_eq}
use blackrock.Stripe.{Plan}
use blackrock.Browser.Chooser.{Choice, plans}

-- No two plans share an id.
abbrev pub HasDistinctPlans : List Plan → Type 0
HasDistinctPlans [] = Unit
HasDistinctPlans (p ∷ plans) =
    All (λ other. text_eq other.id p.id ≡ false) plans × HasDistinctPlans plans

-- The plans that are on offer, and the one of that name.
abbrev pub visible : Text → List Plan → List Plan
visible name [] = []
visible name (p ∷ plans) =
    if not p.hidden || text_eq p.id name then p ∷ visible name plans else visible name plans

-- How a choice is compared with the user's own plan.
abbrev pub IsCompared : Text → Plan → Choice → Type 0
IsCompared name mine c =
    (c.is_current ≡ text_eq c.plan.id name)
    × (c.is_upgrade ≡ ltb_ℤ mine.price c.plan.price)
    × (c.is_downgrade ≡ ltb_ℤ c.plan.price mine.price)
