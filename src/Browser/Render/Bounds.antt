-- ===== src/Browser/Render/Bounds.antt =====
-- How far a printed size is from the size.
use blackrock.Text.{codes, Text}
use blackrock.Prelude.{
  ◌++◌, ◌/◌, ℕ, suc, ◌*◌, ◌≤◌, ◌<◌, ◌≡◌, refl, ◌⊎◌, inl, inr, arith, Bool-cases, leb,
}
use blackrock.Text.Decimal.{decimal}
use blackrock.Browser.Render.{giga, mega, kilo, storage_parts, render_storage}

-- The units, by the names that are printed.
abbrev pub Names : Text → ℕ → Type 0
Names suffix unit =
    ((suffix ≡ codes "B") × (unit ≡ 1))
    ⊎ ((suffix ≡ codes "kB") × (unit ≡ kilo))
    ⊎ ((suffix ≡ codes "MB") × (unit ≡ mega))
    ⊎ ((suffix ≡ codes "GB") × (unit ≡ giga))

-- A size is printed as a whole number and the name of a unit. The number is the size in this unit,
-- rounded down; below the largest unit it has at most three digits, and it is zero for the size zero
-- only.
pub render_storage_bounds :
    (size : ℕ)
    → (n : ℕ) × (unit : ℕ) × (suffix : Text) × Names suffix unit
      × (render_storage size ≡ decimal n ++ suffix)
      × (n * unit ≤ size)
      × (size < suc n * unit)
      × ((n < 1000) ⊎ (unit ≡ giga))
      × ((size ≡ 0) ⊎ (1 ≤ n))
unfolding render_storage storage_parts
render_storage_bounds size = elim (Bool-cases (leb giga size)) [
  | inl huge ↦ (
    size / giga,
    giga,
    codes "GB",
    inr (inr (inr (refl, refl))),
    rw huge refl,
    omega arith,
    omega arith,
    inr refl,
    inr (ground arith),
  )
  | inr below ↦ elim (Bool-cases (leb mega size)) [
    | inl big ↦ (
      size / mega,
      mega,
      codes "MB",
      inr (inr (inl (refl, refl))),
      rw (below, big) refl,
      omega arith,
      omega arith,
      inl (ground arith),
      inr (ground arith),
    )
    | inr less ↦ elim (Bool-cases (leb kilo size)) [
      | inl enough ↦ (
        size / kilo,
        kilo,
        codes "kB",
        inr (inl (refl, refl)),
        rw (below, less, enough) refl,
        omega arith,
        omega arith,
        inl (ground arith),
        inr (ground arith),
      )
      | inr few ↦ (
        size,
        1,
        codes "B",
        inl (refl, refl),
        rw (below, less, few) refl,
        omega arith,
        omega arith,
        inl (ground arith),
        ground arith,
      )
    ]
  ]
]
