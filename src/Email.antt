-- ===== src/Email.antt =====
-- `canonicalizeEmail` of shell/packages/blackrock-payments/payments-server.js, on the UTF-16 code
-- units of an address whose letters are ASCII.
pub mod Canonical
mod Tests
use blackrock.Prelude.{
  ℕ, Bool, true, false, ◌||◌, Option, none, some, [], ◌∷◌, map, ◌==◌, if◌then◌else◌,
}
use blackrock.Text.{Text, to_lower}

-- What `.` does not match: line feed, carriage return, and the two separators of Unicode.
abbrev pub is_terminator : ℕ → Bool
is_terminator c = c == 10 || (c == 13 || (c == 8232 || c == 8233))

-- The match of `.*@` at the start of a text, which is the longest one: what follows it.
unfoldable pub after_at : Text → Option Text
after_at [] = none
after_at (c ∷ s) =
    let rest = after_at s in
    if is_terminator c
    then none
    else elim rest [ some r ↦ some r | none ↦ if c == b'@' then some s else none ]

-- `email.replace(/\+.*@/, "@")`
unfoldable pub strip_tag : Text → Text
unfolding after_at
strip_tag [] = []
strip_tag (c ∷ s) =
    let rest = strip_tag s in
    if c == b'+' then elim (after_at s) [ some r ↦ b'@' ∷ r | none ↦ c ∷ rest ] else c ∷ rest

unfoldable pub canonicalize_email : Text → Text
unfolding strip_tag
canonicalize_email email = map to_lower (strip_tag email)
