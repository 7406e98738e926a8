-- ===== src/Email/Tests.antt =====
-- Runs of `canonicalizeEmail`.
use blackrock.Prelude.{◌≡◌, refl}
use blackrock.Text.{codes}
use blackrock.Email.{canonicalize_email}

canonicalize_run : canonicalize_email (codes "Foo+a+b@Baz.org") ≡ codes "foo@baz.org"
unfolding canonicalize_email
canonicalize_run = refl

canonicalize_untagged : canonicalize_email (codes "foo+bar") ≡ codes "foo+bar"
unfolding canonicalize_email
canonicalize_untagged = refl
