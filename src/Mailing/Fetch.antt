-- ===== src/Mailing/Fetch.antt =====
-- The fetch of the changes from Mailchimp: at most two requests, and an answer that is complete.
use blackrock.Prelude.{
  ℕ, zero, suc, ◌+◌, ◌≤◌, ◌≡◌, inl, inr, leb, Option, arith, Bool-cases, if◌then◌else◌,
}
use blackrock.Text.{Text}
use blackrock.Stripe.{Result-cases, ok, Services}
use blackrock.Action.{World}
use blackrock.Mailing.{Members, Mailchimp, members_url, authorization, fetch}

module _ {S : Type 0} (v : Services S) (m : Mailchimp S) (key list_id : Text) (since : Option Text)
    (w : World S) where
  -- Mailchimp's answer to a request for so many members.
  abbrev pub Answers : ℕ → Members → Type 0
  Answers count result =
      m.get (members_url key list_id since count) (authorization key) w.outside ≡ ok result

  -- A fetch that returns has an answer to a request for as many members as there are, or for more.
  pub fetch_complete :
      (tries count : ℕ) {result : Members}
      → (fetch v m tries key list_id since count w).0 ≡ ok result
      → (n : ℕ) × Answers n result × (result.total_items ≤ n)
  unfolding fetch
  fetch_complete zero count {result} done =
      elim (Result-cases
        (m.get (members_url key list_id since count) (authorization key) w.outside)) [
          | inr (e, failed) ↦ absurd (ground arith)
          | inl (r, e) ↦ elim (Bool-cases (leb r.total_items count)) [
            | inl enough ↦
                let same : r ≡ result = ground arith in
                (count, rw (← same) e, rw (← same) (ground arith))
            | inr more ↦ absurd (ground arith)
          ]
        ]
  fetch_complete (suc tries) count {result} done =
      elim (Result-cases
        (m.get (members_url key list_id since count) (authorization key) w.outside)) [
          | inr (e, failed) ↦ absurd (ground arith)
          | inl (r, e) ↦ elim (Bool-cases (leb r.total_items count)) [
            | inl enough ↦
                let same : r ≡ result = ground arith in
                (count, rw (← same) e, rw (← same) (ground arith))
            | inr more ↦
                fetch_complete tries (r.total_items + 100) {result = result} (rw (e, more) at done)
          ]
        ]

  -- If Mailchimp answers a request for 100 members and one for 100 more than there were, and no more
  -- than 100 members were added in between, then the fetch of an update returns, with the first answer
  -- if it was complete, and else with the second.
  pub fetch_returns :
      (first second : Members)
      → Answers 100 first
      → Answers (first.total_items + 100) second
      → second.total_items ≤ first.total_items + 100
      → fetch v m 1 key list_id since 100 w
        ≡ (ok (if leb first.total_items 100 then first else second), w)
  unfolding fetch
  fetch_returns first second answered again few = ground arith
