-- ===== src/Browser/Chooser/Clicks.antt =====
-- A click on a plan, and what the chooser shows once the server has answered.
use blackrock.Prelude.{
  ◌≡◌, ◌⊎◌, inl, inr, Bool, true, false, not, ◌&&◌, some, ◌∷◌, arith, Bool-cases,
}
use blackrock.Prelude.Int.{pos}
use blackrock.Text.{Text}
use blackrock.Bonuses.{eq_ℤ}
use blackrock.Browser.{call_update_plan}
use blackrock.Browser.Chooser.{Choice, Chooser, is_on, is_empty, click_plan}

-- A click on a plan makes no call, or the one that changes to this plan: then there is a card, or the
-- plan costs nothing; a user on a discontinued plan has confirmed the change; it is not that the plan
-- is both marked as current and the one the user is on; and no checkout is opened.
pub click_plan_calls :
    (discontinued confirmed : Bool) (context : Choice) (t : Chooser)
    → let t' = click_plan discontinued confirmed context t in
      let id = context.plan.id in
      (t'.client.calls ≡ t.client.calls)
      ⊎ ((t'.client.calls ≡ call_update_plan id ∷ t.client.calls)
          × (t'.selecting ≡ some id)
          × (t'.opened ≡ t.opened)
          × ((discontinued ≡ false) ⊎ (confirmed ≡ true))
          × (context.is_current && is_on id t.client.user ≡ false)
          × ((is_empty t.client.cards ≡ false) ⊎ (eq_ℤ context.plan.price (pos 0) ≡ true)))
unfolding click_plan
click_plan_calls discontinued confirmed context t =
    elim (Bool-cases (discontinued && not confirmed)) [
      | inl refused ↦ inl (rw refused)
      | inr asked ↦ elim (Bool-cases (context.is_current && is_on context.plan.id t.client.user)) [
        | inl dismissed ↦ inl (ground arith)
        | inr chosen ↦ elim (Bool-cases (is_empty t.client.cards)) [
          | inr has ↦ inr (
            rw (asked, chosen, has),
            rw (asked, chosen, has),
            rw (asked, chosen, has),
            ground arith,
            chosen,
            inl has,
          )
          | inl bare ↦ elim (Bool-cases (eq_ℤ context.plan.price (pos 0))) [
            | inl gratis ↦ inr (
              rw (asked, chosen, bare, gratis),
              rw (asked, chosen, bare, gratis),
              rw (asked, chosen, bare, gratis),
              ground arith,
              chosen,
              inr gratis,
            )
            | inr paid ↦ inl (rw (asked, chosen, bare, paid))
          ]
        ]
      ]
    ]
