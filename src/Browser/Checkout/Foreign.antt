-- ===== src/Browser/Checkout/Foreign.antt =====
-- Which messages make a page call the server.
use blackrock.Prelude.{
  ◌≡◌, ◌⊎◌, inl, inr, false, true, none, some, List, ◌∷◌, arith, Bool-cases, Option-cases,
}
use blackrock.Text.{Text}
use blackrock.Text.Laws.{text_eq→eq}
use blackrock.Browser.{Call, call_buy_plan, call_add_card}
use blackrock.Browser.Chooser.{Chooser}
use blackrock.Browser.Checkout.{
  Message, Token, Settings, Powerbox, is_ours, on_prompt_message, on_settings_message,
  on_powerbox_message,
}

-- No call, or one with the token of a message from the payments host for this page.
abbrev pub CallsForToken : Text → Text → Message → (Token → Call) → List Call → List Call → Type 0
CallsForToken url id message asked before after' =
    (after' ≡ before)
    ⊎ ((token : Token) × (message.origin ≡ url)
        × (message.id ≡ id)
        × (message.token ≡ some token)
        × (after' ≡ asked token ∷ before))

-- The calls of a listener that does as all three do.
calls_cases :
    (url id : Text) (message : Message) (asked : Token → Call) {before after' : List Call}
    → (is_ours url id message ≡ false → after' ≡ before)
    → (message.show_prompt ≡ true → after' ≡ before)
    → (message.token ≡ none → after' ≡ before)
    → ((token : Token)
        → is_ours url id message ≡ true
        → message.show_prompt ≡ false
        → message.token ≡ some token
        → after' ≡ asked token ∷ before)
    → CallsForToken url id message asked before after'
calls_cases url id message asked foreign prompt no_token calls =
    elim (Bool-cases (is_ours url id message)) [
      | inr other ↦ inl (foreign other)
      | inl ours ↦ elim (Bool-cases message.show_prompt) [
        | inl asks ↦ inl (prompt asks)
        | inr silent ↦ elim (Option-cases message.token) [
          | inl bare ↦ inl (no_token bare)
          | inr (token, has) ↦ inr (
            token,
            text_eq→eq message.origin url (ground arith),
            text_eq→eq message.id id (ground arith),
            has,
            calls token ours silent has,
          )
        ]
      ]
    ]

-- A page calls the server for a message at most once, and only for one that comes from the payments
-- host, is meant for this page and has a token: the chooser buys the plan of the message with it, and
-- the settings page and the powerbox add its card.
pub messages_call :
    (url id : Text) (message : Message) (chooser : Chooser) (settings : Settings)
    (powerbox : Powerbox)
    → CallsForToken url id message
        (λ token. call_buy_plan token.id token.email message.plan)
        chooser.client.calls
        (on_prompt_message url id message chooser).client.calls
      × CallsForToken url id message
          (λ token. call_add_card token.id token.email)
          settings.client.calls
          (on_settings_message url id message settings).client.calls
      × CallsForToken url id message
          (λ token. call_add_card token.id token.email)
          powerbox.client.calls
          (on_powerbox_message url id message powerbox).client.calls
unfolding on_prompt_message on_settings_message on_powerbox_message
messages_call url id message chooser settings powerbox = (
  calls_cases url id message (λ token. call_buy_plan token.id token.email message.plan)
      (λ e. ground (arith, e)) (λ e. ground (arith, e)) (λ e. ground (arith, e))
      (λ token a b c. ground (arith, a, b, c)),
  calls_cases url id message (λ token. call_add_card token.id token.email) (λ e. ground (arith, e))
      (λ e. ground (arith, e)) (λ e. ground (arith, e)) (λ token a b c. ground (arith, a, b, c)),
  calls_cases url id message (λ token. call_add_card token.id token.email) (λ e. ground (arith, e))
      (λ e. ground (arith, e)) (λ e. ground (arith, e)) (λ token a b c. ground (arith, a, b, c)),
)
