-- ===== src/Mail/Laws.antt =====
-- Sending mail changes no user.
use blackrock.Prelude.{arith, List}
use blackrock.Text.{Text}
use blackrock.Users.{User}
use blackrock.Stripe.{Services}
use blackrock.Action.Keeps.{KeepsUsers}
use blackrock.Letter.{Config, Item}
use blackrock.Mail.{recipient, send_to, send_invoice}

module _ {S : Type 0} (v : Services S) where
  recipient-KeepsUsers : (user : User) → KeepsUsers (recipient v user)
  unfolding recipient
  recipient-KeepsUsers user w = ground arith

  pub send_to-KeepsUsers :
      (user : User) (subject text html : Text) (config : Config)
      → KeepsUsers (send_to v user subject text html config)
  unfolding send_to
  send_to-KeepsUsers user subject text html config w = ground (arith, recipient-KeepsUsers user w)

  pub send_invoice-KeepsUsers :
      (user : User) (items : List Item) (config : Config)
      → KeepsUsers (send_invoice v user items config)
  unfolding send_invoice
  send_invoice-KeepsUsers user items config = send_to-KeepsUsers user _ _ _ config
