-- ===== src/Lib.antt =====
-- The payments package of Blackrock (shell/packages/blackrock-payments): how users of a Sandstorm
-- server pay for their plans through Stripe. A browser calls Meteor methods, Stripe calls a webhook,
-- and both write to the `users` collection and make requests of Stripe and of the mail queue.
--
-- Which file models what (paths are relative to shell/packages/blackrock-payments):
--   Users          the documents of the `users` collection, with `findOne` and `update`
--   Stripe         Stripe's objects, and a record of the calls that the package makes of the Stripe
--                  client, of Sandstorm's database and of its mail queue
--   Action         a method or handler as a function of the users and the outside world, which
--                  returns or throws; requests are recorded, the newest first
--   Plans          the ids of Stripe's plans, with and without "-beta" (payments-server.js)
--   Letter         the texts and the HTML of sendInvoice, paymentFailed and sendEmail
--                  (payments-server.js)
--   Mail           sendEmail and sendInvoice (payments-server.js)
--   Webhook        paymentFailed and handleWebhookEvent (payments-server.js): `demote` is
--                  paymentFailed, `collect` the loop over the lines of an invoice, `exit_beta` the
--                  move to a paid plan, `handle_webhook_event` the whole handler
--   Server         processWebhook, processMailchimpWebhook and makeConnectHandler
--                  (payments-server.js)
--   Cards          hashSourceId, findOriginalSourceId, sanitizeSource, createUser, addCardForUser,
--                  deleteCardForUser, makeCardPrimary and getStripeData (payments-server.js)
--   Subscriptions  cancelSubscription, updateUserSubscription, createUserSubscription,
--                  suspendAccount and deleteAccount (payments-server.js)
--   Listing        getAllStripeCustomers and getTotalCharges (payments-server.js)
--   Charges        the payment sources, acceptors and payments of payments-api-server.js
--   Migration      paymentsMigrationHook (payments-server.js)
--   Bonuses        getStripeBonus, getMailchimpBonus, updateBonuses and the publication myBonuses
--                  (payments-server.js), and the constant of constants.js
--   Subscribers    the package's copy of the mailing list (payments-server.js)
--   Mailing        mailchimpDate, updateMailchimp, subscribeMailingList and unsubscribeMailingList
--                  (payments-server.js)
--   Offer          bonusesMigrationHook (payments-server.js)
--   System         the entry points of the server, all but the migration of payments, as one
--                  function, and the steps of a user's account
--   Fiber          handleWebhookEvent, addCardForUser, updateUserSubscription,
--                  createUserSubscription and myBonuses (payments-server.js) as fibers, whose turns
--                  alternate as a schedule says
--   Browser        the copy of the Stripe data that the pages share (payments-client.js); below it
--                  Chooser, Render and Account (billingPrompt.js), Settings (billingSettings.js) and
--                  Checkout, the listeners of these two and of the powerbox (payments-api-client.js)
--   Email          canonicalizeEmail (payments-server.js)
--   Money          renderPrice (payments-server.js), formatCents (payments-api-server.js) and
--                  renderCents (billingSettings.js)
--   Text           strings as lists of UTF-16 code units, with split and decimal numbers
--   Prelude, Demo  shared names and lemmas; users and a server for the tests
--
-- The answers of Stripe, of `getPlan`, of `getUserEmails`, of `Random.id` and of sha256 are functions
-- of a state of the outside world, which every request may change; the theorems hold for all of them.
-- Where a theorem needs more, a hypothesis says what was answered. `HasDistinctIds` says that no two users
-- share an `_id`, which Mongo ensures; `Pages` is Stripe's documented paging of lists.
--
-- In the browser, a call of the server is recorded where a page makes it, and what the page does with
-- the answer is a function of its own (`on_…`), so that answers may come in any order.
--
-- Amounts are whole cents. Times are whole seconds, or milliseconds where the code makes a `Date`; the
-- dates of the mailing list are their ISO forms. The loop that reads pages runs on fuel, one for each
-- request; one for each element and one more are enough. The loop that asks Mailchimp again counts its
-- flag `retry` down. Everything else is recursion on lists.
--
-- Meteor runs each call in a fiber, which waits at each read or write of a collection and at each call
-- of Stripe. `System` has each method run alone; in `Fiber` the methods that add a card or change a
-- plan, the webhook and the publication of the bonuses are the steps between two waits, and a schedule,
-- a list of numbers of fibers, gives the turns. There, what gathers the changes for an invoice event is
-- one step, and so is each other method, as none of them changes whose Stripe customer a user is.
--
-- Mailchimp's answers, md5 and the search for accounts by address are functions too. Log output,
-- templates and DOM events are left out, and with them the helpers of the pages that only pass a value
-- on, and those that print a fraction or a date. Bonuses are whole numbers, and so are the sizes that
-- the pages print. The C++ of the cluster (src/blackrock) is not modelled.
pub mod Prelude
pub mod Text
pub mod Email
pub mod Money
pub mod Users
pub mod Stripe
pub mod Plans
pub mod Action
pub mod Letter
pub mod Mail
pub mod Webhook
pub mod Cards
pub mod Subscriptions
pub mod Listing
pub mod Migration
pub mod Bonuses
pub mod Subscribers
pub mod Mailing
pub mod Offer
pub mod Charges
pub mod Server
pub mod System
pub mod Fiber
pub mod Browser
pub mod Demo
