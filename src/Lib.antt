-- ===== src/Lib.antt =====
-- AutoPay: bills that are paid out of a wallet, by an agent's decision or on request, through a
-- payment gateway that answers later by a webhook.
--
-- Parts, and how they interact. A request of the web API (app/api) or a run of the scheduler
-- (app/core/scheduler.py) opens a database session, lets a service (app/services) change the rows of
-- app/models in it, and commits or rolls back. `execute_payout` (app/services/payout.py) charges the
-- wallet, writes a debit row and asks the gateway for a transfer; the gateway's webhook
-- (app/api/webhooks.py) ends in `confirm_payout`, which settles or refunds. The decision rule
-- (app/agents) says when a bill is due for that.
--
-- Files, and the code that they model (paths from the repository's root):
--   Base        tables with primary keys, text and number helpers; no code of the program.
--   Models      app/models: the enumerations (enums.py) and the rows; `Db` is the database.
--   Session     app/core/database.py and the SQLAlchemy session, as a state monad with errors over
--               `World`: the committed database, the open transaction's, the transfers
--               asked for and sent, the sequences. app/services/payments/exceptions.py is the data of `PaymentError`.
--   Audit       app/services/audit.py.
--   Money       `_ngn_to_kobo` of app/services/payout.py, on Python decimals.
--   Agent       app/agents/nodes.py, state.py and `run_agent` of graphs.py; Agent/Rule is about it.
--   Provider    the gateway's interface, app/services/payments/base.py.
--   Payout      app/services/payout.py: Execute and Charge (`execute_payout`,
--               `_refund_on_failure`), Confirm (`confirm_payout`), Recurrence (`schedule_recurrence`);
--               the other children are the proofs about them.
--   Bills       app/api/bills.py: create_bill, list_bills, get_bill, pay_bill, cancel_bill; Upload has
--               upload_bill, from what the loader extracts and the date parser reads.
--   Webhooks    app/api/webhooks.py: `nomba_webhook` and its handlers.
--   Nomba       app/services/payments/nomba.py: Values (JSON), Errors (`_map_nomba_error`), Tokens (the
--               token manager), Calls (`_request`), Operations (the provider's methods), Events (the
--               webhook); the other children are the proofs about them.
--   DateParser  app/services/date_parser.py; Relative has its relative phrases, Present is about it.
--   Conversation  app/handlers/bill_conversation.py and the helpers it uses: the handlers that open a
--               session in Confirm, the others and the state machine in Machine; the other children are
--               the proofs about them.
--   Telegram    app/handlers/auth.py, the bot's commands link, unlink, wallet and bills, and the
--               endpoints for link codes of app/api/auth.py; Linked is about link_command.
--   Signup      signup and login of app/api/auth.py, with signup_user, authenticate_user and
--               the current user of app/services/auth.py; bcrypt is a parameter. Stored and Nubans
--               are about the signup.
--   Crypto      app/services/crypto.py; Fernet and the hashes are parameters.
--   Kyc         app/api/kyc.py; Stored is about the submission.
--   Scheduler   the bodies of the two jobs of app/core/scheduler.py.
--   Wallet      app/api/wallet.py: `provision_virtual_account`.
--   Security    the tokens of app/core/security.py; the JWT library is a parameter.
--   Auth        the refresh tokens of app/services/auth.py, and the handlers refresh and logout of
--               app/api/auth.py; the hash of a token is a parameter.
--   Requests    create_bill, upload_bill, pay_bill, cancel_bill, the bot's final confirmation, the
--               webhook and the two jobs as a step relation on worlds (Reached; a step that
--               uploads is of a whole-kobo amount), and the life of a bill as an abstract machine on
--               its status (Lifecycle) with the transactions that are open; Refined relates the two.
--               The other children hold the lemmas of the steps.
--   Tests       a small database, runs of the handlers, and the theorems at concrete inputs.
--
-- State and operations. A handler is an `Action`: a function from `World` to a result and a `World`;
-- an exception is a result that keeps the changes made before it, so that what a rollback or the
-- close of the session undoes is visible. A function of the source with many early exits is a chain
-- of definitions, one for each numbered step or branch, under the source's name for the whole. A row
-- is loaded where the code loads it. The outcome of a gateway call is a function of what it is asked,
-- a parameter with no hypotheses. Every call of `initiate_transfer` is recorded in `asked`, and in
-- `sent` if it returned; no rollback touches them. A call that raised may have reached the gateway
-- (a lost answer), so that `sent` holds the transfers that are known to be accepted, and `asked` all
-- that can have been. The Nomba client is a `Call`: a function from its tokens and the requests
-- it has sent to a result and the same; what Nomba answers and what the clock says is a function of all
-- requests sent before, a parameter with no hypotheses, as are JSON, the hashes and the parsing of
-- dates. `nomba_provider` is that client as the program's gateway; its calls share the client, and the
-- state in which each call finds it is a parameter.
--
-- Numbers. Money is a natural number of kobo, as NUMERIC(14,2) holds it; a wallet begins at zero,
-- a bill's amount is validated to be positive, and `execute_payout` compares the balance with the
-- charge before it subtracts, so that no amount here is negative; the amount of a webhook's event
-- is taken not to be, either. The amount that an upload extracts is a decimal, and what is said of an
-- upload is for whole kobo (two places): a finer amount is rounded by the column and not by the
-- payout. A moment is a number of microseconds, with one `now` for each run.
-- Keys are Python integers, without a bound. No loop of the code runs on fuel: the jobs recurse on
-- the list of ids. Decimal printing recurses on the number itself as fuel, which is enough since
-- each digit divides it by ten. The client's clock counts seconds, and its one retry is a definition of
-- its own, without fuel. A number on Nomba's wire is a decimal with its sign.
--
-- Left out: log lines, `created_at` and `updated_at`; the transport (FastAPI, HTTP, Telegram, the
-- LLM and PDF libraries); the parsing of a request into the arguments of a handler; the HTTP client object and
-- `get_payment_provider`; the loaders, whose results are arguments here; what
-- the bot answers as text, and its commands start and help; interleavings of
-- two sessions (the row locks of `execute_payout` make the second wait for the first).
pub mod Base
pub mod Models
pub mod Session
pub mod Audit
pub mod Money
pub mod Agent
pub mod Provider
pub mod Payout
pub mod Bills
pub mod Webhooks
pub mod Nomba
pub mod DateParser
pub mod Conversation
pub mod Telegram
pub mod Signup
pub mod Crypto
pub mod Kyc
pub mod Scheduler
pub mod Wallet
pub mod Security
pub mod Auth
pub mod Requests
pub mod Tests
