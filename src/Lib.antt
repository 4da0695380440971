-- ===== src/Lib.antt =====
-- The money, the domains and the accounts of the Boat House control plane.
--
-- Boat House hosts small web tools for workspaces. A workspace prepays credit by card
-- (control/app/billing.py), usage and domain purchases are charged to it, and partners who referred
-- a workspace earn a tenth of the usage that its cash paid for (control/app/referrals.py). All state
-- is in one SQLite file (control/app/db.py). A balance is never moved without a ledger line, and
-- whoever moves it for a payment calls `referrals.sync` in the same transaction.
--
-- Prelude: Boolean tests, integers over the native numbers, a table with a primary key, and
--   statements against a store that may raise. `Exec S E A` takes a store to a result or an exception
--   and a store; `atomically` is BEGIN IMMEDIATE … COMMIT, taken back on an exception. `Ensures` says
--   what holds where a call returns, `Always` what holds of the store however it ends.
-- Db: the tables that the modelled code reads and writes, one record for a kind of row (Db/Rows), the
--   exceptions (Db/Errors), and the statements that move money (Db/Ledger).
-- Referrals: `_paid_usage` (Usage: `drain` is the loop on a queue, `replay_line` the body of the loop
--   over the ledger, `paid_usage` the whole), `sync` (Sync), `attribution`, `attach` and
--   `tool_day_for` (Attribution), and `_totals` and the payouts (Payouts).
-- Billing: `balance` and `post` (Post), `_validate_payment_identity` and `_complete_payment`
--   (Payments), `_payment_result` and `_execute_payment` (Execute), `quote_topup` and `charge_card`
--   (Topup), `auto_refill` and `set_auto_refill` (Refill), `daily_rate` (Rates), `meter_once` and
--   `_settle` (Meter), `reconcile` of control/app/payment_returns.py (Returns), `start` of
--   control/app/checkout.py with `_ensure_customer` (Checkout), and `handle_webhook` with `reconcile`
--   of control/app/checkout.py (Webhook).
-- Purchases: control/app/domain_payments.py: `quote` (Quote), `_reserve` with `require_namespace`
--   (Reserve), `_settle`, `_release` and `purchase` (Finish).
-- Renewals: control/app/domain_renewals.py: the outbox of notices (Notices), `set_policy` and
--   `sync_domain` (Policy), `_plan` (Plan), `_reserve` (Reserve), `_settle`, `_release` and `execute`
--   (Execute), and `process_domain` and `run_once` (Worker). They write the ledger of Billing and read
--   the allocations that Purchases makes; an operation's own lines are summed in Db/Credit.
-- Accounts: control/app/auth.py, over tables of its own (Store): `sign`, `verify` and `spend_token`
--   (Tokens), invitations (Invites), `reset_password` (Reset), sessions, codes and project keys
--   (Sessions), `throttle` (Throttle, with the log that it stands for).
-- Sandbox: `_allowed_ioctl_prefixes` of control/app/sandbox.py (Prefixes).
-- Hosts: `resolve` and `_face` of control/app/hosts.py (Resolve).
-- Registrar: `_call` of control/app/registrar.py (Call), over what each HTTP request ends in.
-- Resources: control/app/resources.py: `limits` and `notify` (Store), `_sample` (Sample), and `quote` and
--   `confirm` (Capacity).
-- Tests: runs on a small store, and the theorems at concrete inputs.
--
-- How the model reads the source. Text that is only compared (identifiers, addresses, domains,
-- statuses outside an enumeration) is a number; a ledger reference is its prefix, its identifier and
-- its day; a memo is one of the texts that a query looks for, or any other. Python's integers are
-- natural numbers where the schema or the code keeps them from being negative, and integers
-- otherwise. One reading of the clock serves a call. A random identifier is an argument where
-- a row or a reference is found by it later, and left out otherwise, as are the audit table and
-- columns that are only shown. An UPDATE by primary key touches one row, and an INSERT
-- that a UNIQUE constraint could refuse raises `crash` there. The ledger's rowid is a line's position.
-- A value of another type than the code asks for (a provider's result that is no object) is `none`.
--
-- The payment processor, the registrar, mail, cryptography, the calendar, the measurements of running tools and SQL's LIKE
-- are parameters. A share of a limit, which Python computes as a float, is compared exactly. What a call holds a payment lock for is one call of the model. Every loop is
-- structural recursion on a queue, a list or a table, so no fuel is needed.
--
-- Not modelled: HTTP handlers and pages, mail, deployment by Docker, and the
-- command line; they move no money. Containers and the
-- storage service are parameters of the resource limits; their start and stop are not modelled, nor is
-- the admission of a new app. Of the registrar's client only the exchange of a call is.
pub mod Prelude
pub mod Db
pub mod Referrals
pub mod Billing
pub mod Purchases
pub mod Renewals
pub mod Accounts
pub mod Sandbox
pub mod Hosts
pub mod Registrar
pub mod Resources
pub mod Tests
