-- ===== src/Lib.antt =====
-- The crypto payment service, as a model of its decisions: what the watcher reads from a chain and
-- writes to its tables, how the settler judges an amount, settles an invoice and takes a grant back,
-- what an invoice promises, and what the status page shows. Paths are from the repository's root.
--
-- Parts and files
--   Common: numbers, tests, lists, signed integers and text that the other files share.
--   Watcher/Rpc/Errors: watcher/rpc/errors.py. The class of a failure, the sets that say whether
--     it is retried, passed over or counted, and the classifiers of JSON-RPC errors and HTTP
--     statuses.
--   Watcher/Rpc/Breaker, Watcher/Rpc/Budget: watcher/rpc/breaker.py. A method of `CircuitBreaker`
--     or `RequestBudget` is a function from the record of its fields to the record after it; the
--     readings of the clock are arguments. Breaker/Invariant, Breaker/Trips and
--     Breaker/Cooldown hold the proofs.
--   Watcher/Rpc/Pool: watcher/rpc/pool.py, `_call_slot` and `_run`, over a network `Net` (clock,
--     sleep, random draw, one request) that is a parameter. Pool/Calls and Pool/Sent are about one
--     provider, Pool/Walk about the rotation and Pool/Spending about the budgets.
--   Watcher/Rpc/Logs: watcher/rpc/pool.py, `get_logs_chunked`, `_get_logs_adaptive`,
--     `chunk_ranges` and `chunk_sequence`, over one request as a parameter. Logs/Chunks holds the
--     logs of a range as a plain recursion, Logs/Complete and Logs/Ends the proofs.
--   Watcher/Store: watcher/models.py and the statements of watcher/store/postgres.py, for one
--     chain, as functions on the lists of rows. A refusal by a unique index is `none`.
--     Store/Blocks and Store/Payments hold the proofs.
--   Watcher/Traversal: watcher/traversal.py, `ChainWalker.step` and what it calls, as actions on
--     the tables and on the world of a `Provider`, which may raise; a write stays written when a
--     later request raises. Traversal/Records has the settings, the outcome of a step and the
--     helpers on headers. Traversal/Ancestor is about the rollback, Traversal/Checkpoint about
--     the checkpoint that it leaves, Traversal/Keeps about what a step keeps, Traversal/Returning
--     about a block that returns after a reorg and Traversal/Crash about a step that raises.
--   Settler/Decimal: Python's `decimal` for values that are zero or more, with its 28 digits and
--     half-even rounding. Settler/Amounts: settler/amounts.py. Settler/Policy: settler/policy.py,
--     `classify` and the tolerances; Policy/Table holds its table. Settler/Confirmations:
--     settler/confirmations.py.
--   Enums: core/db/enums.py, the enum types of the database, with the sets of statuses that the
--     code names (LIVE_INVOICE_STATUSES and its like).
--   Invoicing/Integrity: core/invoicing/integrity.py, the framing, the canonical payload and the
--     MAC's check; HMAC-SHA256 is the parameter `mac`. Integrity/RoundTrip reads payloads back,
--     Integrity/Forgery says what a MAC that verifies means.
--   Invoicing/Quotas: core/invoicing/quotas.py, `snapshot`, `enforce` and `record_issued` over
--     `invoices` and `rate_limits`; Quotas/Lockout says what they admit and for how long they
--     refuse.
--   Invoicing/Rates: core/invoicing/rates.py. Invoicing/Issuance: core/invoicing/service.py over the
--     tables of the schema and the pool of Deriver. Issuance/Loading has the two loads and their
--     check, Issuance/Pricing the catalog and the price, Issuance/Creation `create_invoice` in the
--     order of its steps. Issuance/Stored and Issuance/Shown are about what the loads say of a new
--     invoice, Issuance/Limits about the rows that an attempt leaves, Issuance/Locked about a user
--     whose invoices expire.
--   Settler/Ledger: the tables of core/db/models.py that the settler uses, as lists of rows in a
--     record with the database's clock. Ledger/Invoices, Payments, Grants and Outbox: the
--     statements of settler/repository.py, one function for each, from the tables to a result and
--     the tables after it. A compare-and-set answers whether it changed a row; a conflict with a
--     unique index is `none`.
--   Settler/Service: settler/service.py. Service/Settle is `settle_invoice` in the order of its
--     tests, Service/Apply the writes of its outcomes, Service/Reorg `handle_reorg`,
--     Service/Sweeps the two expiries, the announcements and the cases for anomalous payments,
--     Service/Addresses `sync_address_lifecycle`, Service/Facade the transaction and the lock of
--     `Settler.settle`. Service/Consistency and its children follow one invariant through all of
--     them, up to runs in any order (Consistency/Runs). Service/Flow and Service/Frame carry facts
--     through a settlement; Service/Funded and Service/Granted are about what a grant rests on,
--     Service/Settled and Service/Again about a second settlement, Service/Progress about a bill
--     that is paid, Service/Tampered about a MAC that fails, Service/Rollback about the reorg,
--     Service/Deadlines and Service/Swept about the expiries, Service/Announced about the
--     announcements.
--   Settler/Loop: settler/main.py, `run_once`, one pass of the loop over the transactions; the
--     enabled chains and the answers of the lock are arguments.
--   Deriver/Pool: deriver/pool.py over `hd_accounts` and `receive_addresses`; `FOR UPDATE SKIP
--     LOCKED` is a parameter that says which rows others hold, and the derivation of an address is
--     the parameter `derive`. Pool/Operations holds the operations. Pool/Sound and Pool/Runs follow
--     one invariant through them in any order; Pool/Funded is about addresses that have held funds,
--     Pool/Pooled and Pool/Ceiling about the ceiling of an account, Pool/Refusals about the errors
--     and Pool/Held about the row of a reservation.
--   Deriver/Queue: the statements of deriver/requests.py, once for its three tables; Requests names
--     the three. Queue/Bounded and Queue/Handed are about attempts, Queue/Over and Queue/Once about
--     answers; Queue/Drain is the pass over a queue, Queue/Left the requests that it has not attempted.
--   Deriver/Serve: deriver/main.py, the service of one request, the passes and the housekeeping; the
--     issuers are parameters. Serve/Passes is about the passes, Serve/Atomic about one service.
--   Api: api/stages.py and `InvoiceProgress` of api/repository.py; Api/Ladder holds what a stage
--     says.
--   The walk of Traversal reads the chain through the pool and writes through the store; its logs
--   come by the chunked fetch. The settler reads the payments and blocks that the store holds,
--   checks the MAC of Invoicing, decides by Policy and Confirmations, and writes grants, which the
--   page shows. It asks the deriver to move addresses by a queue, whose service writes the pool.
--
-- Conventions
--   Times are whole clock ticks, hashes and addresses are numbers compared for equality, and text
--   is a list of character codes. Ids of all tables come from one sequence. In the settler's
--   tables a time is in microseconds, a balance in millionths, and an enum's set is a function
--   into Bool. `unfoldable` definitions are the code's; a witness ends in `_example`.
--
-- Fuel
--   `chunk_ranges` has a round for each block of the range and `chunk_sequence` one for each item;
--   each round takes one or more. The adaptive fetch has one round more than the blocks and
--   addresses of its request, and each split leaves fewer of one of them. `_call_slot` recurses on
--   the attempts left, `_rollback` on `max_reorg_depth + 1` rounds, and the count of digits on the
--   number itself, as does the decimal print of `format`, which divides by ten in each round. The
--   deriver's `drain` has a round more than the requests of its queue; each round attempts a new one.
--
-- Not modelled
--   HTTP and web3 clients, the decoding of logs and native transfers, the sampled cross-check of
--   two providers, metrics and log lines, the timestamps of blocks; notes, message payloads and
--   the arguments of audit rows; the start-up and the second loop of settler/main.py, the
--   gauge of reserved addresses, the Redis lock; the loading of the integrity key; the Redis cache
--   of the quotas; the payment URI of an invoice and the client of the request queue; the
--   administration, the derivation of keys, the notifications and the outer loop of the deriver, the
--   notifier, the bot, the rest of the web API and the migrations. Of what is modelled: the failures
--   of the database while a step writes its checkpoint or promotes blocks, the refusal by
--   `uq_invoices_active_address` of an invoice that returns to `awaiting`, the exception of an
--   account without a public key, and requests that are added to a queue while a pass over it runs.
pub mod Common
pub mod Watcher
pub mod Settler
pub mod Enums
pub mod Invoicing
pub mod Api
pub mod Deriver
