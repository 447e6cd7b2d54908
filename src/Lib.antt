-- ===== src/Lib.antt =====
-- Agent Commerce Gateway: a purchase through the gateway, and the SQLite store that keeps it.
--
-- The gateway sells calls of HTTP backends. A request passes one pipeline (src/core/execution/pipeline):
-- the resource is found and the input validated, a payment provider states a requirement and verifies the
-- proof, the authorization and the payment's replay key are reserved, and then the payment is settled
-- before or after the backend call. The store (src/storage/receipts) keeps payment attempts, the journal
-- of transactions, authorization holds, idempotency claims and pending tasks, and answers which of them
-- may be used again.
--
-- Files, and the code that they are about:
--   Core/Errors       src/core/errors/codes.ts, commerce-error.ts
--   Core/Time         time stamps: an instant in milliseconds, or text that is no date
--   Core/Attempt      the statuses of src/core/domain/receipt.ts
--   Core/Transaction  src/core/domain/transaction.ts: `transactionState`; States has its theorems
--   Sql               SELECT, UPDATE and DELETE on a table as a list of rows in the order of `seq`;
--                     Views erases columns, Pages reads by a cursor
--   Json              JSON values
--   Store/Params      src/storage/receipts/params.ts
--   Store/Redact      src/storage/receipts/redact.ts
--   Store/Holds       src/storage/receipts/holds.ts
--   Store/Claims      src/storage/receipts/idempotency.ts
--   Store/PendingTasks  src/storage/receipts/pending-tasks.ts
--   Store/Journal     src/storage/receipts/store.ts and rows.ts: Reserve is `reservePaymentAttempt`,
--                     Writes the updates, resolutions and steps, Calls a history of writes; Unique,
--                     Replay, Once, Cached and Final have the theorems; Listing is
--                     `listTransactions` and the loop over its pages
--   Pipeline          src/core/execution/pipeline: Context is context.ts, Settlement settlement.ts,
--                     Authorization authorization.ts, Refusal challenge.ts, Reserving the journal's
--                     `newTransaction`, Admission admission.ts, Delivery and Execute the two halves of
--                     index.ts; Marks is the abstract view of a run
--   Reconcile         src/core/execution/reconcile.ts: Manual is about `resolveManually`, Candidates
--                     is `collectCandidates`, Verdicts the loop of `runReconcile`, Alignment
--                     `alignPendingHolds`, Orphans `releaseOrphanHolds`
--   Spending          the contract that holds.ts and the AP2 replay store share: a ledger of
--                     authorizations, and an interface for the stores that keep one
--   Ap2/ReplayStore   src/authorization/ap2/replay-store.ts
--   Acp               src/protocols/acp: Documents and Responses are response-mapping.ts,
--                     FileStore is idempotency/store.ts, Dispatch adapter.ts; the rest are theorems
--   Payments/Amount   src/payments/x402/amount.ts; Exact is about its conversion
--
-- A call of the store is a function on its tables, as SQLite runs it as one transaction; what the clock
-- and the id generator return is an argument. A history of calls is a list, so a theorem about `run`
-- holds for every interleaving of requests at the grain of those calls. A stage of the pipeline takes the
-- flow so far and gives the flow after it with an answer or a throw; the flow lists the calls that left
-- the pipeline, and payment providers, authorization providers, the store and the backend are functions
-- that answer. Two loops run on fuel, the reading of pages and the release of orphan holds; as many turns
-- as there are rows, and one more, are enough, and the theorems about them say so. The other definitions
-- are structural recursions.
--
-- Two interfaces carry theorems to more than one implementation: a spending store (Spending/Runs) is
-- filled by the holds of the receipt database and by the AP2 replay store, and the dispatch of ACP
-- requests runs over the claims of the receipt database and over the legacy file.
--
-- Not modelled: log lines, durations and event ids; the JSON Schema validator, the shape check of backend
-- requests, regular expressions and the digests, which are parameters; the lists of receipts, events and
-- attempts; the schema's migrations; the MCP and A2A adapters and the HTTP routes; the payment rails
-- but for their amounts, and the verification of AP2 tokens; configuration and the command line.
pub mod Prelude
pub mod Sql
pub mod Json
pub mod Core
pub mod Store
pub mod Spending
pub mod Ap2
pub mod Acp
pub mod Pipeline
pub mod Reconcile
pub mod Payments
