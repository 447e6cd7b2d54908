-- ===== src/Store/Journal.antt =====
-- src/storage/receipts/store.ts and rows.ts: payment attempts, the archive of rejected attempts that a
-- reclaim has replaced, and the journal of transactions, with the reads that join them.
mod Tests
pub mod Reserve
pub mod Writes
pub mod Calls
pub mod Unique
pub mod Replay
pub mod Once
pub mod Cached
pub mod Final
pub mod Listing
use agent_commerce.Prelude.{
  Bool, List, Option, String, [], if◌then◌else◌, none, or_else, some, ℕ, ◌&&◌, ◌==◌, ◌∷◌,
}
use agent_commerce.Json.{Json}
use agent_commerce.Sql.{count_rows, find_row, update_rows}
use agent_commerce.Core.Time.{IsoTimestamp}
use agent_commerce.Core.Attempt.{AttemptStatus, reserved, is_uncertain}
use agent_commerce.Core.Transaction.{
  TransactionState, HoldState, Backend, TransactionFacts, transaction_state,
}

pub data ResolutionMethod : Type 0 where
  reconcile manual : ResolutionMethod

-- `PaymentAttemptResolution`
pub record Resolution : Type 0 where
  pub method : ResolutionMethod
  pub actor : String
  pub reason : String
  pub at : ℕ
  pub external_reference : Option String
  pub evidence : Option Json

-- `PaymentAttemptRow`
pub record AttemptRow : Type 0 where
  pub id : String
  pub request_id : String
  pub resource_id : String
  pub provider : String
  pub replay_key : String
  pub status : AttemptStatus
  pub amount : String
  pub currency : String
  pub payer : Option String
  pub payee : Option String
  pub external_reference : Option String
  pub rejection_reason : Option String
  pub created_at : ℕ
  pub updated_at : ℕ
  pub transaction_id : Option String
  pub resolution_json : Option Resolution

-- A row of `payment_attempt_history`
pub record ArchivedRow : Type 0 where
  pub attempt : AttemptRow
  pub superseded_at : ℕ

-- `authorization_json`
pub record StoredAuthorization : Type 0 where
  pub method : String
  pub reference : String
  pub metadata : Option Json
  pub hold : HoldState

-- A row of `transactions`
pub record TransactionRow : Type 0 where
  pub id : String
  pub request_id : String
  pub resource_id : String
  pub protocol : String
  pub state : TransactionState
  pub provider : String
  pub attempt_id : String
  pub replay_key : String
  pub network : Option String
  pub asset : Option String
  pub authorization_json : Option StoredAuthorization
  pub reservation_id : Option String
  pub locator_json : Option Json
  pub expires_at : Option IsoTimestamp
  pub input_digest : Option String
  pub config_digest : String
  pub settling_at : Option IsoTimestamp
  pub backend_dispatched_at : Option IsoTimestamp
  pub backend_deadline_at : Option IsoTimestamp
  pub backend_status : Option ℕ
  pub backend_error_code : Option String
  pub receipt_id : Option String
  pub persistence_failures_json : Option (List String)
  pub completed_at : Option IsoTimestamp
  pub created_at : ℕ
  pub updated_at : IsoTimestamp

-- The tables that the journal's statements read and write, each in the order of `seq`.
pub record Db : Type 0 where
  pub attempts : List AttemptRow
  pub history : List ArchivedRow
  pub transactions : List TransactionRow

abbrev pub has_attempt_id : String → AttemptRow → Bool
has_attempt_id id a = a.id == id

abbrev pub has_replay_key : String → AttemptRow → Bool
has_replay_key key a = a.replay_key == key

abbrev pub has_transaction_id : String → TransactionRow → Bool
has_transaction_id id t = t.id == id

-- The row with the greatest `seq`: ORDER BY seq DESC LIMIT 1
unfoldable pub last_archived : (ArchivedRow → Bool) → List ArchivedRow → Option ArchivedRow
last_archived p [] = none
last_archived p (h ∷ hs) = or_else (last_archived p hs) (if p h then some h else none)

-- `getPaymentAttempt`
unfoldable pub get_payment_attempt : String → Db → Option AttemptRow
unfolding last_archived
get_payment_attempt id db =
    or_else (find_row (has_attempt_id id) db.attempts)
      (elim (last_archived (λ h. h.attempt.id == id) db.history) [
        | none ↦ none
        | some h ↦ some h.attempt
      ])

-- `findPaymentAttemptByReplayKey`
unfoldable pub find_by_replay_key : String → Db → Option AttemptRow
find_by_replay_key key db = find_row (has_replay_key key) db.attempts

-- `countUncertainPaymentAttempts`
unfoldable pub count_uncertain : Db → ℕ
count_uncertain db = count_rows (λ a. is_uncertain a.status) db.attempts

-- The payment columns of TRANSACTION_SELECT: the live attempt, else the last archived one with the
-- transaction's replay key. No attempt gives NULL, on which `transactionState` acts as on `reserved`.
unfoldable pub archived_status : TransactionRow → List ArchivedRow → AttemptStatus
unfolding last_archived
archived_status t history =
    elim (last_archived (λ h. h.attempt.replay_key == t.replay_key && h.attempt.id == t.attempt_id)
      history) [ none ↦ reserved | some h ↦ h.attempt.status ]

unfoldable pub payment_status : TransactionRow → List AttemptRow → List ArchivedRow → AttemptStatus
payment_status t attempts history = elim (find_row (has_attempt_id t.attempt_id) attempts) [
  | some a ↦ a.status
  | none ↦ archived_status t history
]

-- `backend` of `rowToTransaction`
unfoldable pub backend_of : TransactionRow → Option Backend
backend_of t = elim t.backend_dispatched_at [
  | none ↦ none
  | some dispatched ↦ elim t.backend_deadline_at [
    | none ↦ none
    | some deadline ↦ some (record {
      dispatched_at = dispatched;
      deadline_at = deadline;
      status = t.backend_status;
      error_code = t.backend_error_code;
    })
  ]
]

unfoldable pub facts_of : AttemptStatus → TransactionRow → TransactionFacts
unfolding backend_of
facts_of status t = record {
  payment_status = status;
  backend = backend_of t;
  completed_at = t.completed_at;
}

-- `rowToTransaction(row, now).state`
unfoldable pub state_at :
    List AttemptRow → List ArchivedRow → TransactionRow → IsoTimestamp → TransactionState
unfolding facts_of
state_at attempts history t now =
    transaction_state (facts_of (payment_status t attempts history) t) now

-- `refreshTransactionState` on each transaction that a query selects; ids are unique, so the loop is
-- one pass.
unfoldable pub refresh_states : (TransactionRow → Bool) → IsoTimestamp → Db → Db
refresh_states p now db = record db {
  transactions =
      update_rows p (λ t. record t { state = state_at db.attempts db.history t now })
        db.transactions;
}
