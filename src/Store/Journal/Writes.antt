-- ===== src/Store/Journal/Writes.antt =====
-- The other writes of src/storage/receipts/store.ts: updates of an attempt, its resolution, and the
-- steps of the journal. Each refreshes the cached states in the same SQL transaction.
use agent_commerce.Prelude.{
  Bool, List, Option, String, [], false, if◌then◌else◌, is_some, none, not, or_else, some, true, ℕ,
  ◌&&◌, ◌==◌, ◌∷◌,
}
use agent_commerce.Sql.{any_row, update_rows}
use agent_commerce.Store.Redact.{redact}
use agent_commerce.Core.Errors.{Result, ok, err, storage_error}
use agent_commerce.Core.Time.{IsoTimestamp, instant}
use agent_commerce.Core.Attempt.{AttemptStatus, status_eq}
use agent_commerce.Core.Transaction.{HoldState}
use agent_commerce.Store.Journal.{
  AttemptRow, Db, Resolution, TransactionRow, has_attempt_id, has_replay_key, has_transaction_id,
  manual, reconcile, refresh_states,
}

-- `PaymentAttemptUpdate`
pub record AttemptUpdate : Type 0 where
  pub replay_key : String
  pub status : AttemptStatus
  pub external_reference : Option String
  pub rejection_reason : Option String

-- `updatePaymentAttemptStmt`: its WHERE and SET clauses
abbrev pub is_updatable : String → AttemptRow → Bool
is_updatable key a = a.replay_key == key && not (is_some a.resolution_json)

abbrev pub updated : ℕ → AttemptUpdate → AttemptRow → AttemptRow
updated now u a = record a {
  status = u.status;
  external_reference = or_else u.external_reference a.external_reference;
  rejection_reason = or_else u.rejection_reason a.rejection_reason;
  updated_at = now;
}

-- `JOIN transactions t ON t.replay_key = a.replay_key AND t.attempt_id = a.id WHERE …`
unfoldable pub is_joined : (AttemptRow → Bool) → List AttemptRow → TransactionRow → Bool
is_joined p attempts t =
    any_row (λ a. p a && (t.replay_key == a.replay_key && t.attempt_id == a.id)) attempts

-- `updateAttempt` commits before the caller looks at `changes`.
unfoldable pub update_attempt : ℕ → AttemptUpdate → Db → Db
unfolding is_joined refresh_states
update_attempt now u db =
    let attempts' = update_rows (is_updatable u.replay_key) (updated now u) db.attempts in
    refresh_states (is_joined (has_replay_key u.replay_key) attempts') (instant now)
      (record db { attempts = attempts' })

-- `updatePaymentAttempt`
unfoldable pub update_payment_attempt : ℕ → AttemptUpdate → Db → Db × Result (Unit {0})
unfolding update_attempt
update_payment_attempt now u db = (
  update_attempt now u db,
  if any_row (is_updatable u.replay_key) db.attempts then ok tt else err storage_error,
)

-- `PaymentAttemptResolveRequest`; its status is `settled` or `rejected`.
pub record ResolveRequest : Type 0 where
  pub attempt_id : String
  pub expected_status : AttemptStatus
  pub status : AttemptStatus
  pub rejection_reason : Option String
  pub resolution : Resolution

-- `redact` reaches the evidence; the other keys of a resolution name no secret.
abbrev pub redacted_resolution : Resolution → Resolution
redacted_resolution r = record r {
  evidence = elim r.evidence [ none ↦ none | some j ↦ some (redact j) ];
}

-- Only a reconciliation may replace the attempt's reference.
abbrev pub reconciled_reference : Resolution → Option String
reconciled_reference r = elim r.method [ reconcile ↦ r.external_reference | manual ↦ none ]

-- `resolvePaymentAttemptStmt`
abbrev pub is_resolvable : ResolveRequest → AttemptRow → Bool
is_resolvable q a =
    a.id == q.attempt_id
    && (status_eq a.status q.expected_status && not (is_some a.resolution_json))

abbrev pub resolved : ℕ → ResolveRequest → AttemptRow → AttemptRow
resolved now q a = record a {
  status = q.status;
  rejection_reason = or_else q.rejection_reason a.rejection_reason;
  external_reference = or_else (reconciled_reference q.resolution) a.external_reference;
  resolution_json = some (redacted_resolution q.resolution);
  updated_at = now;
}

-- `resolvePaymentAttempt`
unfoldable pub resolve_payment_attempt : ℕ → ResolveRequest → Db → Db × Bool
unfolding is_joined refresh_states
resolve_payment_attempt now q db =
    let attempts' = update_rows (is_resolvable q) (resolved now q) db.attempts in
    if any_row (is_resolvable q) db.attempts
    then (
      refresh_states (is_joined (has_attempt_id q.attempt_id) attempts') (instant now)
          (record db { attempts = attempts' }),
      true,
    )
    else (db, false)

-- `TransactionStep`
pub data StepKind : Type 0 where
  settling : StepKind
  hold : HoldState → StepKind
  backend_dispatched : IsoTimestamp → StepKind
  backend_result : ℕ → Option String → StepKind
  receipt : String → StepKind
  completed : List String → StepKind

-- `persistenceFailures !== undefined && persistenceFailures.length > 0`
abbrev failures_json : List String → Option (List String)
failures_json [] = none
failures_json (f ∷ fs) = some (f ∷ fs)

-- The SET clauses of `stepStmts`
unfoldable pub set_step : IsoTimestamp → StepKind → TransactionRow → TransactionRow
set_step at settling t = record t { settling_at = some at; updated_at = at }
set_step at (hold state) t = record t {
  authorization_json = elim t.authorization_json [
    | none ↦ none
    | some a ↦ some (record a { hold = state })
  ];
  updated_at = at;
}
set_step at (backend_dispatched deadline) t = record t {
  backend_dispatched_at = some at;
  backend_deadline_at = some deadline;
  updated_at = at;
}
set_step at (backend_result status error_code) t = record t {
  backend_status = some status;
  backend_error_code = error_code;
  backend_dispatched_at = or_else t.backend_dispatched_at (some at);
  backend_deadline_at = or_else t.backend_deadline_at (some at);
  updated_at = at;
}
set_step at (receipt receipt_id) t = record t { receipt_id = some receipt_id; updated_at = at }
set_step at (completed failures) t = record t {
  completed_at = some at;
  persistence_failures_json = failures_json failures;
  updated_at = at;
}

-- Their WHERE clauses: a transaction without an authorization has no hold to record.
unfoldable pub accepts_step : String → StepKind → TransactionRow → Bool
accepts_step id (hold state) t = has_transaction_id id t && is_some t.authorization_json
accepts_step id _ t = has_transaction_id id t

-- `recordStep` and `recordTransactionStep`
unfoldable pub record_transaction_step :
    String → IsoTimestamp → StepKind → Db → Db × Result (Unit {0})
unfolding refresh_states set_step accepts_step
record_transaction_step id at kind db =
    if any_row (accepts_step id kind) db.transactions
    then (
      refresh_states (has_transaction_id id) at (record db {
        transactions = update_rows (accepts_step id kind) (set_step at kind) db.transactions;
      }),
      ok tt,
    )
    else (db, err storage_error)
