-- ===== src/Reconcile.antt =====
-- src/core/execution/reconcile.ts: the verdict of an operator on a payment attempt. The attempt and its
-- transaction are read before the write, so they come from tables that other calls may have changed since.
mod Tests
mod RunTests
pub mod Manual
pub mod Candidates
pub mod Verdicts
pub mod Alignment
pub mod Orphans
use agent_commerce.Prelude.{
  Bool, Option, String, false, get_or, if◌then◌else◌, is_some, leb, ltb, none, not, some, true, ℕ,
  ◌&&◌, ◌+◌,
}
use agent_commerce.Sql.{find_row}
use agent_commerce.Core.Time.{date_parse}
use agent_commerce.Core.Attempt.{
  AttemptStatus, failed, rejected, reserved, settled, settlement_uncertain, status_eq,
}
use agent_commerce.Core.Transaction
use agent_commerce.Store.Journal.{
  AttemptRow, Db, TransactionRow, get_payment_attempt, has_transaction_id, manual,
}
use agent_commerce.Store.Journal.Writes.{ResolveRequest, resolve_payment_attempt}

-- DEFAULT_RECONCILE_MIN_AGE_MS
abbrev pub min_age_ms : ℕ
min_age_ms = 900000

-- `ManualResolveOptions`, with texts that `requiredText` accepts; `rejects` is the status `rejected`.
pub record ManualRequest : Type 0 where
  pub attempt_id : String
  pub rejects : Bool
  pub actor : String
  pub reason : String
  pub external_reference : Option String
  pub confirm_expired : Bool

pub data Refusal : Type 0 where
  already_resolved not_resolvable too_recent not_expired expiry_unknown : Refusal

pub data ManualResult : Type 0 where
  not_found : ManualResult
  refused : Refusal → AttemptRow → ManualResult
  recorded : AttemptRow → ManualResult

-- RESOLVABLE
abbrev pub may_resolve : AttemptStatus → Bool
may_resolve reserved = true
may_resolve settlement_uncertain = true
may_resolve failed = true
may_resolve _ = false

-- `clock.now().getTime() - Date.parse(attempt.createdAt) >= DEFAULT_RECONCILE_MIN_AGE_MS`
abbrev pub is_old : ℕ → AttemptRow → Bool
is_old now a = leb (a.created_at + min_age_ms) now

-- `transaction?.payment.expiresAt`, as a number or NaN
abbrev expiry_of : Option TransactionRow → Option ℕ
expiry_of none = none
expiry_of (some t) = elim t.expires_at [ none ↦ none | some at ↦ date_parse at ]

unfoldable pub recorded_expiry : AttemptRow → Db → Option ℕ
recorded_expiry a db = elim a.transaction_id [
  | none ↦ none
  | some id ↦ expiry_of (find_row (has_transaction_id id) db.transactions)
]

-- The guard of a `rejected` verdict.
unfoldable pub expiry_refusal : ℕ → Bool → Option ℕ → Option Refusal
expiry_refusal now confirmed none = if confirmed then none else some expiry_unknown
expiry_refusal now confirmed (some at) = if ltb now at then some not_expired else none

-- The guards, in the code's order.
unfoldable pub refusal_of : ℕ → ManualRequest → AttemptRow → Option ℕ → Option Refusal
unfolding expiry_refusal
refusal_of now m a expiry =
    if is_some a.resolution_json
    then some already_resolved
    else if not (may_resolve a.status)
    then some not_resolvable
    else if status_eq a.status reserved && not (is_old now a)
    then some too_recent
    else if m.rejects
    then expiry_refusal now m.confirm_expired expiry
    else none

abbrev pub resolve_request : ℕ → ManualRequest → AttemptRow → ResolveRequest
resolve_request now m a = record {
  attempt_id = m.attempt_id;
  expected_status = a.status;
  status = if m.rejects then rejected else settled;
  rejection_reason = if m.rejects then some "not_settled" else none;
  resolution = record {
    method = manual;
    actor = m.actor;
    reason = m.reason;
    at = now;
    external_reference = m.external_reference;
    evidence = none;
  };
}

-- What follows the conditional update.
unfoldable pub written_result : Bool → AttemptRow → ManualResult
written_result true current = recorded current
written_result false current =
    refused (if is_some current.resolution_json then already_resolved else not_resolvable) current

-- The write of an attempt that was seen, unless it is refused.
unfoldable pub resolve_seen :
    ℕ → ManualRequest → AttemptRow → Db → Option Refusal → Db × ManualResult
unfolding get_payment_attempt resolve_payment_attempt written_result
resolve_seen now m a db (some refusal) = (db, refused refusal a)
resolve_seen now m a db none =
    let (db', written) = resolve_payment_attempt now (resolve_request now m a) db in
    (db', written_result written (get_or (get_payment_attempt m.attempt_id db') a))

unfoldable pub resolve_found : ℕ → ManualRequest → Db → Db → Option AttemptRow → Db × ManualResult
unfolding recorded_expiry refusal_of resolve_seen
resolve_found now m seen db none = (db, not_found)
resolve_found now m seen db (some a) =
    resolve_seen now m a db (refusal_of now m a (recorded_expiry a seen))

-- `resolveManually`, from the read of the attempt to the write: `seen` are the tables that it reads first,
-- `db` those that it writes.
unfoldable pub resolve_manually : ℕ → ManualRequest → Db → Db → Db × ManualResult
unfolding get_payment_attempt resolve_found
resolve_manually now m seen db = resolve_found now m seen db (get_payment_attempt m.attempt_id seen)
