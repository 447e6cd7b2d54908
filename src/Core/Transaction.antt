-- ===== src/Core/Transaction.antt =====
-- src/core/domain/transaction.ts: the state of a purchase, derived from the payment's status, the
-- backend call and the pipeline's completion.
mod Tests
pub mod States
use agent_commerce.Prelude.{
  ℕ, Bool, true, false, not, ◌&&◌, Option, none, some, String, leb, eqb, if◌then◌else◌, is_some,
}
use agent_commerce.Core.Time.{IsoTimestamp, date_parse, lt_number}
use agent_commerce.Core.Attempt.{AttemptStatus, settled, rejected, status_eq, is_uncertain}

pub data TransactionState : Type 0 where
  payment_pending payment_failed payment_uncertain settled_undelivered : TransactionState
  delivery_started delivery_unknown delivered : TransactionState

pub data HoldState : Type 0 where
  reserved consumed released uncertain : HoldState

-- `backend` of a transaction; `status` is 0 if the call ended without a status.
pub record Backend : Type 0 where
  pub dispatched_at : IsoTimestamp
  pub deadline_at : IsoTimestamp
  pub status : Option ℕ
  pub error_code : Option String

pub record TransactionFacts : Type 0 where
  pub payment_status : AttemptStatus
  pub backend : Option Backend
  pub completed_at : Option IsoTimestamp

unfoldable pub is_success : ℕ → Bool
is_success status = leb 200 status && leb status 299

-- `waiting`: the call was dispatched, the pipeline has not ended, and the deadline is ahead. With an
-- unreadable time stamp the comparison is false.
unfoldable pub is_waiting : TransactionFacts → IsoTimestamp → Bool
is_waiting facts now = elim facts.backend [
  | none ↦ false
  | some b ↦
      not (is_some facts.completed_at) && lt_number (date_parse now) (date_parse b.deadline_at)
]

-- `status === undefined`, `status !== undefined && status !== 0 && !isSuccess(status)` and so on
abbrev pub has_failed : Option ℕ → Bool
unfolding is_success
has_failed none = false
has_failed (some s) = not (eqb s 0) && not (is_success s)

abbrev pub has_succeeded : Option ℕ → Bool
unfolding is_success
has_succeeded none = false
has_succeeded (some s) = is_success s

abbrev pub is_zero : Option ℕ → Bool
is_zero none = false
is_zero (some s) = eqb s 0

unfoldable pub delivery_state : Option ℕ → Bool → Bool → TransactionState
delivery_state status completed waiting =
    if has_failed status
    then settled_undelivered
    else if has_succeeded status && completed
    then delivered
    else if not (is_zero status) && waiting
    then delivery_started
    else delivery_unknown

unfoldable pub settled_state : TransactionFacts → Bool → TransactionState
unfolding delivery_state
settled_state facts waiting = elim facts.backend [
  | none ↦ settled_undelivered
  | some b ↦ delivery_state b.status (is_some facts.completed_at) waiting
]

unfoldable pub pending_state : TransactionFacts → Bool → TransactionState
pending_state facts waiting = elim facts.backend [
  | none ↦ payment_pending
  | some b ↦ if waiting && not (is_some b.status) then delivery_started else payment_pending
]

-- `transactionState`
unfoldable pub transaction_state : TransactionFacts → IsoTimestamp → TransactionState
unfolding is_waiting settled_state pending_state
transaction_state facts now =
    if is_uncertain facts.payment_status
    then payment_uncertain
    else if status_eq facts.payment_status rejected
    then payment_failed
    else let waiting = is_waiting facts now in
      if status_eq facts.payment_status settled
      then settled_state facts waiting
      else pending_state facts waiting

abbrev pub state_eq : TransactionState → TransactionState → Bool
state_eq payment_pending payment_pending = true
state_eq payment_failed payment_failed = true
state_eq payment_uncertain payment_uncertain = true
state_eq settled_undelivered settled_undelivered = true
state_eq delivery_started delivery_started = true
state_eq delivery_unknown delivery_unknown = true
state_eq delivered delivered = true
state_eq _ _ = false
