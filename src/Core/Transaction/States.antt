-- ===== src/Core/Transaction/States.antt =====
-- What the derived state says of the facts, and how it moves with time.
use agent_commerce.Prelude.{
  ℕ, ◌≤◌, ◌<◌, ◌≡◌, Bool, true, false, none, some, arith, IsSome, ◌↔◌, ◌⊎◌,
}
use agent_commerce.Core.Time.{IsoTimestamp, instant}
use agent_commerce.Core.Attempt.{settled}
use agent_commerce.Core.Transaction.{
  TransactionState, payment_pending, payment_failed, delivery_started, delivery_unknown, delivered,
  Backend, TransactionFacts, is_success, transaction_state, has_failed,
}

-- `RESOLVED_STATES` of the store
abbrev pub is_resolved : TransactionState → Bool
is_resolved delivered = true
is_resolved payment_failed = true
is_resolved _ = false

-- Before its deadline a call may still be running.
abbrev pub HasRoom : IsoTimestamp → Backend → Type 0
HasRoom now b =
    (ms : ℕ) × (end : ℕ) × (now ≡ instant ms) × (b.deadline_at ≡ instant end) × (ms < end)

-- A purchase is `delivered` exactly when its payment is settled, its backend call returned a status
-- of 200 to 299, and the pipeline has written its last journal step; the time plays no part.
pub delivered_iff :
    (facts : TransactionFacts) (now : IsoTimestamp)
    → (transaction_state facts now ≡ delivered) ↔ (
        (facts.payment_status ≡ settled)
        × ((b : Backend) × (s : ℕ) × (facts.backend ≡ some b)
            × (b.status ≡ some s)
            × (200 ≤ s)
            × (s ≤ 299))
        × IsSome facts.completed_at)
unfolding transaction_state is_success
delivered_iff facts now = (ground arith, ground arith)

-- A resolved state is final: time alone neither resolves a purchase nor changes a resolved one.
pub resolved_at_all_times :
    (facts : TransactionFacts) (t t' : IsoTimestamp)
    → is_resolved (transaction_state facts t) ≡ true
    → transaction_state facts t' ≡ transaction_state facts t
unfolding transaction_state is_success
resolved_at_all_times facts t t' h = ground arith

-- Without a backend deadline, or after completion, the state does not depend on the time.
pub state_at_all_times :
    (facts : TransactionFacts) (t t' : IsoTimestamp)
    → (facts.backend ≡ none) ⊎ IsSome facts.completed_at
    → transaction_state facts t' ≡ transaction_state facts t
unfolding transaction_state is_success
state_at_all_times facts t t' h = ground arith

-- A purchase whose delivery is under way has a dispatched call with time left that has no failure
-- on record, and its pipeline has not ended.
pub delivery_started_sound :
    (facts : TransactionFacts) (now : IsoTimestamp)
    → transaction_state facts now ≡ delivery_started
    → (facts.completed_at ≡ none)
      × ((b : Backend) × (facts.backend ≡ some b) × (has_failed b.status ≡ false) × HasRoom now b)
unfolding transaction_state is_success
delivery_started_sound facts now h = (ground arith, ground arith)

-- As time passes, a state stays, or the wait for the backend ends: in `delivery_unknown` if the
-- payment was settled, and else in `payment_pending`.
state_later :
    (facts : TransactionFacts) (ms later : ℕ)
    → ms ≤ later
    → (transaction_state facts (instant later) ≡ transaction_state facts (instant ms))
      ⊎ ((transaction_state facts (instant ms) ≡ delivery_started)
          × ((transaction_state facts (instant later) ≡ delivery_unknown)
              ⊎ (transaction_state facts (instant later) ≡ payment_pending)))
unfolding transaction_state is_success
state_later facts ms later h = ground arith
