-- ===== src/Core/Transaction/Tests.antt =====
-- States of concrete purchases, and the theorems at them.
use agent_commerce.Core.Transaction.{
  Backend, TransactionFacts, delivered, delivery_started, delivery_unknown, has_failed,
  transaction_state,
}
use agent_commerce.Core.Transaction.States.{delivered_iff}
use agent_commerce.Core.Time.{instant}
use agent_commerce.Core.Attempt
use agent_commerce.Prelude.{IsSome, none, refl, some, ℕ, ◌↔◌, ◌≡◌, ◌≤◌}

abbrev waiting_backend : Backend
waiting_backend = record {
  dispatched_at = instant 10;
  deadline_at = instant 20;
  status = none;
  error_code = none;
}

abbrev running : TransactionFacts
running = record {
  payment_status = Attempt.settled;
  backend = some waiting_backend;
  completed_at = none;
}

abbrev done : TransactionFacts
done = record running {
  backend = some (record waiting_backend { status = some 200 });
  completed_at = some (instant 15);
}

state_running : transaction_state running (instant 15) ≡ delivery_started
unfolding transaction_state has_failed
state_running = refl

state_unknown : transaction_state running (instant 20) ≡ delivery_unknown
unfolding transaction_state has_failed
state_unknown = refl

delivered_iff_example : (transaction_state done (instant 30) ≡ delivered) ↔ (
    (Attempt.settled ≡ Attempt.settled)
    × ((b : Backend) × (s : ℕ) × (done.backend ≡ some b)
        × (b.status ≡ some s)
        × (200 ≤ s)
        × (s ≤ 299))
    × IsSome done.completed_at)
delivered_iff_example = delivered_iff done (instant 30)
