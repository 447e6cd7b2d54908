-- ===== src/Core/Attempt.antt =====
-- `PaymentAttempt['status']` of src/core/domain/receipt.ts, and the tests that the code makes on it.
use agent_commerce.Prelude.{Bool, true, false, ◌||◌}

pub data AttemptStatus : Type 0 where
  reserved verified settled rejected failed settlement_uncertain : AttemptStatus

abbrev pub status_eq : AttemptStatus → AttemptStatus → Bool
status_eq reserved reserved = true
status_eq verified verified = true
status_eq settled settled = true
status_eq rejected rejected = true
status_eq failed failed = true
status_eq settlement_uncertain settlement_uncertain = true
status_eq _ _ = false

-- `UNCERTAIN` of the SQLite store: statuses needing reconciliation.
abbrev pub is_uncertain : AttemptStatus → Bool
is_uncertain s = status_eq s settlement_uncertain || status_eq s failed

-- `isFinishedAttempt`
abbrev pub is_finished : AttemptStatus → Bool
is_finished s = status_eq s settled || status_eq s rejected
