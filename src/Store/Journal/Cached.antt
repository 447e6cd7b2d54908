-- ===== src/Store/Journal/Cached.antt =====
-- The column `state` of src/storage/receipts/store.ts, against the state that rows.ts derives.
pub mod Refresh
use mathlib.Core.Option
use agent_commerce.Prelude.{All, Bool, List, none, some, true, ◌==◌, ◌≡◌}
use agent_commerce.Sql.{find_row}
use agent_commerce.Core.Time.{IsoTimestamp}
use agent_commerce.Store.Journal.{
  ArchivedRow, AttemptRow, Db, TransactionRow, has_attempt_id, state_at,
}

-- The state in the table is what `rowToTransaction` derives at some time.
abbrev pub IsCurrent : List AttemptRow → List ArchivedRow → TransactionRow → Type 0
IsCurrent attempts history t = (now : IsoTimestamp) × (t.state ≡ state_at attempts history t now)

-- A transaction and its attempt share their replay key.
abbrev pub is_linked : List AttemptRow → TransactionRow → Bool
is_linked attempts t = elim (find_row (has_attempt_id t.attempt_id) attempts) [
  | none ↦ true
  | some a ↦ t.replay_key == a.replay_key
]

abbrev pub IsGood : List AttemptRow → List ArchivedRow → TransactionRow → Type 0
IsGood attempts history t = IsCurrent attempts history t × (is_linked attempts t ≡ true)

abbrev pub IsCached : Db → Type 0
IsCached db = All (IsGood db.attempts db.history) db.transactions
