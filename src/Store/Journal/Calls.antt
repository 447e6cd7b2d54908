-- ===== src/Store/Journal/Calls.antt =====
-- Histories of writes to the journal, each with the clock's reading.
use agent_commerce.Prelude.{List, String, [], ℕ, ◌∷◌}
use agent_commerce.Core.Time.{IsoTimestamp}
use agent_commerce.Store.Journal.{Db}
use agent_commerce.Store.Journal.Reserve.{Reservation, reserve_payment_attempt}
use agent_commerce.Store.Journal.Writes.{
  AttemptUpdate, ResolveRequest, StepKind, record_transaction_step, resolve_payment_attempt,
  update_payment_attempt,
}

pub data Call : Type 0 where
  reserves : String → Reservation → Call
  updates : AttemptUpdate → Call
  resolves : ResolveRequest → Call
  steps : String → IsoTimestamp → StepKind → Call

unfoldable pub apply : ℕ → Call → Db → Db
apply now (reserves id r) db = (reserve_payment_attempt now id r db).0
apply now (updates u) db = (update_payment_attempt now u db).0
apply now (resolves q) db = (resolve_payment_attempt now q db).0
apply now (steps id at kind) db = (record_transaction_step id at kind db).0

unfoldable pub run : List (ℕ × Call) → Db → Db
run [] db = db
run ((now, c) ∷ cs) db = run cs (apply now c db)
