-- ===== src/Store/Journal/Final.antt =====
-- The rows with a resolution under the writes of src/storage/receipts/store.ts.
use agent_commerce.Prelude.{String, arith, is_some, refl, some, true, ℕ, ◌≡◌}
use agent_commerce.Sql.{find_row}
use agent_commerce.Sql.Laws.{find_row-update_rows}
use agent_commerce.Store.Journal.{AttemptRow, Db, has_attempt_id, refresh_states}
use agent_commerce.Store.Journal.Writes.{
  AttemptUpdate, ResolveRequest, is_resolvable, is_updatable, resolve_payment_attempt, resolved,
  update_attempt, update_payment_attempt, updated,
}

pub resolve_payment_attempt-resolved :
    (now : ℕ) (q : ResolveRequest) (db : Db) (id : String) (a : AttemptRow)
    → find_row (has_attempt_id id) db.attempts ≡ some a
    → is_some a.resolution_json ≡ true
    → find_row (has_attempt_id id) (resolve_payment_attempt now q db).0.attempts ≡ some a
unfolding resolve_payment_attempt refresh_states
resolve_payment_attempt-resolved now q db id a found done =
    let resolved_row =
      find_row-update_rows (has_attempt_id id) (is_resolvable q) (resolved now q) db.attempts
        (λ b. refl) in
    ground arith

-- Once an attempt has a resolution, neither `updatePaymentAttempt` nor `resolvePaymentAttempt` changes
-- its row, whatever they are asked to write.
pub resolution_final :
    (now : ℕ) (u : AttemptUpdate) (q : ResolveRequest) (db : Db) (id : String) (a : AttemptRow)
    → find_row (has_attempt_id id) db.attempts ≡ some a
    → is_some a.resolution_json ≡ true
    → (find_row (has_attempt_id id) (update_payment_attempt now u db).0.attempts ≡ some a)
      × (find_row (has_attempt_id id) (resolve_payment_attempt now q db).0.attempts ≡ some a)
unfolding update_payment_attempt update_attempt refresh_states
resolution_final now u q db id a found done =
    let changed =
      find_row-update_rows (has_attempt_id id) (is_updatable u.replay_key) (updated now u)
        db.attempts (λ b. refl) in
    (ground arith, resolve_payment_attempt-resolved now q db id a found done)
