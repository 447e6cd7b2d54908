-- ===== src/Store/PendingTasks.antt =====
-- src/storage/receipts/pending-tasks.ts: purchases that wait for a payment message.
mod Tests
pub mod Capacity
pub mod Taken
use agent_commerce.Prelude.{
  Bool, List, Option, String, [], false, if◌then◌else◌, leb, ltb, true, ℕ, ◌&&◌, ◌++◌, ◌==◌, ◌||◌,
  ◌∷◌,
}
use agent_commerce.Json.{Fields, Json, end, field}
use agent_commerce.Sql.{count_rows, delete_rows, find_row}
use agent_commerce.Core.Errors.{Result, ok, err, storage_error, ◌>>=◌}
use agent_commerce.Core.Time.{IsoTimestamp}
use agent_commerce.Store.Params.{stored_iso}

pub record PendingTask : Type 0 where
  pub id : String
  pub protocol : String
  pub resource_id : String
  pub input : Fields
  pub adapter_data : Option Json
  pub expires_at : IsoTimestamp

pub record TaskRow : Type 0 where
  pub id : String
  pub protocol : String
  pub resource_id : String
  pub input_json : Fields
  pub adapter_data_json : Option Json
  pub created_at : ℕ
  pub expires_at : ℕ

-- RESERVED_INPUT_FIELDS of src/core/domain/wire.ts
unfoldable pub is_reserved_field : String → Bool
is_reserved_field key = key == "_payment" || key == "_authorization"

unfoldable pub without_reserved_fields : Fields → Fields
without_reserved_fields end = end
without_reserved_fields (field k v fs) =
    let rest = without_reserved_fields fs in if is_reserved_field k then rest else field k v rest

-- `expires_at <= ?` and `expires_at > ?`
abbrev pub is_stale : ℕ → TaskRow → Bool
is_stale now row = leb row.expires_at now

abbrev pub is_live : ℕ → TaskRow → Bool
is_live now row = ltb now row.expires_at

abbrev pub has_id : String → TaskRow → Bool
has_id id row = row.id == id

-- `sweepExpired`, also run by `init` of a writable store
unfoldable pub sweep_expired : ℕ → List TaskRow → List TaskRow
sweep_expired now t = delete_rows (is_stale now) t

abbrev pub new_task : ℕ → PendingTask → ℕ → TaskRow
new_task now task expires_at = record {
  id = task.id;
  protocol = task.protocol;
  resource_id = task.resource_id;
  input_json = without_reserved_fields task.input;
  adapter_data_json = task.adapter_data;
  created_at = now;
  expires_at = expires_at;
}

-- `INSERT OR REPLACE`
unfoldable pub upsert : TaskRow → List TaskRow → List TaskRow
upsert row t = delete_rows (has_id row.id) t ++ row ∷ []

-- The transaction `put`
unfoldable pub put : ℕ → PendingTask → ℕ → ℕ → List TaskRow → List TaskRow × Bool
unfolding sweep_expired upsert
put now task max_tasks expires_at t =
    let t' = sweep_expired now t in
    if leb max_tasks (count_rows (is_live now) t')
    then (t', false)
    else (upsert (new_task now task expires_at) t', true)

-- `options.maxTasks`: a non-negative integer, or any other number
pub data MaxTasks : Type 0 where
  at_most : ℕ → MaxTasks
  not_a_count : MaxTasks

-- `putPendingTask`
unfoldable pub put_pending_task :
    ℕ → PendingTask → MaxTasks → List TaskRow → Result (List TaskRow × Bool)
unfolding put stored_iso
put_pending_task now task not_a_count t = err storage_error
put_pending_task now task (at_most max_tasks) t = do
  expires_at ← stored_iso task.expires_at
  ok (put now task max_tasks expires_at t)

abbrev pub is_available : ℕ → String → TaskRow → Bool
is_available now id row = has_id id row && is_live now row

-- `getPendingTask`
unfoldable pub get_pending_task : ℕ → String → List TaskRow → Option TaskRow
get_pending_task now id t = find_row (is_available now id) t

-- `takePendingTask`: `DELETE … RETURNING *` after the sweep
unfoldable pub take_pending_task : ℕ → String → List TaskRow → List TaskRow × Option TaskRow
unfolding sweep_expired
take_pending_task now id t =
    let t' = sweep_expired now t in
    (delete_rows (is_available now id) t', find_row (is_available now id) t')

pub data Call : Type 0 where
  puts : PendingTask → ℕ → ℕ → Call
  takes : String → Call
  sweeps : Call

unfoldable pub apply : ℕ → Call → List TaskRow → List TaskRow
apply now (puts task max_tasks expires_at) t = (put now task max_tasks expires_at t).0
apply now (takes id) t = (take_pending_task now id t).0
apply now sweeps t = sweep_expired now t

unfoldable pub run : List (ℕ × Call) → List TaskRow → List TaskRow
run [] t = t
run ((now, c) ∷ cs) t = run cs (apply now c t)
