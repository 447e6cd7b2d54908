-- ===== src/Store/PendingTasks/Tests.antt =====
-- Runs of the pending-task methods, and the theorems at concrete tables.
use agent_commerce.Store.PendingTasks.{
  Call, PendingTask, TaskRow, get_pending_task, is_live, is_reserved_field, new_task, put, puts,
  run, sweeps, take_pending_task, takes, without_reserved_fields,
}
use agent_commerce.Store.PendingTasks.Capacity.{put_capacity}
use agent_commerce.Store.PendingTasks.Taken.{put-get, taken_once}
use agent_commerce.Core.Time.{instant}
use agent_commerce.Json.{end, field, null, string}
use agent_commerce.Sql.{count_rows}
use agent_commerce.Prelude.{
  List, String, [], arith, none, refl, some, true, ℕ, ◌<◌, ◌↔◌, ◌∷◌, ◌≡◌, ◌≤◌,
}

abbrev task : String → PendingTask
task id = record {
  id = id;
  protocol = "a2a";
  resource_id = "weather";
  input = field "_payment" null (field "city" (string "Oslo") end);
  adapter_data = none;
  expires_at = instant 100;
}

abbrev one_task : List TaskRow
one_task = new_task 5 (task "t1") 100 ∷ []

stripped_input : without_reserved_fields (task "t1").input ≡ field "city" (string "Oslo") end
unfolding without_reserved_fields is_reserved_field
stripped_input = refl

abbrev task_calls : List (ℕ × Call)
task_calls = (7, puts (task "t2") 10 100) ∷ (8, sweeps) ∷ (9, takes "t2") ∷ []

put_capacity_example :
    let (t', stored) = put 6 (task "t2") 1 100 one_task in
    ((stored ≡ true) ↔ (count_rows (is_live 6) one_task < 1))
    × (stored ≡ true → count_rows (is_live 6) t' ≤ 1)
put_capacity_example = put_capacity 6 (task "t2") 1 100 one_task

taken_once_example :
    let t' = run task_calls (take_pending_task 6 "t1" one_task).0 in
    (get_pending_task 10 "t1" t' ≡ none) × ((take_pending_task 10 "t1" t').1 ≡ none)
taken_once_example = taken_once 6 10 "t1" task_calls one_task (refl, (refl, (refl, tt)))

put-get_example :
    get_pending_task 50 "t2" (put 6 (task "t2") 5 100 one_task).0
    ≡ some (new_task 6 (task "t2") 100)
unfolding put
put-get_example = put-get 6 50 (task "t2") 5 100 one_task refl (omega arith)
