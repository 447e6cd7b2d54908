-- ===== src/Store/PendingTasks/Taken.antt =====
-- One task of src/storage/receipts/pending-tasks.ts, from `putPendingTask` to `takePendingTask`.
use agent_commerce.Prelude.{
  All, All-append, Bool, Bool-cases, List, String, [], arith, eq_refl, false, inl, inr, leb, none,
  refl, some, true, ℕ, ◌<◌, ◌==◌, ◌∷◌, ◌≡◌, ◌≤◌,
}
use agent_commerce.Sql.{count_rows, delete_rows, find_row}
use agent_commerce.Sql.Laws.{All-delete_rows}
use agent_commerce.Store.PendingTasks.{
  Call, PendingTask, TaskRow, apply, get_pending_task, has_id, is_available, is_live, is_stale,
  new_task, put, puts, run, sweep_expired, sweeps, take_pending_task, takes, upsert,
}

abbrev pub IsGone : String → List TaskRow → Type 0
IsGone id t = All (λ row. has_id id row ≡ false) t

take-IsGone : (now : ℕ) (id : String) (t : List TaskRow) → IsGone id (take_pending_task now id t).0
unfolding take_pending_task
take-IsGone now id [] = tt
take-IsGone now id (x ∷ t) = ground (arith, take-IsGone now id t)

-- A call that stores a task under the id.
abbrev pub stores : String → Call → Bool
stores id (puts task max_tasks expires_at) = task.id == id
stores id (takes other) = false
stores id sweeps = false

put-IsGone :
    (now : ℕ) (task : PendingTask) (max_tasks expires_at : ℕ) (id : String) (t : List TaskRow)
    → IsGone id t
    → (task.id == id) ≡ false
    → IsGone id (put now task max_tasks expires_at t).0
unfolding put upsert
put-IsGone now task max_tasks expires_at id t h k =
    let t' = sweep_expired now t in
    let row = new_task now task expires_at in
    let h' = All-delete_rows (λ r. has_id id r ≡ false) (is_stale now) t h in
    elim (Bool-cases (leb max_tasks (count_rows (is_live now) t'))) [
      | inl full ↦ rw full h'
      | inr room ↦ rw room (
          All-append (λ r. has_id id r ≡ false) (delete_rows (has_id task.id) t') (row ∷ [])
            (All-delete_rows (λ r. has_id id r ≡ false) (has_id task.id) t' h') (k, tt))
    ]

apply-IsGone :
    (now : ℕ) (c : Call) (id : String) (t : List TaskRow)
    → IsGone id t
    → stores id c ≡ false
    → IsGone id (apply now c t)
unfolding apply take_pending_task
apply-IsGone now (puts task max_tasks expires_at) id t h k =
    put-IsGone now task max_tasks expires_at id t h k
apply-IsGone now (takes other) id t h k =
    All-delete_rows (λ r. has_id id r ≡ false) (is_available now other) (sweep_expired now t)
      (All-delete_rows (λ r. has_id id r ≡ false) (is_stale now) t h)
apply-IsGone now sweeps id t h k = All-delete_rows (λ r. has_id id r ≡ false) (is_stale now) t h

abbrev pub NotStored : String → List (ℕ × Call) → Type 0
NotStored id cs = All (λ (x : ℕ × Call). stores id x.1 ≡ false) cs

run-IsGone :
    (cs : List (ℕ × Call)) (id : String) (t : List TaskRow)
    → IsGone id t
    → NotStored id cs
    → IsGone id (run cs t)
unfolding run
run-IsGone [] id t h k = h
run-IsGone ((now, c) ∷ cs) id t h (k, ks) =
    run-IsGone cs id (apply now c t) (apply-IsGone now c id t h k) ks

find_row-IsGone :
    (now : ℕ) (id : String) (t : List TaskRow)
    → IsGone id t
    → find_row (is_available now id) t ≡ none
find_row-IsGone now id [] h = refl
find_row-IsGone now id (x ∷ t) (hx, h) = ground (arith, find_row-IsGone now id t h)

-- After `takePendingTask`, neither `getPendingTask` nor `takePendingTask` finds a task under its id
-- at any time, after any calls of which none stores a task under that id.
pub taken_once :
    (now later : ℕ) (id : String) (cs : List (ℕ × Call)) (t : List TaskRow)
    → NotStored id cs
    → (get_pending_task later id (run cs (take_pending_task now id t).0) ≡ none)
      × ((take_pending_task later id (run cs (take_pending_task now id t).0)).1 ≡ none)
unfolding get_pending_task take_pending_task
taken_once now later id cs t k =
    let gone = run-IsGone cs id (take_pending_task now id t).0 (take-IsGone now id t) k in
    (
      find_row-IsGone later id _ gone,
      find_row-IsGone later id _
          (All-delete_rows (λ r. has_id id r ≡ false) (is_stale later) _ gone),
    )

find-sweep :
    (now later : ℕ) (id : String) (t : List TaskRow)
    → now ≤ later
    → find_row (is_available later id) (sweep_expired now t) ≡ find_row (is_available later id) t
unfolding sweep_expired
find-sweep now later id [] h = refl
find-sweep now later id (x ∷ t) h = ground (arith, find-sweep now later id t h)

-- `takePendingTask` returns what `getPendingTask` would have returned.
pub take-get :
    (now : ℕ) (id : String) (t : List TaskRow)
    → (take_pending_task now id t).1 ≡ get_pending_task now id t
unfolding get_pending_task take_pending_task
take-get now id t = find-sweep now now id t (omega arith)

find-upsert :
    (now : ℕ) (row : TaskRow) (t : List TaskRow)
    → now < row.expires_at
    → find_row (is_available now row.id) (upsert row t) ≡ some row
unfolding upsert
find-upsert now row [] h = ground (arith, eq_refl row.id)
find-upsert now row (x ∷ t) h = ground (arith, find-upsert now row t h)

-- A task that was stored is found until its expiry as it was put, without its reserved fields,
-- whatever task had the id before.
pub put-get :
    (now later : ℕ) (task : PendingTask) (max_tasks expires_at : ℕ) (t : List TaskRow)
    → (put now task max_tasks expires_at t).1 ≡ true
    → later < expires_at
    → get_pending_task later task.id (put now task max_tasks expires_at t).0
      ≡ some (new_task now task expires_at)
unfolding put get_pending_task
put-get now later task max_tasks expires_at t e h =
    ground (arith, find-upsert later (new_task now task expires_at) (sweep_expired now t) h)
