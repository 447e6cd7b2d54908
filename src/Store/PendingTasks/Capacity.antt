-- ===== src/Store/PendingTasks/Capacity.antt =====
-- The cap on tasks that wait, and what of a purchase's input is stored.
use agent_commerce.Prelude.{
  All, Bool, Bool-cases, List, [], arith, eq_iff, inl, inr, true, ℕ, ◌++◌, ◌+◌, ◌<◌, ◌↔◌, ◌∷◌, ◌≡◌,
  ◌≢◌, ◌≤◌, All-append, leb, refl,
}
use agent_commerce.Json.{Fields, end, field}
use agent_commerce.Sql.{count_rows, delete_rows}
use agent_commerce.Sql.Laws.{All-delete_rows}
use agent_commerce.Store.PendingTasks.{
  Call, PendingTask, TaskRow, is_live, is_reserved_field, put, run, without_reserved_fields, apply,
  has_id, is_available, is_stale, new_task, puts, sweep_expired, sweeps, take_pending_task, takes,
  upsert,
}

count_rows-delete_rows-le :
    (p q : TaskRow → Bool) (t : List TaskRow) → count_rows p (delete_rows q t) ≤ count_rows p t
count_rows-delete_rows-le p q [] = omega arith
count_rows-delete_rows-le p q (x ∷ t) = ground (arith, count_rows-delete_rows-le p q t)

count_rows-append :
    (p : TaskRow → Bool) (t : List TaskRow) (r : TaskRow)
    → count_rows p (t ++ r ∷ []) ≤ count_rows p t + 1
count_rows-append p [] r = ground arith
count_rows-append p (x ∷ t) r = ground (arith, count_rows-append p t r)

count-sweep :
    (now : ℕ) (t : List TaskRow)
    → count_rows (is_live now) (sweep_expired now t) ≡ count_rows (is_live now) t
unfolding sweep_expired
count-sweep now [] = refl
count-sweep now (x ∷ t) = ground (arith, count-sweep now t)

-- `putPendingTask` stores a task exactly when fewer than `maxTasks` unexpired tasks wait, and then at
-- most `maxTasks` wait.
pub put_capacity :
    (now : ℕ) (task : PendingTask) (max_tasks expires_at : ℕ) (t : List TaskRow)
    → let (t', stored) = put now task max_tasks expires_at t in
      ((stored ≡ true) ↔ (count_rows (is_live now) t < max_tasks))
      × (stored ≡ true → count_rows (is_live now) t' ≤ max_tasks)
unfolding put upsert
put_capacity now task max_tasks expires_at t =
    let t' = sweep_expired now t in
    let row = new_task now task expires_at in
    ground (
      arith,
      count-sweep now t,
      count_rows-append (is_live now) (delete_rows (has_id task.id) t') row,
      count_rows-delete_rows-le (is_live now) (has_id task.id) t',
    )

-- No field that carries a payment proof or an authorization.
abbrev pub HasNoReserved : Fields → Type 0
HasNoReserved end = Unit
HasNoReserved (field k v fs) = (k ≢ "_payment") × (k ≢ "_authorization") × HasNoReserved fs

without_reserved_fields-HasNoReserved : (fs : Fields) → HasNoReserved (without_reserved_fields fs)
unfolding without_reserved_fields is_reserved_field
without_reserved_fields-HasNoReserved end = tt
without_reserved_fields-HasNoReserved (field k v fs) = ground (
  arith,
  eq_iff k "_payment",
  eq_iff k "_authorization",
  without_reserved_fields-HasNoReserved fs,
)

abbrev IsStripped : TaskRow → Type 0
IsStripped row = HasNoReserved row.input_json

put-HasNoReserved :
    (now : ℕ) (task : PendingTask) (max_tasks expires_at : ℕ) (t : List TaskRow)
    → All IsStripped t
    → All IsStripped (put now task max_tasks expires_at t).0
unfolding put upsert
put-HasNoReserved now task max_tasks expires_at t h =
    let t' = sweep_expired now t in
    let row = new_task now task expires_at in
    let h' = All-delete_rows IsStripped (is_stale now) t h in
    elim (Bool-cases (leb max_tasks (count_rows (is_live now) t'))) [
      | inl full ↦ rw full h'
      | inr room ↦ rw room (
          All-append IsStripped (delete_rows (has_id task.id) t') (row ∷ [])
            (All-delete_rows IsStripped (has_id task.id) t' h')
            (without_reserved_fields-HasNoReserved task.input, tt))
    ]

apply-HasNoReserved :
    (now : ℕ) (c : Call) (t : List TaskRow) → All IsStripped t → All IsStripped (apply now c t)
unfolding apply take_pending_task
apply-HasNoReserved now (puts task max_tasks expires_at) t h =
    put-HasNoReserved now task max_tasks expires_at t h
apply-HasNoReserved now (takes id) t h =
    All-delete_rows IsStripped (is_available now id) (sweep_expired now t)
      (All-delete_rows IsStripped (is_stale now) t h)
apply-HasNoReserved now sweeps t h = All-delete_rows IsStripped (is_stale now) t h

-- No stored input ever holds a top-level `_payment` or `_authorization` field, whatever calls are
-- made on a table without one.
pub run-HasNoReserved :
    (cs : List (ℕ × Call)) (t : List TaskRow)
    → All (λ row. HasNoReserved row.input_json) t
    → All (λ row. HasNoReserved row.input_json) (run cs t)
unfolding run
run-HasNoReserved [] t h = h
run-HasNoReserved ((now, c) ∷ cs) t h =
    run-HasNoReserved cs (apply now c t) (apply-HasNoReserved now c t h)
