-- ===== src/Store/Journal/Once.antt =====
-- The replay keys of src/storage/receipts/store.ts under a history of writes.
use agent_commerce.Store.Journal.Replay.{is_reserved}
use agent_commerce.Prelude.{
  List, String, [], arith, false, refl, some, true, ℕ, ◌∷◌, ◌≡◌, ◌&&◌, Bool, Option-cases, inl, inr,
  is_some, not, ◌++◌, Bool-cases, eq_refl, subst, sym,
}
use agent_commerce.Sql.{any_row, find_row, update_rows}
use agent_commerce.Store.Journal.Calls.{Call, apply, reserves, resolves, run, steps, updates}
use agent_commerce.Store.Journal.{AttemptRow, Db, has_attempt_id, has_replay_key}
use agent_commerce.Store.Journal.Reserve.{
  Reservation, insert_attempt, is_reclaimable, reserve_payment_attempt, new_attempt,
  open_transaction, reclaim_attempt, reclaimed,
}
use agent_commerce.Store.Journal.Writes.{
  is_resolvable, is_updatable, record_transaction_step, resolve_payment_attempt, resolved,
  update_attempt, update_payment_attempt, updated,
}

-- Every write keeps each replay key in the table.
abbrev pub IsKnown : String → List AttemptRow → Type 0
IsKnown key attempts = is_some (find_row (has_replay_key key) attempts) ≡ true

update_rows-IsKnown :
    (key : String) (p : AttemptRow → Bool) (f : AttemptRow → AttemptRow) (t : List AttemptRow)
    → ((a : AttemptRow) → p a ≡ true → (f a).replay_key ≡ a.replay_key)
    → IsKnown key t
    → IsKnown key (update_rows p f t)
update_rows-IsKnown key p f [] same k = k
update_rows-IsKnown key p f (x ∷ t) same k =
    ground (arith, same x, update_rows-IsKnown key p f t same)

append-IsKnown :
    (key : String) (t : List AttemptRow) (a : AttemptRow)
    → IsKnown key t
    → IsKnown key (t ++ a ∷ [])
append-IsKnown key [] a k = cc
append-IsKnown key (x ∷ t) a k = ground (arith, append-IsKnown key t a)

open-IsKnown :
    (key : String) (r : Reservation) (a : AttemptRow) (before db : Db)
    → IsKnown key before.attempts
    → IsKnown key db.attempts
    → IsKnown key (open_transaction r a before db).0.attempts
unfolding open_transaction
open-IsKnown key r a before db k k' = ground arith

insert-IsKnown :
    (key : String) (now : ℕ) (id : String) (r : Reservation) (db : Db)
    → IsKnown key db.attempts
    → IsKnown key (insert_attempt now id r db).0.attempts
unfolding insert_attempt
insert-IsKnown key now id r db k = ground (
  arith,
  open-IsKnown key r (new_attempt now id r) db
      (record db { attempts = db.attempts ++ new_attempt now id r ∷ [] }) k
      (append-IsKnown key db.attempts (new_attempt now id r) k),
)

reclaim-IsKnown :
    (key : String) (now : ℕ) (id : String) (r : Reservation) (a : AttemptRow) (db : Db)
    → IsKnown key db.attempts
    → IsKnown key (reclaim_attempt now id r a db).0.attempts
unfolding reclaim_attempt
reclaim-IsKnown key now id r a db k =
    elim (Bool-cases (any_row (λ b. has_attempt_id id b && not (is_reclaimable r b)) db.attempts)) [
      | inl taken ↦ rw taken k
      | inr free ↦ rw free (
          open-IsKnown key r (reclaimed now id r a) db _ k (
            update_rows-IsKnown key (is_reclaimable r) (reclaimed now id r) db.attempts
              (λ b _. refl) k))
    ]

reserve-IsKnown :
    (key : String) (now : ℕ) (id : String) (r : Reservation) (db : Db)
    → IsKnown key db.attempts
    → IsKnown key (reserve_payment_attempt now id r db).0.attempts
unfolding reserve_payment_attempt
reserve-IsKnown key now id r db k = elim (Bool-cases r.reclaim_rejected) [
  | inr plain ↦ rw plain (insert-IsKnown key now id r db k)
  | inl reclaim ↦ elim (Option-cases (find_row (is_reclaimable r) db.attempts)) [
    | inl nothing ↦
        rw (reclaim, reserve_payment_attempt) (rw nothing (insert-IsKnown key now id r db k))
    | inr (a, found) ↦
        rw (reclaim, reserve_payment_attempt) (rw found (reclaim-IsKnown key now id r a db k))
  ]
]

apply-IsKnown :
    (key : String) (now : ℕ) (c : Call) (db : Db)
    → IsKnown key db.attempts
    → IsKnown key (apply now c db).attempts
unfolding apply update_payment_attempt update_attempt resolve_payment_attempt
    record_transaction_step
apply-IsKnown key now (reserves id r) db k = reserve-IsKnown key now id r db k
apply-IsKnown key now (updates u) db k =
    update_rows-IsKnown key (is_updatable u.replay_key) (updated now u) db.attempts (λ b _. refl) k
apply-IsKnown key now (resolves q) db k =
    ground (
      arith,
      update_rows-IsKnown key (is_resolvable q) (resolved now q) db.attempts (λ b _. refl) k,
    )
apply-IsKnown key now (steps id at kind) db k = ground arith

run-IsKnown :
    (key : String) (cs : List (ℕ × Call)) (db : Db)
    → IsKnown key db.attempts
    → IsKnown key (run cs db).attempts
unfolding run
run-IsKnown key [] db k = k
run-IsKnown key ((now, c) ∷ cs) db k =
    run-IsKnown key cs (apply now c db) (apply-IsKnown key now c db k)

append-IsKnown_new : (t : List AttemptRow) (a : AttemptRow) → IsKnown a.replay_key (t ++ a ∷ [])
append-IsKnown_new [] a = ground (arith, eq_refl a.replay_key)
append-IsKnown_new (x ∷ t) a = ground (arith, append-IsKnown_new t a)

find-IsKnown :
    (r : Reservation) (t : List AttemptRow) (a : AttemptRow)
    → find_row (is_reclaimable r) t ≡ some a
    → IsKnown r.replay_key t
find-IsKnown r [] a e = cc
find-IsKnown r (x ∷ t) a e = ground (arith, find-IsKnown r t a)

open_transaction-IsKnown :
    (key : String) (r : Reservation) (a : AttemptRow) (before db : Db)
    → IsKnown key db.attempts
    → is_reserved (open_transaction r a before db).1 ≡ true
    → IsKnown key (open_transaction r a before db).0.attempts
unfolding open_transaction
open_transaction-IsKnown key r a before db k e = ground arith

insert_attempt-IsKnown :
    (now : ℕ) (id : String) (r : Reservation) (db : Db)
    → is_reserved (insert_attempt now id r db).1 ≡ true
    → IsKnown r.replay_key (insert_attempt now id r db).0.attempts
unfolding insert_attempt
insert_attempt-IsKnown now id r db e = ground (
  arith,
  open_transaction-IsKnown r.replay_key r (new_attempt now id r) db
      (record db { attempts = db.attempts ++ new_attempt now id r ∷ [] })
      (append-IsKnown_new db.attempts (new_attempt now id r)),
)

reserved-IsKnown :
    (now : ℕ) (id : String) (r : Reservation) (db : Db)
    → is_reserved (reserve_payment_attempt now id r db).1 ≡ true
    → IsKnown r.replay_key (reserve_payment_attempt now id r db).0.attempts
unfolding reserve_payment_attempt
reserved-IsKnown now id r db e = elim (Bool-cases r.reclaim_rejected) [
  | inr plain ↦ rw plain (insert_attempt-IsKnown now id r db (rw plain at e))
  | inl reclaim ↦ elim (Option-cases (find_row (is_reclaimable r) db.attempts)) [
    | inl nothing ↦
        rw (reclaim, reserve_payment_attempt)
          (rw nothing (insert_attempt-IsKnown now id r db (ground arith)))
    | inr (a, found) ↦
        rw (reclaim, reserve_payment_attempt)
          (rw found
            (reclaim-IsKnown r.replay_key now id r a db (find-IsKnown r db.attempts a found)))
  ]
]

refused :
    (now : ℕ) (id : String) (r : Reservation) (db : Db)
    → r.reclaim_rejected ≡ false
    → IsKnown r.replay_key db.attempts
    → ((reserve_payment_attempt now id r db).0 ≡ db)
      × (is_reserved (reserve_payment_attempt now id r db).1 ≡ false)
unfolding reserve_payment_attempt insert_attempt
refused now id r db plain known = ground arith

-- Once a replay key is reserved, no rail without reuse reserves it again, whatever writes follow and
-- whatever becomes of the attempt: every later reservation of the key is refused and writes nothing.
pub reserved_once :
    (now later : ℕ) (id id' : String) (r r' : Reservation) (cs : List (ℕ × Call)) (db : Db)
    → is_reserved (reserve_payment_attempt now id r db).1 ≡ true
    → r'.replay_key ≡ r.replay_key
    → r'.reclaim_rejected ≡ false
    → let db' = run cs (reserve_payment_attempt now id r db).0 in
      ((reserve_payment_attempt later id' r' db').0 ≡ db')
      × (is_reserved (reserve_payment_attempt later id' r' db').1 ≡ false)
reserved_once now later id id' r r' cs db e same plain =
    let db0 = (reserve_payment_attempt now id r db).0 in
    let known = run-IsKnown r.replay_key cs db0 (reserved-IsKnown now id r db e) in
    refused later id' r' (run cs db0) plain
      (subst (λ k. IsKnown k (run cs db0).attempts) (sym same) known)
