-- ===== src/Store/Journal/Unique.antt =====
-- The UNIQUE constraints on attempts of src/storage/receipts/store.ts under each write.
use agent_commerce.Prelude.{
  All, All-tt, Bool, Bool-cases, List, Option-cases, String, [], arith, eq_iff, false, inl, inr,
  not, refl, ℕ, ◌&&◌, ◌==◌, ◌||◌, ◌∷◌, ◌≡◌,
}
use agent_commerce.Sql.{any_row, find_row, on_match, update_rows}
use agent_commerce.Sql.Laws.{Apart, Apart-append, Apart-update_rows, any_row-none, find_row-none}
use agent_commerce.Core.Time.{IsoTimestamp}
use agent_commerce.Store.Journal.Calls.{Call, apply, reserves, resolves, run, steps, updates}
use agent_commerce.Store.Journal.{AttemptRow, Db, has_attempt_id, has_replay_key}
use agent_commerce.Store.Journal.Reserve.{
  Reservation, insert_attempt, is_reclaimable, new_attempt, open_transaction, reclaim_attempt,
  reclaimed, reserve_payment_attempt,
}
use agent_commerce.Store.Journal.Writes.{
  AttemptUpdate, ResolveRequest, StepKind, is_resolvable, record_transaction_step,
  resolve_payment_attempt, update_attempt, resolved, update_payment_attempt,
}

abbrev pub clash : AttemptRow → AttemptRow → Bool
clash a b = a.id == b.id || a.replay_key == b.replay_key

-- No two attempts have one id or one replay key.
abbrev pub IsUnique : Db → Type 0
IsUnique db = Apart clash db.attempts

-- An UPDATE that keeps the id and the replay key.
update_rows-Apart :
    (p : AttemptRow → Bool) (f : AttemptRow → AttemptRow) (t : List AttemptRow)
    → ((a : AttemptRow) → (f a).id ≡ a.id)
    → ((a : AttemptRow) → (f a).replay_key ≡ a.replay_key)
    → Apart clash t
    → Apart clash (update_rows p f t)
update_rows-Apart p f t same_id same_key u =
    Apart-update_rows clash p f (λ _. Unit {0})
      (λ a b _ _ c. ground (arith, same_id a, same_id b, same_key a, same_key b)) t (All-tt t) u

All-clash :
    (n : AttemptRow) (t : List AttemptRow)
    → All (λ a. has_attempt_id n.id a ≡ false) t
    → All (λ a. has_replay_key n.replay_key a ≡ false) t
    → All (λ a. clash a n ≡ false) t
All-clash n [] h k = tt
All-clash n (a ∷ t) (ha, h) (ka, k) = (ground arith, All-clash n t h k)

open_transaction-IsUnique :
    (r : Reservation) (a : AttemptRow) (before db : Db)
    → IsUnique before
    → IsUnique db
    → IsUnique (open_transaction r a before db).0
unfolding open_transaction
open_transaction-IsUnique r a before db u v = ground arith

insert_attempt-IsUnique :
    (now : ℕ) (id : String) (r : Reservation) (db : Db)
    → IsUnique db
    → IsUnique (insert_attempt now id r db).0
unfolding insert_attempt
insert_attempt-IsUnique now id r db u =
    elim (Bool-cases (any_row (has_attempt_id id) db.attempts)) [
      | inl taken ↦ rw taken u
      | inr fresh ↦ elim (Option-cases (find_row (has_replay_key r.replay_key) db.attempts)) [
        | inr (a, held) ↦ rw (fresh, insert_attempt) (rw held u)
        | inl free ↦
            rw (fresh, insert_attempt)
              (rw free (
                open_transaction-IsUnique r (new_attempt now id r) db _ u (
                  Apart-append clash (new_attempt now id r) db.attempts
                    (All-clash (new_attempt now id r) db.attempts
                      (any_row-none (has_attempt_id id) db.attempts fresh)
                      (find_row-none (has_replay_key r.replay_key) db.attempts free))
                    u)))
      ]
    ]

-- Rows that the reclaim does not touch do not have the new id.
abbrev IsApartFrom : String → Reservation → AttemptRow → Type 0
IsApartFrom id r b = (has_attempt_id id b && not (is_reclaimable r b)) ≡ false

clash-reclaimed :
    (now : ℕ) (id : String) (r : Reservation) (a b : AttemptRow)
    → IsApartFrom id r a
    → IsApartFrom id r b
    → clash a b ≡ false
    → clash
        (on_match (is_reclaimable r) (reclaimed now id r) a)
        (on_match (is_reclaimable r) (reclaimed now id r) b)
      ≡ false
clash-reclaimed now id r a b ha hb c = ground (
  arith,
  eq_iff a.replay_key r.replay_key,
  eq_iff b.replay_key r.replay_key,
  eq_iff a.replay_key b.replay_key,
  eq_iff a.id id,
  eq_iff id b.id,
  eq_iff b.id id,
)

reclaim_attempt-IsUnique :
    (now : ℕ) (id : String) (r : Reservation) (a : AttemptRow) (db : Db)
    → IsUnique db
    → IsUnique (reclaim_attempt now id r a db).0
unfolding reclaim_attempt
reclaim_attempt-IsUnique now id r a db u =
    let p = λ (b : AttemptRow). has_attempt_id id b && not (is_reclaimable r b) in
    elim (Bool-cases (any_row p db.attempts)) [
      | inl taken ↦ rw taken u
      | inr free ↦ rw free (
          open_transaction-IsUnique r (reclaimed now id r a) db _ u (
            Apart-update_rows clash (is_reclaimable r) (reclaimed now id r) (IsApartFrom id r)
              (λ x y hx hy c. clash-reclaimed now id r x y hx hy c) db.attempts
              (any_row-none p db.attempts free) u))
    ]

pub reserve-IsUnique :
    (now : ℕ) (id : String) (r : Reservation) (db : Db)
    → IsUnique db
    → IsUnique (reserve_payment_attempt now id r db).0
unfolding reserve_payment_attempt
reserve-IsUnique now id r db u = elim (Bool-cases r.reclaim_rejected) [
  | inr plain ↦ rw plain (insert_attempt-IsUnique now id r db u)
  | inl reclaim ↦ elim (Option-cases (find_row (is_reclaimable r) db.attempts)) [
    | inl nothing ↦
        rw (reclaim, reserve_payment_attempt) (rw nothing (insert_attempt-IsUnique now id r db u))
    | inr (a, found) ↦
        rw (reclaim, reserve_payment_attempt) (rw found (reclaim_attempt-IsUnique now id r a db u))
  ]
]

pub update-IsUnique :
    (now : ℕ) (u : AttemptUpdate) (db : Db) → IsUnique db → IsUnique (update_attempt now u db)
unfolding update_attempt
update-IsUnique now u db v = update_rows-Apart _ _ db.attempts (λ a. refl) (λ a. refl) v

pub resolve-IsUnique :
    (now : ℕ) (q : ResolveRequest) (db : Db)
    → IsUnique db
    → IsUnique (resolve_payment_attempt now q db).0
unfolding resolve_payment_attempt
resolve-IsUnique now q db v = elim (Bool-cases (any_row (is_resolvable q) db.attempts)) [
  | inl some_row ↦
      rw some_row
        (update_rows-Apart (is_resolvable q) (resolved now q) db.attempts (λ a. refl) (λ a. refl) v)
  | inr no_row ↦ rw no_row v
]

pub step-IsUnique :
    (id : String) (at : IsoTimestamp) (kind : StepKind) (db : Db)
    → IsUnique db
    → IsUnique (record_transaction_step id at kind db).0
unfolding record_transaction_step
step-IsUnique id at kind db v = ground arith

pub apply-IsUnique : (now : ℕ) (c : Call) (db : Db) → IsUnique db → IsUnique (apply now c db)
unfolding apply update_payment_attempt
apply-IsUnique now (reserves id r) db v = reserve-IsUnique now id r db v
apply-IsUnique now (updates u) db v = update-IsUnique now u db v
apply-IsUnique now (resolves q) db v = resolve-IsUnique now q db v
apply-IsUnique now (steps id at kind) db v = step-IsUnique id at kind db v

-- In tables in which no two attempts share an id or a replay key, any history of writes keeps it
-- so.
pub run-IsUnique : (cs : List (ℕ × Call)) (db : Db) → IsUnique db → IsUnique (run cs db)
unfolding run
run-IsUnique [] db v = v
run-IsUnique ((now, c) ∷ cs) db v = run-IsUnique cs (apply now c db) (apply-IsUnique now c db v)
