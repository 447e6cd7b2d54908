-- ===== src/Store/Journal/Replay.antt =====
-- The answers of `reservePaymentAttempt` of src/storage/receipts/store.ts.
use agent_commerce.Prelude.{
  List, String, [], arith, eq_iff, false, if◌then◌else◌, none, refl, some, true, ℕ, ◌↔◌, ◌∷◌, ◌≡◌,
  ◌&&◌, ◌==◌, ◌⊎◌, Bool, Option-cases, inl, inr, is_some, not, ◌++◌, Option,
}
use agent_commerce.Sql.{any_row, find_row}
use agent_commerce.Sql.Laws.{Apart, find_row-match, find_row-key}
use agent_commerce.Core.Attempt.{AttemptStatus, rejected, status_eq}
use agent_commerce.Store.Journal.{
  AttemptRow, Db, find_by_replay_key, has_attempt_id, has_replay_key, has_transaction_id,
}
use agent_commerce.Store.Journal.Reserve.{
  NewTransaction, Reservation, insert_attempt, is_reclaimable, payment_replayed,
  reserve_payment_attempt, attempt, Reserved, new_attempt, open_transaction, reclaim_attempt,
  reclaimed,
}
use agent_commerce.Store.Journal.Unique.{IsUnique, clash}

-- The reservation may replace the attempt that has its replay key.
abbrev pub MayReclaim : Reservation → AttemptRow → Type 0
MayReclaim r a = (r.reclaim_rejected ≡ true) × (a.provider ≡ r.provider) × (a.status ≡ rejected)

-- The ids that the generator returns are new.
abbrev pub IsFresh : String → Reservation → Db → Type 0
IsFresh id r db =
    (any_row (has_attempt_id id) db.attempts ≡ false)
    × ((n : NewTransaction)
        → r.transaction ≡ some n
        → any_row (has_transaction_id n.id) db.transactions ≡ false)

status_eq_iff : (s : AttemptStatus) → (status_eq s rejected ≡ true) ↔ (s ≡ rejected)
status_eq_iff s = (ground arith, ground arith)

is_reclaimable_iff :
    (r : Reservation) (a : AttemptRow)
    → (is_reclaimable r a ≡ true)
      ↔ ((a.replay_key ≡ r.replay_key) × (a.provider ≡ r.provider) × (a.status ≡ rejected))
is_reclaimable_iff r a = (
  λ h. ground (arith, eq_iff a.replay_key r.replay_key, eq_iff a.provider r.provider),
  λ h. ground (arith, eq_iff a.replay_key r.replay_key, eq_iff a.provider r.provider),
)

same_key :
    (key : String) (x y : AttemptRow)
    → has_replay_key key x ≡ true
    → has_replay_key key y ≡ true
    → clash x y ≡ true
same_key key x y a b =
    ground
      (arith, eq_iff x.replay_key key, eq_iff y.replay_key key, eq_iff x.replay_key y.replay_key)

-- With unique replay keys, a reclaim concerns the row that the key finds.
reclaimable_found :
    (r : Reservation) (t : List AttemptRow)
    → Apart clash t
    → find_row (is_reclaimable r) t ≡ elim (find_row (has_replay_key r.replay_key) t) [
      | none ↦ none
      | some a ↦ if a.provider == r.provider && status_eq a.status rejected then some a else none
    ]
reclaimable_found r t u =
    find_row-key clash (has_replay_key r.replay_key) (same_key r.replay_key)
      (λ a. a.provider == r.provider && status_eq a.status rejected) t u

-- In tables with unique attempts, a reservation with a new attempt id whose replay key is taken, by
-- an attempt that it may not reclaim, writes nothing; it is refused as a replay that names the
-- status of that attempt.
pub reserve_replayed :
    (now : ℕ) (id : String) (r : Reservation) (db : Db) (a : AttemptRow)
    → IsUnique db
    → any_row (has_attempt_id id) db.attempts ≡ false
    → find_by_replay_key r.replay_key db ≡ some a
    → ¬ MayReclaim r a
    → reserve_payment_attempt now id r db ≡ (db, payment_replayed (some a.status))
unfolding reserve_payment_attempt insert_attempt find_by_replay_key
reserve_replayed now id r db a u fresh e no_claim = ground (
  arith,
  reclaimable_found r db.attempts u,
  find_row-match (has_replay_key r.replay_key) db.attempts a e,
  is_reclaimable_iff r a,
  eq_iff a.replay_key r.replay_key,
)

abbrev pub is_reserved : Reserved → Bool
is_reserved (attempt row) = true
is_reserved _ = false

any_row-fresh :
    (id : String) (c : AttemptRow → Bool) (t : List AttemptRow)
    → any_row (has_attempt_id id) t ≡ false
    → any_row (λ b. has_attempt_id id b && c b) t ≡ false
any_row-fresh id c [] h = refl
any_row-fresh id c (x ∷ t) h = ground (arith, any_row-fresh id c t)

open_transaction-fresh :
    (r : Reservation) (a : AttemptRow) (before db : Db)
    → ((n : NewTransaction)
        → r.transaction ≡ some n
        → any_row (has_transaction_id n.id) db.transactions ≡ false)
    → is_reserved (open_transaction r a before db).1 ≡ true
unfolding open_transaction
open_transaction-fresh r a before db h = elim (Option-cases r.transaction) [
  | inl none_asked ↦ ground arith
  | inr (n, e) ↦ ground (arith, h n e)
]

insert_attempt-fresh :
    (now : ℕ) (id : String) (r : Reservation) (db : Db)
    → IsFresh id r db
    → is_reserved (insert_attempt now id r db).1
      ≡ not (is_some (find_by_replay_key r.replay_key db))
unfolding insert_attempt find_by_replay_key
insert_attempt-fresh now id r db (fresh, h) = ground (
  arith,
  open_transaction-fresh r (new_attempt now id r) db
      (record db { attempts = db.attempts ++ new_attempt now id r ∷ [] }) h,
)

reclaim_attempt-fresh :
    (now : ℕ) (id : String) (r : Reservation) (a : AttemptRow) (db : Db)
    → IsFresh id r db
    → is_reserved (reclaim_attempt now id r a db).1 ≡ true
unfolding reclaim_attempt
reclaim_attempt-fresh now id r a db (fresh, h) =
    rw (any_row-fresh id (λ b. not (is_reclaimable r b)) db.attempts fresh)
      (open_transaction-fresh r (reclaimed now id r a) db _ h)

reserved_by_key :
    (now : ℕ) (id : String) (r : Reservation) (db : Db) (o : Option AttemptRow)
    → IsUnique db
    → IsFresh id r db
    → find_by_replay_key r.replay_key db ≡ o
    → is_reserved (reserve_payment_attempt now id r db).1 ≡ elim o [
      | none ↦ true
      | some a ↦ r.reclaim_rejected && (a.provider == r.provider && status_eq a.status rejected)
    ]
unfolding reserve_payment_attempt find_by_replay_key
reserved_by_key now id r db none u fresh e =
    ground (arith, reclaimable_found r db.attempts u, insert_attempt-fresh now id r db fresh)
reserved_by_key now id r db (some a) u fresh e = ground (
  arith,
  reclaimable_found r db.attempts u,
  insert_attempt-fresh now id r db fresh,
  reclaim_attempt-fresh now id r a db fresh,
)

-- In tables with unique attempts, and with new ids, a reservation is made exactly when its replay
-- key is free, or is that of an attempt that it may reclaim: rejected, by the same provider, on a
-- rail that allows it.
pub reserved_iff :
    (now : ℕ) (id : String) (r : Reservation) (db : Db)
    → IsUnique db
    → IsFresh id r db
    → (is_reserved (reserve_payment_attempt now id r db).1 ≡ true) ↔ (
        (find_by_replay_key r.replay_key db ≡ none)
        ⊎ ((a : AttemptRow) × (find_by_replay_key r.replay_key db ≡ some a) × MayReclaim r a))
reserved_iff now id r db u fresh = elim (Option-cases (find_by_replay_key r.replay_key db)) [
  | inl free ↦ let d = reserved_by_key now id r db none u fresh free in ((λ _. inl free), λ _. d)
  | inr (a, e) ↦
      let d = reserved_by_key now id r db (some a) u fresh e in
      (ground (arith, eq_iff a.provider r.provider), ground (arith, eq_iff a.provider r.provider))
]
