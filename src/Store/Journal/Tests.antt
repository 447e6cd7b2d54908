-- ===== src/Store/Journal/Tests.antt =====
-- Runs of the journal, and the theorems at concrete tables.
use agent_commerce.Sql.{find_row}
use agent_commerce.Store.Journal.Final.{resolution_final}
use agent_commerce.Store.Journal.Once.{reserved_once}
use agent_commerce.Store.Journal.{
  payment_status, AttemptRow, Db, find_by_replay_key, reconcile, state_at, has_attempt_id,
}
use agent_commerce.Store.Journal.Reserve.{
  NewTransaction, Reservation, attempt, new_attempt, new_transaction, payment_replayed,
  reserve_payment_attempt,
}
use agent_commerce.Store.Journal.Writes.{
  AttemptUpdate, ResolveRequest, completed, resolve_payment_attempt, settling, resolved,
  update_payment_attempt,
}
use agent_commerce.Store.Journal.Calls.{Call, reserves, resolves, run, steps, updates}
use agent_commerce.Store.Journal.Unique.{IsUnique, run-IsUnique}
use agent_commerce.Store.Journal.Replay.{MayReclaim, is_reserved, reserve_replayed, reserved_iff}
use agent_commerce.Store.Journal.Cached.{IsCached}
use agent_commerce.Store.Journal.Cached.Refresh.{run-IsCached}
use agent_commerce.Store.Journal.Calls
use agent_commerce.Core.Attempt
use agent_commerce.Core.Attempt.{AttemptStatus, rejected, reserved, settled}
use agent_commerce.Core.Transaction
use agent_commerce.Core.Time.{instant}
use agent_commerce.Prelude.{
  Bool, List, String, [], arith, false, none, refl, some, true, ℕ, ◌↔◌, ◌∷◌, ◌≡◌, ◌⊎◌,
}

abbrev purchase : String → NewTransaction
purchase id = record {
  id = id;
  protocol = "http";
  network = none;
  asset = none;
  locator = none;
  expires_at = none;
  authorization = none;
  input_digest = none;
  config_digest = "sha256:00";
}

abbrev payment : String → String → Bool → Reservation
payment id key again = record {
  request_id = "r1";
  resource_id = "weather";
  provider = "x402";
  replay_key = key;
  amount = "0.01";
  currency = "USD";
  payer = none;
  payee = none;
  reclaim_rejected = again;
  transaction = some (purchase id);
}

abbrev no_rows : Db
no_rows = record { attempts = []; history = []; transactions = [] }

abbrev one_attempt : Db
one_attempt = record {
  attempts = new_attempt 5 "a1" (payment "t1" "k1" false) ∷ [];
  history = [];
  transactions =
      new_transaction (payment "t1" "k1" false) (new_attempt 5 "a1" (payment "t1" "k1" false))
        (purchase "t1")
      ∷ [];
}

first_payment :
    reserve_payment_attempt 5 "a1" (payment "t1" "k1" false) no_rows
    ≡ (one_attempt, attempt (new_attempt 5 "a1" (payment "t1" "k1" false)))
unfolding reserve_payment_attempt
first_payment = refl

abbrev settled_update : AttemptUpdate
settled_update = record {
  replay_key = "k1";
  status = Attempt.settled;
  external_reference = some "0xabc";
  rejection_reason = none;
}

abbrev reconciled : ResolveRequest
reconciled = record {
  attempt_id = "a1";
  expected_status = Attempt.reserved;
  status = Attempt.rejected;
  rejection_reason = some "not_settled";
  resolution = record {
    method = reconcile;
    actor = "operator";
    reason = "no transfer";
    at = 9;
    external_reference = none;
    evidence = none;
  };
}

abbrev journal_calls : List (ℕ × Call)
journal_calls =
    (6, updates settled_update)
    ∷ (7, Calls.reserves "a2" (payment "t2" "k2" true))
    ∷ (8, steps "t1" (instant 8) (completed []))
    ∷ (9, resolves reconciled)
    ∷ []

key_found :
    find_by_replay_key "k1" one_attempt ≡ some (new_attempt 5 "a1" (payment "t1" "k1" false))
unfolding find_by_replay_key
key_found = refl

reserve_replayed_example :
    reserve_payment_attempt 6 "a2" (payment "t2" "k1" true) one_attempt
    ≡ (one_attempt, payment_replayed (some Attempt.reserved))
reserve_replayed_example =
    reserve_replayed 6 "a2" (payment "t2" "k1" true) one_attempt
      (new_attempt 5 "a1" (payment "t1" "k1" false)) (tt, tt) refl key_found
      (λ (a, b, c). ground arith)

abbrev unjournaled : Reservation
unjournaled = record (payment "t2" "k2" false) { transaction = none }

reserved_iff_example :
    (is_reserved (reserve_payment_attempt 6 "a2" unjournaled one_attempt).1 ≡ true) ↔ (
      (find_by_replay_key "k2" one_attempt ≡ none)
      ⊎ ((a : AttemptRow) × (find_by_replay_key "k2" one_attempt ≡ some a)
          × MayReclaim unjournaled a))
reserved_iff_example =
    reserved_iff 6 "a2" unjournaled one_attempt (tt, tt) (refl, λ n e. ground arith)

reserved_once_example :
    let db' =
      run journal_calls (reserve_payment_attempt 5 "a1" (payment "t1" "k1" false) no_rows).0 in
    ((reserve_payment_attempt 20 "a9" (payment "t9" "k1" false) db').0 ≡ db')
    × (is_reserved (reserve_payment_attempt 20 "a9" (payment "t9" "k1" false) db').1 ≡ false)
unfolding reserve_payment_attempt
reserved_once_example =
    reserved_once 5 20 "a1" "a9" (payment "t1" "k1" false) (payment "t9" "k1" false) journal_calls
      no_rows refl refl refl

run-IsUnique_example : IsUnique (run journal_calls one_attempt)
run-IsUnique_example = run-IsUnique journal_calls one_attempt (tt, tt)

one_attempt-IsCached : IsCached one_attempt
unfolding state_at Transaction.transaction_state new_transaction payment_status
one_attempt-IsCached = (((instant 5, refl), refl), tt)

abbrev resolved_attempt : AttemptRow
resolved_attempt = resolved 9 reconciled (new_attempt 5 "a1" (payment "t1" "k1" false))

abbrev one_resolved : Db
one_resolved = record one_attempt { attempts = resolved_attempt ∷ [] }

resolution_final_example :
    (find_row
        (has_attempt_id "a1")
        (update_payment_attempt 10 settled_update one_resolved).0.attempts
      ≡ some resolved_attempt)
    × (find_row
          (has_attempt_id "a1")
          (resolve_payment_attempt 10 reconciled one_resolved).0.attempts
        ≡ some resolved_attempt)
resolution_final_example =
    resolution_final 10 settled_update reconciled one_resolved "a1" resolved_attempt refl refl

abbrev later_writes : List (ℕ × Call)
later_writes =
    (6, updates settled_update)
    ∷ (8, steps "t1" (instant 8) settling)
    ∷ (9, resolves reconciled)
    ∷ []

run-IsCached_example : IsCached (run later_writes one_attempt)
run-IsCached_example =
    run-IsCached later_writes one_attempt (tt, (tt, (tt, tt))) one_attempt-IsCached
