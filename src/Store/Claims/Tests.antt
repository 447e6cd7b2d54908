-- ===== src/Store/Claims/Tests.antt =====
-- Runs of the idempotency methods, and the theorems at concrete tables.
use agent_commerce.Store.Claims.Stored.{replay_stored}
use agent_commerce.Store.Claims.{
  Call, ClaimRow, Scope, claim, claim_of, claims, completes, new_claim, recovers, replay, reserved,
  run, still_in_flight, unresolves, update_idempotency_key, updates,
}
use agent_commerce.Store.Claims.Exclusive.{IsKeyed, run-IsKeyed}
use agent_commerce.Store.Claims.Replay.{claim_once, claim_reserved_iff, is_spent}
use agent_commerce.Json.{null}
use agent_commerce.Prelude.{
  List, String, [], arith, false, none, refl, some, true, ℕ, ◌↔◌, ◌∷◌, ◌≡◌, ◌≢◌,
}

abbrev scope_of : String → Scope
scope_of key = record { deployment = "d"; endpoint = "complete"; key = key }

abbrev one_claim : List ClaimRow
one_claim = new_claim 5 (scope_of "k1") "f1" 100 ∷ []

abbrev other_calls : List (ℕ × Call)
other_calls =
    (6, claims (scope_of "k2") "f2" 100)
    ∷ (7, updates (scope_of "k1") unresolves)
    ∷ (8, recovers false)
    ∷ (9, updates (scope_of "k2") (completes 200 none))
    ∷ []

first_claim : claim 5 (scope_of "k1") "f1" 100 [] ≡ (one_claim, reserved)
unfolding claim
first_claim = refl

second_claim : (claim 6 (scope_of "k1") "f1" 100 one_claim).1 ≡ still_in_flight
unfolding claim
second_claim = refl

claim_reserved_iff_example :
    ((claim 6 (scope_of "k1") "f1" 100 one_claim).1 ≡ reserved)
    ↔ (is_spent 6 (claim_of (scope_of "k1") one_claim) ≡ true)
claim_reserved_iff_example = claim_reserved_iff 6 (scope_of "k1") "f1" 100 one_claim (tt, tt)

claim_once_example :
    (claim 20 (scope_of "k1") "f1" 200 (run other_calls (claim 5 (scope_of "k1") "f1" 100 []).0)).1
    ≢ reserved
unfolding claim
claim_once_example =
    claim_once 5 20 (scope_of "k1") "f1" "f1" 100 200 other_calls [] tt refl
      (refl, (refl, (refl, (refl, tt))))

abbrev quiet_calls : List (ℕ × Call)
quiet_calls = (6, claims (scope_of "k2") "f2" 100) ∷ (8, recovers true) ∷ []

replay_stored_example :
    (claim 9 (scope_of "k1") "f1" 300 (
      run quiet_calls
        (update_idempotency_key (scope_of "k1") (completes 201 (some null)) one_claim))).1
    ≡ replay 201 null
unfolding claim_of
replay_stored_example =
    replay_stored (scope_of "k1") 201 (some null) one_claim (new_claim 5 (scope_of "k1") "f1" 100)
      quiet_calls 9 "f1" 300 (tt, tt) refl (omega arith, (tt, tt)) (omega arith)

run-IsKeyed_example : IsKeyed (run other_calls one_claim)
run-IsKeyed_example = run-IsKeyed other_calls one_claim (tt, tt)
