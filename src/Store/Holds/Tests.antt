-- ===== src/Store/Holds/Tests.antt =====
-- Runs of the hold methods, and the theorems at concrete tables.
use agent_commerce.Store.Holds.Once.{granted_once}
use agent_commerce.Store.Holds.{
  Call, HoldRow, Reservation, granted, hold_state, new_row, replayed, reserve_hold, reserves, run,
  transition_hold, transitions,
}
use agent_commerce.Store.Holds.Exclusive.{IsValid, run-IsValid}
use agent_commerce.Store.Holds.Lifecycle.{IsFree, granted_iff, transition_by_holder}
use agent_commerce.Core.Transaction.{consumed, reserved, uncertain}
use agent_commerce.Core.Errors.{ok}
use agent_commerce.Prelude.{
  List, String, [], arith, false, none, refl, some, true, ℕ, ◌↔◌, ◌∷◌, ◌≡◌, ◌≢◌,
}

abbrev mandate : String → String → String → Reservation
mandate reference binding request_id = record {
  method = "ap2";
  reference = reference;
  binding_reference = binding;
  resource_id = "weather";
  request_id = request_id;
  metadata = none;
}

abbrev one_hold : List HoldRow
one_hold = new_row 5 (mandate "m1" "b1" "r1") ∷ []

reserve_empty : (reserve_hold 5 (mandate "m1" "b1" "r1") []).0 ≡ one_hold
unfolding reserve_hold
reserve_empty = refl

binding_refused : (reserve_hold 6 (mandate "m2" "b1" "r2") one_hold).1 ≡ replayed reserved
unfolding reserve_hold
binding_refused = refl

other_request_refused : (transition_hold 7 "m1" consumed (some "r2") one_hold).1 ≡ ok false
unfolding transition_hold
other_request_refused = refl

abbrev holds_history : List (ℕ × Call)
holds_history =
    (6, transitions "m1" uncertain (some "r1"))
    ∷ (7, reserves (mandate "m2" "b1" "r2"))
    ∷ (8, transitions "m1" consumed none)
    ∷ []

granted_iff_example :
    ((reserve_hold 6 (mandate "m2" "b2" "r2") one_hold).1 ≡ granted)
    ↔ IsFree (mandate "m2" "b2" "r2") one_hold
granted_iff_example = granted_iff 6 (mandate "m2" "b2" "r2") one_hold

transition_by_holder_example :
    let (t', answer) = transition_hold 7 "m1" consumed (some "r1") one_hold in
    (hold_state "m1" t' ≡ some consumed)
    × ((answer ≡ ok true) ↔ (hold_state "m1" t' ≡ some consumed))
transition_by_holder_example =
    transition_by_holder 7 "m1" consumed (some "r1") one_hold (new_row 5 (mandate "m1" "b1" "r1"))
      (tt, tt) (λ e. ground arith) refl refl

granted_once_example :
    (reserve_hold 9
      (mandate "m1" "b9" "r9")
      (run holds_history (reserve_hold 5 (mandate "m1" "b1" "r1") []).0)).1
    ≢ granted
unfolding reserve_hold
granted_once_example =
    granted_once 5 9 (mandate "m1" "b1" "r1") (mandate "m1" "b9" "r9") holds_history [] refl refl
      (refl, (refl, (refl, tt)))

run-IsValid_example : IsValid (run holds_history one_hold)
run-IsValid_example = run-IsValid holds_history one_hold (tt, tt)
