-- ===== src/Ap2/ReplayStore/Tests.antt =====
-- Runs of the replay store, and the theorems at concrete histories.
use agent_commerce.Prelude.{
  List, String, [], if◌then◌else◌, map, none, refl, some, true, ℕ, ◌==◌, ◌∷◌, ◌≡◌,
}
use agent_commerce.Core.Transaction.{reserved, consumed}
use agent_commerce.Core.Errors.{ok}
use agent_commerce.Store.Holds.{Reservation, granted, replayed, new_row}
use agent_commerce.Store.Holds.Spends.{hold_store}
use agent_commerce.Ap2.ReplayStore.{
  MandateRow, Presentation, mandate_state, reserve_mandate, new_mandate, consume, release, move,
}
use agent_commerce.Ap2.ReplayStore.Spends.{slot, replay_store}
use agent_commerce.Ap2.ReplayStore.Contract.{
  serve-refines, consumed-AllRefused, serve-IsExclusive_mandates, answers_alike,
}
use agent_commerce.Spending.{to_consumed}
use agent_commerce.Spending.Runs.{AllFit, Event, bids, closed, closes, replay, serve, taken, takes}
use agent_commerce.Spending.Exclusive.{IsExclusive}
use agent_commerce.Spending.Once.{AllRefused}

abbrev presentation : String → String → String → Presentation
presentation reference jti request_id = record {
  reference = reference;
  checkout_jti = jti;
  mandate_issuer = "issuer";
  checkout_issuer = "merchant";
  resource_id = "weather";
  request_id = request_id;
}

-- The checkout of each token
abbrev jti_of : String → String
jti_of token = if token == "m2" then "b2" else "b1"

abbrev one_mandate : List MandateRow
one_mandate = new_mandate 5 (presentation "m1" "b1" "r1") ∷ []

same_checkout_refused :
    (reserve_mandate 6 (presentation "m3" "b1" "r3") one_mandate).1 ≡ replayed reserved
unfolding reserve_mandate
same_checkout_refused = refl

released_again :
    (reserve_mandate 8 (presentation "m1" "b1" "r2") (release 7 "m1" (some "r1") one_mandate).0).1
    ≡ granted
unfolding reserve_mandate move
released_again = refl

abbrev mandate_history : List (ℕ × Event Presentation)
mandate_history =
    (6, takes (presentation "m3" "b1" "r3"))
    ∷ (7, takes (presentation "m2" "b2" "r2"))
    ∷ (8, closes "m1" to_consumed (some "r1"))
    ∷ (9, takes (presentation "m1" "b1" "r4"))
    ∷ []

mandate_answers :
    (serve (replay_store jti_of) mandate_history one_mandate).1
    ≡ taken (replayed reserved) ∷ taken granted ∷ closed (ok true) ∷ taken (replayed consumed) ∷ []
unfolding serve reserve_mandate move
mandate_answers = refl

abbrev history-AllFit : AllFit (replay_store jti_of) mandate_history
history-AllFit = (refl, (refl, (refl, tt)))

serve-refines_example :
    (
      map slot (serve (replay_store jti_of) mandate_history one_mandate).0,
      (serve (replay_store jti_of) mandate_history one_mandate).1,
    )
    ≡ replay (bids (replay_store jti_of) mandate_history) (map slot one_mandate)
serve-refines_example = serve-refines jti_of mandate_history one_mandate history-AllFit (refl, tt)

abbrev spent_mandate : List MandateRow
spent_mandate = (consume 6 "m1" none one_mandate).0

consumed-AllRefused_example :
    (mandate_state "m1" (serve (replay_store jti_of) mandate_history spent_mandate).0
      ≡ some consumed)
    × AllRefused "m1"
        (bids (replay_store jti_of) mandate_history)
        (serve (replay_store jti_of) mandate_history spent_mandate).1
unfolding move mandate_state
consumed-AllRefused_example =
    consumed-AllRefused jti_of mandate_history spent_mandate history-AllFit (refl, tt) "m1" refl

serve-IsExclusive_mandates_example :
    IsExclusive (map slot (serve (replay_store jti_of) mandate_history one_mandate).0)
serve-IsExclusive_mandates_example =
    serve-IsExclusive_mandates jti_of mandate_history one_mandate history-AllFit (refl, tt) (tt, tt)

abbrev reservation : String → String → String → Reservation
reservation reference binding request_id = record {
  method = "ap2";
  reference = reference;
  binding_reference = binding;
  resource_id = "weather";
  request_id = request_id;
  metadata = none;
}

abbrev hold_history : List (ℕ × Event Reservation)
hold_history =
    (16, takes (reservation "m3" "b1" "r3"))
    ∷ (17, takes (reservation "m2" "b2" "r2"))
    ∷ (18, closes "m1" to_consumed (some "r1"))
    ∷ (19, takes (reservation "m1" "b1" "r4"))
    ∷ []

answers_alike_example :
    (serve (replay_store jti_of) mandate_history one_mandate).1
    ≡ (serve hold_store hold_history (new_row 15 (reservation "m1" "b1" "r1") ∷ [])).1
answers_alike_example =
    answers_alike jti_of mandate_history one_mandate history-AllFit (refl, tt) hold_history
      (new_row 15 (reservation "m1" "b1" "r1") ∷ []) (tt, (tt, (tt, tt))) refl refl
