-- ===== src/Spending/Tests.antt =====
-- Runs of the contract.
use agent_commerce.Prelude.{[], none, refl, true, ◌∷◌, ◌≡◌}
use agent_commerce.Core.Transaction.{consumed}
use agent_commerce.Core.Errors.{ok}
use agent_commerce.Store.Holds.{granted, replayed}
use agent_commerce.Spending.{Bid, to_consumed, reserve, settle}
use agent_commerce.Spending.Runs.{closed, closes, replay, taken, takes}

abbrev first_bid : Bid
first_bid = record { reference = "m1"; binding = "b1"; holder = "r1" }

spent_once :
    (replay (takes first_bid ∷ closes "m1" to_consumed none ∷ takes first_bid ∷ []) []).1
    ≡ taken granted ∷ closed (ok true) ∷ taken (replayed consumed) ∷ []
unfolding replay reserve settle
spent_once = refl
