-- ===== src/Spending.antt =====
-- The contract of src/storage/receipts/holds.ts and src/authorization/ap2/replay-store.ts: an
-- authorization is spent once. A ledger keeps of each row only what the contract mentions.
mod Tests
pub mod Runs
pub mod Exclusive
pub mod Once
use agent_commerce.Prelude.{
  Bool, List, Option, String, [], false, if◌then◌else◌, none, not, some, true, ◌&&◌, ◌++◌, ◌==◌,
  ◌||◌, ◌∷◌,
}
use agent_commerce.Sql.{any_row, find_row, update_rows}
use agent_commerce.Core.Transaction.{HoldState, reserved, released, consumed, uncertain}
use agent_commerce.Core.Errors.{Result, ok}
use agent_commerce.Store.Holds.{HoldResult, granted, replayed, is_live, is_open, hold_eq}

-- What a held authorization becomes.
pub data Target : Type 0 where
  to_consumed to_released to_uncertain : Target

abbrev pub target_state : Target → HoldState
target_state to_consumed = consumed
target_state to_released = released
target_state to_uncertain = uncertain

-- An authorization, what it binds, and the request that holds it.
pub record Slot : Type 0 where
  pub reference : String
  pub binding : String
  pub holder : String
  pub state : HoldState

pub record Bid : Type 0 where
  pub reference : String
  pub binding : String
  pub holder : String

abbrev pub slot_of : String → Slot → Bool
slot_of reference s = s.reference == reference

abbrev pub occupies : String → String → Slot → Bool
occupies binding reference s =
    s.binding == binding && (not (s.reference == reference) && is_live s.state)

abbrev pub taken_by : Bid → Slot
taken_by b = record {
  reference = b.reference;
  binding = b.binding;
  holder = b.holder;
  state = reserved;
}

abbrev pub is_vacant : String → Slot → Bool
is_vacant reference s = slot_of reference s && not (is_live s.state)

abbrev pub retaken : Bid → Slot → Slot
retaken b s = record s { binding = b.binding; holder = b.holder; state = reserved }

unfoldable pub bid_binding : Bid → List Slot → List Slot → List Slot × HoldResult
bid_binding b t t' = elim (find_row (occupies b.binding b.reference) t) [
  | some other ↦ (t, replayed other.state)
  | none ↦ (t', granted)
]

unfoldable pub reserve : Bid → List Slot → List Slot × HoldResult
unfolding bid_binding
reserve b t = elim (find_row (slot_of b.reference) t) [
  | none ↦ bid_binding b t (t ++ taken_by b ∷ [])
  | some s ↦
      if is_live s.state
      then (t, replayed s.state)
      else bid_binding b t (update_rows (is_vacant b.reference) (retaken b) t)
]

abbrev pub held_for : Option String → Slot → Bool
held_for none s = true
held_for (some id) s = s.holder == id

abbrev pub yields : String → Option String → Slot → Bool
yields reference id s = slot_of reference s && (is_open s.state && held_for id s)

abbrev pub settled : HoldState → Slot → Slot
settled to s = record s { state = to }

abbrev pub idle_answer : HoldState → Option String → Option Slot → Bool
idle_answer to id none = false
idle_answer to id (some s) = if held_for id s then hold_eq s.state to else hold_eq to released

unfoldable pub settle : String → Target → Option String → List Slot → List Slot × Result Bool
settle reference target id t =
    let to = target_state target in
    (
      update_rows (yields reference id) (settled to) t,
      ok (any_row (yields reference id) t || idle_answer to id (find_row (slot_of reference) t)),
    )
