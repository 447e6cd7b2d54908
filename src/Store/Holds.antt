-- ===== src/Store/Holds.antt =====
-- src/storage/receipts/holds.ts: authorization holds, one row for each reference. `db.transaction`
-- runs a call as one step, so a call is a function on the table; the clock's reading is an argument.
mod Tests
pub mod Exclusive
pub mod Lifecycle
pub mod Once
pub mod Spends
use agent_commerce.Prelude.{
  Bool, List, Option, String, [], false, if◌then◌else◌, none, not, some, true, ℕ, ◌&&◌, ◌++◌, ◌==◌,
  ◌||◌, ◌∷◌,
}
use agent_commerce.Json.{Json}
use agent_commerce.Sql.{any_row, find_row, update_rows}
use agent_commerce.Store.Redact.{redact}
use agent_commerce.Core.Errors.{Result, ok, err, storage_error}
use agent_commerce.Core.Transaction.{HoldState, reserved, consumed, released, uncertain}

pub record Reservation : Type 0 where
  pub method : String
  pub reference : String
  pub binding_reference : String
  pub resource_id : String
  pub request_id : String
  pub metadata : Option Json

pub record HoldRow : Type 0 where
  pub reference : String
  pub method : String
  pub binding_reference : String
  pub resource_id : String
  pub request_id : String
  pub state : HoldState
  pub metadata_json : Option Json
  pub created_at : ℕ
  pub updated_at : ℕ

pub data HoldResult : Type 0 where
  granted : HoldResult
  replayed : HoldState → HoldResult

-- `state != 'released'`
abbrev pub is_live : HoldState → Bool
is_live released = false
is_live _ = true

-- `state IN ('reserved', 'uncertain')`
abbrev pub is_open : HoldState → Bool
is_open reserved = true
is_open uncertain = true
is_open _ = false

abbrev pub hold_eq : HoldState → HoldState → Bool
hold_eq reserved reserved = true
hold_eq consumed consumed = true
hold_eq released released = true
hold_eq uncertain uncertain = true
hold_eq _ _ = false

-- `selectHold`
abbrev pub has_reference : String → HoldRow → Bool
has_reference reference h = h.reference == reference

-- `selectLiveBinding`
abbrev pub binds : String → String → HoldRow → Bool
binds binding reference h =
    h.binding_reference == binding && (not (h.reference == reference) && is_live h.state)

abbrev redacted_metadata : Option Json → Option Json
redacted_metadata none = none
redacted_metadata (some j) = some (redact j)

-- `insertHold`
abbrev pub new_row : ℕ → Reservation → HoldRow
new_row now r = record {
  reference = r.reference;
  method = r.method;
  binding_reference = r.binding_reference;
  resource_id = r.resource_id;
  request_id = r.request_id;
  state = reserved;
  metadata_json = redacted_metadata r.metadata;
  created_at = now;
  updated_at = now;
}

-- `reReserveHold`, on a row and its WHERE clause
abbrev pub renewed : ℕ → Reservation → HoldRow → HoldRow
renewed now r h = record h {
  state = reserved;
  method = r.method;
  binding_reference = r.binding_reference;
  resource_id = r.resource_id;
  request_id = r.request_id;
  metadata_json = redacted_metadata r.metadata;
  updated_at = now;
}

abbrev pub is_renewable : String → HoldRow → Bool
is_renewable reference h = has_reference reference h && not (is_live h.state)

-- The second half of `reserve`: no other live hold may share the binding.
unfoldable pub claim_binding : Reservation → List HoldRow → List HoldRow → List HoldRow × HoldResult
claim_binding r t t' = elim (find_row (binds r.binding_reference r.reference) t) [
  | some other ↦ (t, replayed other.state)
  | none ↦ (t', granted)
]

-- `reserveAuthorizationHold`
unfoldable pub reserve_hold : ℕ → Reservation → List HoldRow → List HoldRow × HoldResult
unfolding claim_binding
reserve_hold now r t = elim (find_row (has_reference r.reference) t) [
  | none ↦ claim_binding r t (t ++ new_row now r ∷ [])
  | some h ↦
      if is_live h.state
      then (t, replayed h.state)
      else claim_binding r t (update_rows (is_renewable r.reference) (renewed now r) t)
]

-- `@request_id IS NULL OR request_id = @request_id`
abbrev pub holds_for : Option String → HoldRow → Bool
holds_for none h = true
holds_for (some id) h = h.request_id == id

-- The WHERE clause and the SET clause of `transitionHold`.
abbrev pub is_movable : Option String → HoldRow → Bool
is_movable request_id h = is_open h.state && holds_for request_id h

abbrev pub moved : ℕ → HoldState → HoldRow → HoldRow
moved now to h = record h { state = to; updated_at = now }

abbrev pub moves : String → Option String → HoldRow → Bool
moves reference request_id h = has_reference reference h && is_movable request_id h

-- What `transition` answers when no row changed.
unfoldable pub unmoved_answer : HoldState → Option String → Option HoldRow → Bool
unmoved_answer to request_id none = false
unmoved_answer to request_id (some h) =
    if holds_for request_id h then hold_eq h.state to else hold_eq to released

-- `transitionAuthorizationHold`; `reserved` is not in TRANSITION_TARGETS.
unfoldable pub transition_hold :
    ℕ → String → HoldState → Option String → List HoldRow → List HoldRow × Result Bool
unfolding unmoved_answer
transition_hold now reference reserved request_id t = (t, err storage_error)
transition_hold now reference to request_id t = (
  update_rows (moves reference request_id) (moved now to) t,
  ok (
      any_row (moves reference request_id) t
      || unmoved_answer to request_id (find_row (has_reference reference) t)),
)

-- `getAuthorizationHoldState`
abbrev pub state_of : Option HoldRow → Option HoldState
state_of none = none
state_of (some h) = some h.state

unfoldable pub hold_state : String → List HoldRow → Option HoldState
hold_state reference t = state_of (find_row (has_reference reference) t)

-- A call of the store that writes holds.
pub data Call : Type 0 where
  reserves : Reservation → Call
  transitions : String → HoldState → Option String → Call

abbrev pub apply : ℕ → Call → List HoldRow → List HoldRow
apply now (reserves r) t = (reserve_hold now r t).0
apply now (transitions reference to request_id) t =
    (transition_hold now reference to request_id t).0

-- The table after a history of calls, each with the clock's reading.
unfoldable pub run : List (ℕ × Call) → List HoldRow → List HoldRow
run [] t = t
run ((now, c) ∷ cs) t = run cs (apply now c t)
