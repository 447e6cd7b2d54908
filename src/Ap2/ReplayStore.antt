-- ===== src/Ap2/ReplayStore.antt =====
-- src/authorization/ap2/replay-store.ts: the mandates that have been spent, one row for each
-- reference. `db.transaction` runs `reserve` as one step; the clock's reading is an argument.
mod Tests
pub mod Spends
pub mod Contract
use agent_commerce.Prelude.{
  Bool, List, Option, String, [], false, if◌then◌else◌, none, not, some, true, ℕ, ◌&&◌, ◌++◌, ◌==◌,
  ◌||◌, ◌∷◌,
}
use agent_commerce.Sql.{any_row, find_row, update_rows}
use agent_commerce.Core.Transaction.{HoldState, reserved, consumed, released, uncertain}
use agent_commerce.Store.Holds.{HoldResult, granted, replayed, is_live, is_open, hold_eq}

-- `Ap2ReservationRequest`
pub record Presentation : Type 0 where
  pub reference : String
  pub checkout_jti : String
  pub mandate_issuer : String
  pub checkout_issuer : String
  pub resource_id : String
  pub request_id : String

-- A row of `ap2_authorizations`
pub record MandateRow : Type 0 where
  pub reference : String
  pub checkout_jti : String
  pub mandate_issuer : String
  pub checkout_issuer : String
  pub resource_id : String
  pub request_id : String
  pub state : HoldState
  pub created_at : ℕ
  pub updated_at : ℕ

-- `selectByReference`
abbrev pub refers : String → MandateRow → Bool
refers reference m = m.reference == reference

-- `selectLiveByJti`
abbrev pub same_checkout : String → String → MandateRow → Bool
same_checkout jti reference m =
    m.checkout_jti == jti && (not (m.reference == reference) && is_live m.state)

-- `insert`
abbrev pub new_mandate : ℕ → Presentation → MandateRow
new_mandate at p = record {
  reference = p.reference;
  checkout_jti = p.checkout_jti;
  mandate_issuer = p.mandate_issuer;
  checkout_issuer = p.checkout_issuer;
  resource_id = p.resource_id;
  request_id = p.request_id;
  state = reserved;
  created_at = at;
  updated_at = at;
}

-- `reReserve`: its WHERE clause and its SET clause, which leaves the checkout of the row alone
abbrev pub was_released : String → MandateRow → Bool
was_released reference m = refers reference m && hold_eq m.state released

abbrev pub re_reserved : ℕ → Presentation → MandateRow → MandateRow
re_reserved at p m = record m { state = reserved; request_id = p.request_id; updated_at = at }

-- The part of `reserveTx` from `sameCheckout` on, with the table that is written if it is free.
unfoldable pub unless_bound :
    Presentation → List MandateRow → List MandateRow → List MandateRow × HoldResult
unless_bound p t t' = elim (find_row (same_checkout p.checkout_jti p.reference) t) [
  | some other ↦ (t, replayed other.state)
  | none ↦ (t', granted)
]

-- `reserveTx`
unfoldable pub reserve_mandate : ℕ → Presentation → List MandateRow → List MandateRow × HoldResult
unfolding unless_bound
reserve_mandate at p t = elim (find_row (refers p.reference) t) [
  | none ↦ unless_bound p t (t ++ new_mandate at p ∷ [])
  | some existing ↦
      if not (hold_eq existing.state released)
      then (t, replayed existing.state)
      else unless_bound p t (update_rows (was_released p.reference) (re_reserved at p) t)
]

-- `@request_id IS NULL OR request_id = @request_id`
abbrev pub held_by : Option String → MandateRow → Bool
held_by none m = true
held_by (some id) m = m.request_id == id

-- `transition`
abbrev pub in_transition : String → Option String → MandateRow → Bool
in_transition reference request_id m =
    refers reference m && (is_open m.state && held_by request_id m)

abbrev pub transitioned : ℕ → HoldState → MandateRow → MandateRow
transitioned at state m = record m { state = state; updated_at = at }

-- What `move` answers when no row changed.
unfoldable pub unchanged_answer : HoldState → Option String → Option MandateRow → Bool
unchanged_answer state request_id none = false
unchanged_answer state none (some row) = hold_eq row.state state
unchanged_answer state (some id) (some row) =
    if not (row.request_id == id) then hold_eq state released else hold_eq row.state state

-- `move`
unfoldable pub move :
    ℕ → String → HoldState → Option String → List MandateRow → List MandateRow × Bool
unfolding unchanged_answer
move at reference state request_id t = (
  update_rows (in_transition reference request_id) (transitioned at state) t,
  any_row (in_transition reference request_id) t
      || unchanged_answer state request_id (find_row (refers reference) t),
)

-- The methods that move a mandate
abbrev pub consume : ℕ → String → Option String → List MandateRow → List MandateRow × Bool
consume at reference request_id t = move at reference consumed request_id t

abbrev pub release : ℕ → String → Option String → List MandateRow → List MandateRow × Bool
release at reference request_id t = move at reference released request_id t

abbrev pub mark_uncertain : ℕ → String → Option String → List MandateRow → List MandateRow × Bool
mark_uncertain at reference request_id t = move at reference uncertain request_id t

-- `stateOf`
abbrev pub state_of : Option MandateRow → Option HoldState
state_of none = none
state_of (some m) = some m.state

unfoldable pub mandate_state : String → List MandateRow → Option HoldState
mandate_state reference t = state_of (find_row (refers reference) t)
