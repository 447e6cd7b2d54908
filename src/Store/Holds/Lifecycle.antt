-- ===== src/Store/Holds/Lifecycle.antt =====
-- One hold of src/storage/receipts/holds.ts under a reservation and under a transition.
use mathlib.Core.Option
use agent_commerce.Store.Holds.Exclusive.{IsValid, clash}
use agent_commerce.Sql.Laws.{
  find_row-append, find_row-append_old, find_row-match, find_row-update_rows, any_row-key,
}
use agent_commerce.Prelude.{
  List, String, arith, none, some, true, ℕ, ◌↔◌, ◌≡◌, ◌≢◌, ◌⊎◌, Option-cases, [], eq_iff, eq_refl,
  inl, inr, refl, ◌++◌, ◌∷◌, Option, ap, false, if◌then◌else◌,
}
use agent_commerce.Sql.{find_row, update_rows, any_row, on_match}
use agent_commerce.Core.Errors.{ok}
use agent_commerce.Core.Transaction.{HoldState, reserved, released}
use agent_commerce.Store.Holds.{
  HoldRow, Reservation, binds, granted, hold_state, is_live, replayed, reserve_hold, has_reference,
  is_renewable, new_row, renewed, claim_binding, holds_for, is_movable, is_open, moved, moves,
  state_of, transition_hold,
}

-- A grant needs an authorization that is not held, and a binding that no other one holds.
abbrev pub IsFree : Reservation → List HoldRow → Type 0
IsFree r t =
    ((hold_state r.reference t ≡ none) ⊎ (hold_state r.reference t ≡ some released))
    × (find_row (binds r.binding_reference r.reference) t ≡ none)

-- `reserveAuthorizationHold` grants exactly when the reference is absent or released and no other
-- live hold has the binding.
pub granted_iff :
    (now : ℕ) (r : Reservation) (t : List HoldRow)
    → ((reserve_hold now r t).1 ≡ granted) ↔ IsFree r t
unfolding reserve_hold hold_state
granted_iff now r t = (ground arith, ground arith)

claim_binding_replayed :
    (r : Reservation) (t t' : List HoldRow) (s : HoldState)
    → (claim_binding r t t').1 ≡ replayed s
    → ((claim_binding r t t').0 ≡ t) × (is_live s ≡ true)
unfolding claim_binding
claim_binding_replayed r t t' s e =
    elim (Option-cases (find_row (binds r.binding_reference r.reference) t)) [
      | inl free ↦ cc (rw (free, claim_binding) at e)
      | inr (h, held) ↦
          ground (arith, find_row-match (binds r.binding_reference r.reference) t h held)
    ]

-- A refused reservation changes nothing, and reports a state that blocks reuse.
pub replayed_sound :
    (now : ℕ) (r : Reservation) (t : List HoldRow) (s : HoldState)
    → (reserve_hold now r t).1 ≡ replayed s
    → ((reserve_hold now r t).0 ≡ t) × (is_live s ≡ true)
unfolding reserve_hold
replayed_sound now r t s e = ground (
  arith,
  claim_binding_replayed r t (t ++ new_row now r ∷ []) s,
  claim_binding_replayed r t (update_rows (is_renewable r.reference) (renewed now r) t) s,
)

claim_binding_granted :
    (r : Reservation) (t t' : List HoldRow)
    → (claim_binding r t t').1 ≡ granted
    → (claim_binding r t t').0 ≡ t'
unfolding claim_binding
claim_binding_granted r t t' e = ground arith

-- After a grant the reference is reserved, for the request that asked.
pub granted_state :
    (now : ℕ) (r : Reservation) (t : List HoldRow)
    → (reserve_hold now r t).1 ≡ granted
    → hold_state r.reference (reserve_hold now r t).0 ≡ some reserved
unfolding reserve_hold hold_state
granted_state now r t e = elim (Option-cases (find_row (has_reference r.reference) t)) [
  | inl fresh ↦ ground (
    arith,
    find_row-append (has_reference r.reference) t (new_row now r),
    claim_binding_granted r t (t ++ new_row now r ∷ []),
    eq_refl r.reference,
  )
  | inr (h, found) ↦ ground (
    arith,
    find_row-match (has_reference r.reference) t h found,
    find_row-update_rows (has_reference r.reference) (is_renewable r.reference) (renewed now r) t
        (λ g. refl),
    claim_binding_granted r t (update_rows (is_renewable r.reference) (renewed now r) t),
  )
]

other_renewed :
    (now : ℕ) (r : Reservation) (t : List HoldRow) (other : String)
    → r.reference ≢ other
    → hold_state other (update_rows (is_renewable r.reference) (renewed now r) t)
      ≡ hold_state other t
unfolding hold_state
other_renewed now r [] other ne = refl
other_renewed now r (h ∷ t) other ne = ground (
  arith,
  eq_iff h.reference r.reference,
  eq_iff h.reference other,
  other_renewed now r t other ne,
)

-- A reservation moves no other reference.
pub reserve_hold-other :
    (now : ℕ) (r : Reservation) (t : List HoldRow) (other : String)
    → r.reference ≢ other
    → hold_state other (reserve_hold now r t).0 ≡ hold_state other t
unfolding reserve_hold hold_state claim_binding
reserve_hold-other now r t other ne = ground (
  arith,
  eq_iff r.reference other,
  find_row-append_old (has_reference other) t (new_row now r),
  other_renewed now r t other ne,
)

pub found_moved :
    (now : ℕ) (reference : String) (to : HoldState) (id : Option String) (t : List HoldRow)
    (other : String)
    → hold_state other (update_rows (moves reference id) (moved now to) t)
      ≡ state_of (
          Option.map
            (on_match (moves reference id) (moved now to))
            (find_row (has_reference other) t))
unfolding hold_state
found_moved now reference to id t other =
    ap state_of
      (find_row-update_rows (has_reference other) (moves reference id) (moved now to) t (λ h. refl))

any-moves :
    (reference : String) (id : Option String) (t : List HoldRow)
    → IsValid t
    → any_row (moves reference id) t
      ≡ elim (find_row (has_reference reference) t) [ none ↦ false | some h ↦ is_movable id h ]
any-moves reference id t v =
    any_row-key clash (has_reference reference)
      (λ x y a b. ground (
        arith,
        eq_iff x.reference reference,
        eq_iff y.reference reference,
        eq_iff x.reference y.reference,
      ))
      (is_movable id) t v

-- In a valid table, a transition to another state than `reserved` of a hold by its holder, or with
-- no holder named: an open hold moves to the target, a consumed or released one stays, and the
-- answer is true exactly when the hold is in the target state afterwards.
pub transition_by_holder :
    (now : ℕ) (reference : String) (to : HoldState) (id : Option String) (t : List HoldRow)
    (h : HoldRow)
    → IsValid t
    → to ≢ reserved
    → find_row (has_reference reference) t ≡ some h
    → holds_for id h ≡ true
    → let (t', answer) = transition_hold now reference to id t in
      (hold_state reference t' ≡ some (if is_open h.state then to else h.state))
      × ((answer ≡ ok true) ↔ (hold_state reference t' ≡ some to))
unfolding transition_hold hold_state
transition_by_holder now reference reserved id t h v ne found held = absurd (ne refl)
transition_by_holder now reference to id t h v ne found held = ground (
  arith,
  found_moved now reference to id t reference,
  any-moves reference id t v,
  find_row-match (has_reference reference) t h found,
)

-- In a valid table, a transition to another state than `reserved` in the name of a request that
-- does not hold the reference leaves its state alone, and the answer is true exactly if it was a
-- release.
pub transition_by_other :
    (now : ℕ) (reference : String) (to : HoldState) (id : Option String) (t : List HoldRow)
    (h : HoldRow)
    → IsValid t
    → to ≢ reserved
    → find_row (has_reference reference) t ≡ some h
    → holds_for id h ≡ false
    → let (t', answer) = transition_hold now reference to id t in
      (hold_state reference t' ≡ hold_state reference t) × ((answer ≡ ok true) ↔ (to ≡ released))
unfolding transition_hold hold_state
transition_by_other now reference reserved id t h v ne found held = absurd (ne refl)
transition_by_other now reference to id t h v ne found held = ground (
  arith,
  found_moved now reference to id t reference,
  any-moves reference id t v,
  find_row-match (has_reference reference) t h found,
)

pub transition_hold-other :
    (now : ℕ) (reference : String) (to : HoldState) (id : Option String) (t : List HoldRow)
    (other : String)
    → reference ≢ other
    → hold_state other (transition_hold now reference to id t).0 ≡ hold_state other t
unfolding transition_hold hold_state
transition_hold-other now reference reserved id t other ne = refl
transition_hold-other now reference to id t other ne =
    elim (Option-cases (find_row (has_reference other) t)) [
      | inl missing ↦ ground (arith, found_moved now reference to id t other)
      | inr (h, found) ↦ ground (
        arith,
        found_moved now reference to id t other,
        find_row-match (has_reference other) t h found,
        eq_iff h.reference other,
        eq_iff h.reference reference,
      )
    ]
