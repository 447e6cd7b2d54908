-- ===== src/Store/Holds/Spends.antt =====
-- The methods of src/storage/receipts/holds.ts as calls of a spending store. A transition to
-- `reserved` is refused before it touches a row, so it is not one of them.
use mathlib.Core.Option
use agent_commerce.Prelude.{
  All-tt, Bool-cases, List, Option, Option-cases, String, [], arith, inl, inr, map, none, refl,
  some, sym, ℕ, ◌++◌, ◌||◌, ◌∷◌, ◌≡◌,
}
use agent_commerce.Core.Errors.{ok}
use agent_commerce.Core.Transaction.{HoldState}
use agent_commerce.Sql.{any_row, find_row, on_match, update_rows}
use agent_commerce.Sql.Views.{any_row-map, find_row-map, map-append, map-update_rows}
use agent_commerce.Store.Holds.{
  HoldRow, Reservation, binds, claim_binding, has_reference, is_live, is_renewable, moved, moves,
  new_row, renewed, reserve_hold, transition_hold, unmoved_answer,
}
use agent_commerce.Spending.{
  Slot, Bid, Target, to_consumed, to_released, to_uncertain, target_state, reserve, settle,
  bid_binding, slot_of, occupies, is_vacant, retaken, yields, settled, idle_answer,
}
use agent_commerce.Spending.Runs.{SpendingStore}

abbrev pub slot : HoldRow → Slot
slot h = record {
  reference = h.reference;
  binding = h.binding_reference;
  holder = h.request_id;
  state = h.state;
}

abbrev pub bid : Reservation → Bid
bid r = record { reference = r.reference; binding = r.binding_reference; holder = r.request_id }

claim_binding-slot :
    (r : Reservation) (t t' : List HoldRow)
    → (map slot (claim_binding r t t').0, (claim_binding r t t').1)
      ≡ bid_binding (bid r) (map slot t) (map slot t')
unfolding claim_binding bid_binding
claim_binding-slot r t t' =
    elim (Option-cases (find_row (binds r.binding_reference r.reference) t)) [
      | inl free ↦ rw (bound, bid_binding, free, claim_binding) refl
      | inr (other, held) ↦ rw (bound, bid_binding, held, claim_binding) refl
    ]
  where
    bound :
        find_row (occupies r.binding_reference r.reference) (map slot t)
        ≡ Option.map slot (find_row (binds r.binding_reference r.reference) t)
    bound =
        find_row-map slot (binds r.binding_reference r.reference)
          (occupies r.binding_reference r.reference) t (λ h. refl)

pub reserve_hold-slot :
    (now : ℕ) (r : Reservation) (t : List HoldRow)
    → Unit {0}
    → Unit {0}
    → (map slot (reserve_hold now r t).0, (reserve_hold now r t).1) ≡ reserve (bid r) (map slot t)
unfolding reserve_hold reserve
reserve_hold-slot now r t _ _ = elim (Option-cases (find_row (has_reference r.reference) t)) [
  | inl fresh ↦
      rw (found, reserve, fresh, reserve_hold, sym (map-append slot t (new_row now r)))
        (claim_binding-slot r t (t ++ new_row now r ∷ []))
  | inr (h, old) ↦
      rw (found, reserve, old, reserve_hold)
        (elim (Bool-cases (is_live h.state)) [
          | inl live ↦ rw live refl
          | inr over ↦ rw (over, sym renewal) (claim_binding-slot r t _)
        ])
]
  where
    found :
        find_row (slot_of r.reference) (map slot t)
        ≡ Option.map slot (find_row (has_reference r.reference) t)
    found = find_row-map slot (has_reference r.reference) (slot_of r.reference) t (λ h. refl)

    on_match-renewed :
        (h : HoldRow)
        → slot (on_match (is_renewable r.reference) (renewed now r) h)
          ≡ on_match (is_vacant r.reference) (retaken (bid r)) (slot h)
    on_match-renewed h = ground arith

    renewal :
        map slot (update_rows (is_renewable r.reference) (renewed now r) t)
        ≡ update_rows (is_vacant r.reference) (retaken (bid r)) (map slot t)
    renewal =
        map-update_rows slot (λ _. Unit {0}) (is_renewable r.reference) (renewed now r)
          (is_vacant r.reference) (retaken (bid r)) t (λ h _. on_match-renewed h) (All-tt t)

on_match-moved :
    (now : ℕ) (reference : String) (to : HoldState) (id : Option String) (h : HoldRow)
    → slot (on_match (moves reference id) (moved now to) h)
      ≡ on_match (yields reference id) (settled to) (slot h)
on_match-moved now reference to id h = ground arith

yields-slot :
    (reference : String) (id : Option String) (h : HoldRow)
    → yields reference id (slot h) ≡ moves reference id h
yields-slot reference none h = refl
yields-slot reference (some id) h = refl

answer-slot :
    (to : HoldState) (id : Option String) (h : Option HoldRow)
    → idle_answer to id (Option.map slot h) ≡ unmoved_answer to id h
unfolding unmoved_answer
answer-slot to id none = refl
answer-slot to none (some h) = refl
answer-slot to (some id) (some h) = refl

transition_hold_open :
    (now : ℕ) (reference : String) (target : Target) (id : Option String) (t : List HoldRow)
    → transition_hold now reference (target_state target) id t ≡ (
      update_rows (moves reference id) (moved now (target_state target)) t,
      ok (
          any_row (moves reference id) t
          || unmoved_answer (target_state target) id (find_row (has_reference reference) t)),
    )
unfolding transition_hold
transition_hold_open now reference to_consumed id t = refl
transition_hold_open now reference to_released id t = refl
transition_hold_open now reference to_uncertain id t = refl

pub transition_hold-slot :
    (now : ℕ) (reference : String) (target : Target) (id : Option String) (t : List HoldRow)
    → (
      map slot (transition_hold now reference (target_state target) id t).0,
      (transition_hold now reference (target_state target) id t).1,
    )
      ≡ settle reference target id (map slot t)
unfolding settle
transition_hold-slot now reference target id t =
    let to = target_state target in
    rw
      (
        transition_hold_open now reference target id t,
        find_row-map slot (has_reference reference) (slot_of reference) t (λ h. refl),
        any_row-map slot (moves reference id) (yields reference id) t (yields-slot reference id),
        map-update_rows slot (λ _. Unit {0}) (moves reference id) (moved now to)
            (yields reference id) (settled to) t (λ h _. on_match-moved now reference to id h)
            (All-tt t),
        answer-slot to id (find_row (has_reference reference) t),
      )
      refl

abbrev pub hold_store : SpendingStore
hold_store = record {
  State = List HoldRow;
  Offer = Reservation;
  bid = bid;
  view = map slot;
  IsGood = λ _. Unit {0};
  IsFit = λ _. Unit {0};
  take = reserve_hold;
  close = λ now reference to id t. transition_hold now reference (target_state to) id t;
  take-view = reserve_hold-slot;
  close-view = transition_hold-slot;
  take-IsGood = λ now r t _ _. tt;
  close-IsGood = λ now reference to id t _. tt;
}
