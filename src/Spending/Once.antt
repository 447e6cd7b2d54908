-- ===== src/Spending/Once.antt =====
-- A spent authorization in a ledger, for the stores of src/storage/receipts/holds.ts and
-- src/authorization/ap2/replay-store.ts.
use agent_commerce.Prelude.{
  Bool-cases, List, Option, Option-cases, String, arith, false, inl, inr, none, refl, some, ◌==◌,
  ◌≡◌, [], ap, eq_iff, subst, sym, ℕ, ◌∙◌, ◌∷◌,
}
use agent_commerce.Sql.{find_row, update_rows}
use agent_commerce.Sql.Laws.{find_row-append_old, find_row-match, find_row-update_rows}
use agent_commerce.Core.Transaction.{HoldState, consumed}
use agent_commerce.Store.Holds.{is_live, replayed, HoldResult}
use agent_commerce.Spending.{
  Bid, Slot, bid_binding, occupies, reserve, slot_of, taken_by, Target, is_vacant, retaken, settle,
  settled, target_state, yields,
}
use agent_commerce.Spending.Runs.{
  AllFit, Answer, Event, SpendingStore, bids, closes, replay, serve, serve-replay, taken, takes,
}

abbrev pub state_of : Option Slot → Option HoldState
state_of none = none
state_of (some s) = some s.state

abbrev pub slot_state : String → List Slot → Option HoldState
slot_state reference t = state_of (find_row (slot_of reference) t)

abbrev pub IsSpent : String → List Slot → Type 0
IsSpent reference t = slot_state reference t ≡ some consumed

reserve-spent :
    (b : Bid) (t : List Slot) → IsSpent b.reference t → reserve b t ≡ (t, replayed consumed)
unfolding reserve
reserve-spent b t e = ground arith

bid_binding-other :
    (b : Bid) (t t' : List Slot) (reference : String)
    → slot_state reference t' ≡ slot_state reference t
    → slot_state reference (bid_binding b t t').0 ≡ slot_state reference t
unfolding bid_binding
bid_binding-other b t t' reference e =
    elim (Option-cases (find_row (occupies b.binding b.reference) t)) [
      | inl free ↦ rw (free, bid_binding) e
      | inr (other, held) ↦ rw (held, bid_binding) refl
    ]

slot_state-retaken :
    (b : Bid) (t : List Slot) (reference : String)
    → (b.reference == reference) ≡ false
    → slot_state reference (update_rows (is_vacant b.reference) (retaken b) t)
      ≡ slot_state reference t
slot_state-retaken b t reference ne =
    let kept =
      find_row-update_rows (slot_of reference) (is_vacant b.reference) (retaken b) t (λ s. refl) in
    elim (Option-cases (find_row (slot_of reference) t)) [
      | inl missing ↦ rw (kept, missing) refl
      | inr (s, found) ↦
          let at = find_row-match (slot_of reference) t s found in
          rw (kept, found)
            (ground (
              arith,
              eq_iff s.reference reference,
              eq_iff s.reference b.reference,
              eq_iff b.reference reference,
            ))
    ]

reserve-other :
    (b : Bid) (t : List Slot) (reference : String)
    → (b.reference == reference) ≡ false
    → slot_state reference (reserve b t).0 ≡ slot_state reference t
unfolding reserve
reserve-other b t reference ne = elim (Option-cases (find_row (slot_of b.reference) t)) [
  | inl fresh ↦
      rw (fresh, reserve)
        (bid_binding-other b t _ reference
          (rw (find_row-append_old (slot_of reference) t (taken_by b) ne) refl))
  | inr (s, found) ↦ elim (Bool-cases (is_live s.state)) [
    | inl live ↦ rw (found, reserve) (rw live refl)
    | inr over ↦
        rw (found, reserve)
          (rw over (bid_binding-other b t _ reference (slot_state-retaken b t reference ne)))
  ]
]

reserve-IsSpent :
    (b : Bid) (t : List Slot) (reference : String)
    → IsSpent reference t
    → IsSpent reference (reserve b t).0
reserve-IsSpent b t reference e = elim (Bool-cases (b.reference == reference)) [
  | inl same ↦
      let q : b.reference ≡ reference = (eq_iff b.reference reference).0 same in
      rw (reserve-spent b t (rw q e)) e
  | inr different ↦ reserve-other b t reference different ∙ e
]

settle-IsSpent :
    (other : String) (to : Target) (id : Option String) (t : List Slot) (reference : String)
    → IsSpent reference t
    → IsSpent reference (settle other to id t).0
unfolding settle
settle-IsSpent other to id t reference e =
    let kept =
      find_row-update_rows (slot_of reference) (yields other id) (settled (target_state to)) t
        (λ s. refl) in
    elim (Option-cases (find_row (slot_of reference) t)) [
      | inl missing ↦ ground arith
      | inr (s, found) ↦ rw (kept, found) (ground arith)
    ]

-- Every bid for the reference is answered that it is spent.
abbrev pub AllRefused : String → List (Event Bid) → List Answer → Type 0
AllRefused reference (takes b ∷ es) (a ∷ answers) =
    (b.reference ≡ reference → a ≡ taken (replayed consumed)) × AllRefused reference es answers
AllRefused reference (closes other to id ∷ es) (a ∷ answers) = AllRefused reference es answers
AllRefused reference _ _ = Unit

pub replay-AllRefused :
    (es : List (Event Bid)) (t : List Slot) (reference : String)
    → IsSpent reference t
    → IsSpent reference (replay es t).0 × AllRefused reference es (replay es t).1
unfolding replay
replay-AllRefused [] t reference e = (e, tt)
replay-AllRefused (takes b ∷ es) t reference e =
    let (later, refused) =
      replay-AllRefused es (reserve b t).0 reference (reserve-IsSpent b t reference e) in
    (
      later,
      (λ q. ap (λ (x : List Slot × HoldResult). taken x.1) (reserve-spent b t (rw q e)), refused),
    )
replay-AllRefused (closes other to id ∷ es) t reference e =
    replay-AllRefused es (settle other to id t).0 reference
      (settle-IsSpent other to id t reference e)

module _ (c : SpendingStore) where
  open c use {State, Offer, view, IsGood}

  -- Any store of this kind refuses every later reservation of a consumed authorization.
  pub serve-AllRefused :
      (es : List (ℕ × Event Offer)) (s : State) (reference : String)
      → AllFit c es
      → IsGood s
      → IsSpent reference (view s)
      → IsSpent reference (view (serve c es s).0)
        × AllRefused reference (bids c es) (serve c es s).1
  serve-AllRefused es s reference f g e =
      subst
        (λ (x : List Slot × List Answer).
          IsSpent reference x.0 × AllRefused reference (bids c es) x.1)
        (sym (serve-replay c es s f g)) (replay-AllRefused (bids c es) (view s) reference e)
