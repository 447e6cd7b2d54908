-- ===== src/Store/Holds/Once.antt =====
-- One hold of src/storage/receipts/holds.ts under a history of calls.
use agent_commerce.Store.Holds.Lifecycle.{
  found_moved, granted_iff, granted_state, reserve_hold-other, transition_hold-other,
}
use agent_commerce.Prelude.{
  List, String, arith, none, some, true, ℕ, ◌≡◌, ◌≢◌, Option-cases, [], eq_iff, inl, inr, ◌∷◌,
  Option, ap, false, Bool, ◌==◌, All, Bool-cases, subst, sym, ◌∙◌,
}
use agent_commerce.Sql.{find_row}
use agent_commerce.Core.Transaction.{HoldState, reserved, consumed, released}
use agent_commerce.Store.Holds.{
  HoldRow, Reservation, granted, hold_state, is_live, replayed, reserve_hold, has_reference,
  transition_hold, Call, apply, reserves, transitions, HoldResult, run,
}

-- A call that could free an authorization.
abbrev pub releases : String → Call → Bool
releases reference (reserves r) = false
releases reference (transitions other released id) = other == reference
releases reference (transitions other _ id) = false

abbrev pub is_held : Option HoldState → Bool
is_held none = false
is_held (some s) = is_live s

-- A held reference refuses every reservation.
pub reserve_hold-held :
    (now : ℕ) (r : Reservation) (t : List HoldRow) (s : HoldState)
    → hold_state r.reference t ≡ some s
    → is_live s ≡ true
    → reserve_hold now r t ≡ (t, replayed s)
unfolding reserve_hold hold_state
reserve_hold-held now r t s e live = ground arith

reserves-held :
    (now : ℕ) (r : Reservation) (t : List HoldRow) (reference : String)
    → is_held (hold_state reference t) ≡ true
    → hold_state reference (reserve_hold now r t).0 ≡ hold_state reference t
reserves-held now r t reference h = elim (Bool-cases (r.reference == reference)) [
  | inl same ↦
      let q : r.reference ≡ reference = (eq_iff r.reference reference).0 same in
      elim (Option-cases (hold_state reference t)) [
        | inl missing ↦ ground arith
        | inr (s, e) ↦
            let refused = reserve_hold-held now r t s (rw q e) (rw e at h) in
            ap (λ (x : List HoldRow × HoldResult). hold_state reference x.0) refused
      ]
  | inr different ↦
      reserve_hold-other now r t reference (λ q. ground (arith, eq_iff r.reference reference))
]

transitions-consumed :
    (now : ℕ) (reference : String) (to : HoldState) (id : Option String) (t : List HoldRow)
    → hold_state reference t ≡ some consumed
    → hold_state reference (transition_hold now reference to id t).0 ≡ some consumed
unfolding transition_hold hold_state
transitions-consumed now reference reserved id t e = e
transitions-consumed now reference to id t e =
    elim (Option-cases (find_row (has_reference reference) t)) [
      | inl missing ↦ ground arith
      | inr (h, found) ↦ ground (arith, found_moved now reference to id t reference)
    ]

apply-consumed :
    (now : ℕ) (c : Call) (t : List HoldRow) (reference : String)
    → hold_state reference t ≡ some consumed
    → hold_state reference (apply now c t) ≡ some consumed
apply-consumed now (reserves r) t reference e = reserves-held now r t reference (rw e) ∙ e
apply-consumed now (transitions other to id) t reference e =
    elim (Bool-cases (other == reference)) [
      | inl same ↦
          let q : other ≡ reference = (eq_iff other reference).0 same in
          subst (λ x. hold_state reference (transition_hold now x to id t).0 ≡ some consumed)
            (sym q) (transitions-consumed now reference to id t e)
      | inr different ↦
          transition_hold-other now other to id t reference
            (λ q. ground (arith, eq_iff other reference))
          ∙ e
    ]

-- A consumed authorization is spent for good: whatever calls follow, it stays consumed.
pub run-consumed :
    (cs : List (ℕ × Call)) (t : List HoldRow) (reference : String)
    → hold_state reference t ≡ some consumed
    → hold_state reference (run cs t) ≡ some consumed
unfolding run
run-consumed [] t reference e = e
run-consumed ((now, c) ∷ cs) t reference e =
    run-consumed cs (apply now c t) reference (apply-consumed now c t reference e)

transitions-held :
    (now : ℕ) (reference : String) (to : HoldState) (id : Option String) (t : List HoldRow)
    → is_held (hold_state reference t) ≡ true
    → to ≢ released
    → is_held (hold_state reference (transition_hold now reference to id t).0) ≡ true
unfolding transition_hold hold_state
transitions-held now reference reserved id t h ne = h
transitions-held now reference to id t h ne =
    elim (Option-cases (find_row (has_reference reference) t)) [
      | inl missing ↦ ground arith
      | inr (row, found) ↦ ground (arith, found_moved now reference to id t reference)
    ]

to-ne-released :
    (reference other : String) (to : HoldState) (id : Option String)
    → releases reference (transitions other to id) ≡ false
    → (other == reference) ≡ true
    → to ≢ released
to-ne-released reference other released id r q e = cc
to-ne-released reference other _ id r q e = cc

apply-held :
    (now : ℕ) (c : Call) (t : List HoldRow) (reference : String)
    → is_held (hold_state reference t) ≡ true
    → releases reference c ≡ false
    → is_held (hold_state reference (apply now c t)) ≡ true
apply-held now (reserves r) t reference h k = ap is_held (reserves-held now r t reference h) ∙ h
apply-held now (transitions other to id) t reference h k = elim (Bool-cases (other == reference)) [
  | inl same ↦
      let q : other ≡ reference = (eq_iff other reference).0 same in
      subst (λ x. is_held (hold_state reference (transition_hold now x to id t).0) ≡ true) (sym q)
        (transitions-held now reference to id t h (to-ne-released reference other to id k same))
  | inr different ↦
      ap is_held (
        transition_hold-other now other to id t reference
          (λ q. ground (arith, eq_iff other reference)))
      ∙ h
]

abbrev pub NoRelease : String → List (ℕ × Call) → Type 0
NoRelease reference cs = All (λ (x : ℕ × Call). releases reference x.1 ≡ false) cs

run-held :
    (cs : List (ℕ × Call)) (t : List HoldRow) (reference : String)
    → is_held (hold_state reference t) ≡ true
    → NoRelease reference cs
    → is_held (hold_state reference (run cs t)) ≡ true
unfolding run
run-held [] t reference h k = h
run-held ((now, c) ∷ cs) t reference h (k, ks) =
    run-held cs (apply now c t) reference (apply-held now c t reference h k) ks

-- Once a reservation is granted, no later one of the same authorization reference is granted after
-- any history of calls that has no release of that reference.
pub granted_once :
    (now later : ℕ) (r r' : Reservation) (cs : List (ℕ × Call)) (t : List HoldRow)
    → (reserve_hold now r t).1 ≡ granted
    → r'.reference ≡ r.reference
    → NoRelease r.reference cs
    → (reserve_hold later r' (run cs (reserve_hold now r t).0)).1 ≢ granted
granted_once now later r r' cs t e same k again =
    let t' = run cs (reserve_hold now r t).0 in
    let held =
      run-held cs (reserve_hold now r t).0 r.reference (ap is_held (granted_state now r t e)) k in
    ground (arith, (granted_iff later r' t').0 again)
