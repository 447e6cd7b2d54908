-- ===== src/Store/Holds/Exclusive.antt =====
-- References and bindings in the table of src/storage/receipts/holds.ts under each of its calls.
use agent_commerce.Prelude.{
  All, Bool, List, Option, String, [], arith, eq_iff, false, ℕ, ◌&&◌, ◌==◌, ◌||◌, ◌∷◌, ◌≡◌,
  Bool-cases, Option-cases, inl, inr, ◌++◌, All-tt,
}
use agent_commerce.Sql.{on_match, find_row, update_rows}
use agent_commerce.Sql.Laws.{Apart, Apart-append, Apart-update_rows, find_row-none}
use agent_commerce.Core.Transaction.{HoldState, reserved}
use agent_commerce.Store.Holds.{
  HoldRow, Reservation, binds, has_reference, is_live, is_renewable, moved, moves, new_row, renewed,
  Call, claim_binding, reserve_hold, reserves, run, transition_hold, transitions,
}

-- Two rows clash if they have one reference, or one binding while both are live.
abbrev pub clash : HoldRow → HoldRow → Bool
clash h g =
    h.reference == g.reference
    || (h.binding_reference == g.binding_reference && (is_live h.state && is_live g.state))

abbrev pub IsValid : List HoldRow → Type 0
IsValid t = Apart clash t

-- A live hold of another authorization on the same binding would have been found.
abbrev IsElsewhere : Reservation → HoldRow → Type 0
IsElsewhere r h = binds r.binding_reference r.reference h ≡ false

clash-new_row :
    (now : ℕ) (r : Reservation) (h : HoldRow)
    → has_reference r.reference h ≡ false
    → IsElsewhere r h
    → clash h (new_row now r) ≡ false
clash-new_row now r h a b = ground arith

All-clash-new_row :
    (now : ℕ) (r : Reservation) (t : List HoldRow)
    → All (λ h. has_reference r.reference h ≡ false) t
    → All (IsElsewhere r) t
    → All (λ h. clash h (new_row now r) ≡ false) t
All-clash-new_row now r [] a b = tt
All-clash-new_row now r (h ∷ t) (ah, a) (bh, b) =
    (clash-new_row now r h ah bh, All-clash-new_row now r t a b)

clash-renewed :
    (now : ℕ) (r : Reservation) (h g : HoldRow)
    → IsElsewhere r h
    → IsElsewhere r g
    → clash h g ≡ false
    → clash
        (on_match (is_renewable r.reference) (renewed now r) h)
        (on_match (is_renewable r.reference) (renewed now r) g)
      ≡ false
clash-renewed now r h g a b c = ground (
  arith,
  eq_iff h.reference r.reference,
  eq_iff g.reference r.reference,
  eq_iff h.reference g.reference,
  eq_iff h.binding_reference r.binding_reference,
  eq_iff g.binding_reference r.binding_reference,
  eq_iff r.binding_reference g.binding_reference,
)

clash-moved :
    (now : ℕ) (reference : String) (to : HoldState) (id : Option String) (h g : HoldRow)
    → clash h g ≡ false
    → clash
        (on_match (moves reference id) (moved now to) h)
        (on_match (moves reference id) (moved now to) g)
      ≡ false
clash-moved now reference to id h g c = ground arith

claim_binding-IsValid :
    (r : Reservation) (t t' : List HoldRow)
    → IsValid t
    → (All (IsElsewhere r) t → IsValid t')
    → IsValid (claim_binding r t t').0
unfolding claim_binding
claim_binding-IsValid r t t' v f =
    elim (Option-cases (find_row (binds r.binding_reference r.reference) t)) [
      | inl free ↦ rw (free, claim_binding) (f (find_row-none _ t free))
      | inr (other, held) ↦ rw (held, claim_binding) v
    ]

pub reserve_hold-IsValid :
    (now : ℕ) (r : Reservation) (t : List HoldRow) → IsValid t → IsValid (reserve_hold now r t).0
unfolding reserve_hold
reserve_hold-IsValid now r t v = elim (Option-cases (find_row (has_reference r.reference) t)) [
  | inl fresh ↦
      rw (fresh, reserve_hold)
        (claim_binding-IsValid r t (t ++ new_row now r ∷ []) v (λ free.
          Apart-append clash (new_row now r) t
            (All-clash-new_row now r t (find_row-none _ t fresh) free) v))
  | inr (h, found) ↦ elim (Bool-cases (is_live h.state)) [
    | inl live ↦ rw (found, reserve_hold) (rw live v)
    | inr over ↦
        rw (found, reserve_hold)
          (rw over (
            claim_binding-IsValid r t _ v (λ free.
              Apart-update_rows clash (is_renewable r.reference) (renewed now r) (IsElsewhere r)
                (λ x y a b c. clash-renewed now r x y a b c) t free v)))
  ]
]

moved-IsValid :
    (now : ℕ) (reference : String) (to : HoldState) (id : Option String) (t : List HoldRow)
    → IsValid t
    → IsValid (update_rows (moves reference id) (moved now to) t)
moved-IsValid now reference to id t v =
    Apart-update_rows clash (moves reference id) (moved now to) (λ _. Unit {0})
      (λ x y _ _ c. clash-moved now reference to id x y c) t (All-tt t) v

pub transition_hold-IsValid :
    (now : ℕ) (reference : String) (to : HoldState) (id : Option String) (t : List HoldRow)
    → IsValid t
    → IsValid (transition_hold now reference to id t).0
unfolding transition_hold
transition_hold-IsValid now reference reserved id t v = v
transition_hold-IsValid now reference to id t v = moved-IsValid now reference to id t v

-- In a table in which no reference has two rows and no two live holds share a binding, any history
-- of calls keeps both.
pub run-IsValid : (cs : List (ℕ × Call)) (t : List HoldRow) → IsValid t → IsValid (run cs t)
unfolding run
run-IsValid [] t v = v
run-IsValid ((now, reserves r) ∷ cs) t v = run-IsValid cs _ (reserve_hold-IsValid now r t v)
run-IsValid ((now, transitions ref to id) ∷ cs) t v =
    run-IsValid cs _ (transition_hold-IsValid now ref to id t v)
