-- ===== src/Spending/Exclusive.antt =====
-- References and bindings in a ledger, for the stores of src/storage/receipts/holds.ts and
-- src/authorization/ap2/replay-store.ts.
use agent_commerce.Prelude.{
  All, All-tt, Bool, Bool-cases, List, Option, Option-cases, String, [], arith, eq_iff, false, inl,
  inr, subst, sym, ℕ, ◌&&◌, ◌++◌, ◌==◌, ◌||◌, ◌∷◌, ◌≡◌,
}
use agent_commerce.Sql.{find_row, on_match}
use agent_commerce.Sql.Laws.{Apart, Apart-append, Apart-update_rows, find_row-none}
use agent_commerce.Core.Transaction.{HoldState}
use agent_commerce.Store.Holds.{is_live}
use agent_commerce.Spending.{
  Bid, Slot, Target, bid_binding, is_vacant, occupies, reserve, retaken, settle, settled, slot_of,
  taken_by, target_state, yields,
}
use agent_commerce.Spending.Runs.{
  AllFit, Answer, Event, SpendingStore, bids, closes, replay, serve, serve-replay, takes,
}

-- Two slots clash if they have one reference, or one binding while both are live.
abbrev pub clash : Slot → Slot → Bool
clash s r =
    s.reference == r.reference || (s.binding == r.binding && (is_live s.state && is_live r.state))

abbrev pub IsExclusive : List Slot → Type 0
IsExclusive t = Apart clash t

abbrev IsElsewhere : Bid → Slot → Type 0
IsElsewhere b s = occupies b.binding b.reference s ≡ false

All-clash-taken_by :
    (b : Bid) (t : List Slot)
    → All (λ s. slot_of b.reference s ≡ false) t
    → All (IsElsewhere b) t
    → All (λ s. clash s (taken_by b) ≡ false) t
All-clash-taken_by b [] h e = tt
All-clash-taken_by b (s ∷ t) (hs, h) (es, e) = (ground arith, All-clash-taken_by b t h e)

clash-retaken :
    (b : Bid) (s r : Slot)
    → IsElsewhere b s
    → IsElsewhere b r
    → clash s r ≡ false
    → clash
        (on_match (is_vacant b.reference) (retaken b) s)
        (on_match (is_vacant b.reference) (retaken b) r)
      ≡ false
clash-retaken b s r x y c = ground (
  arith,
  eq_iff s.reference b.reference,
  eq_iff r.reference b.reference,
  eq_iff s.reference r.reference,
  eq_iff s.binding b.binding,
  eq_iff r.binding b.binding,
  eq_iff b.binding r.binding,
)

clash-settled :
    (reference : String) (to : HoldState) (id : Option String) (s r : Slot)
    → clash s r ≡ false
    → clash
        (on_match (yields reference id) (settled to) s)
        (on_match (yields reference id) (settled to) r)
      ≡ false
clash-settled reference to id s r c = ground arith

bid_binding-IsExclusive :
    (b : Bid) (t t' : List Slot)
    → IsExclusive t
    → (All (IsElsewhere b) t → IsExclusive t')
    → IsExclusive (bid_binding b t t').0
unfolding bid_binding
bid_binding-IsExclusive b t t' v f =
    elim (Option-cases (find_row (occupies b.binding b.reference) t)) [
      | inl free ↦ rw (free, bid_binding) (f (find_row-none _ t free))
      | inr (other, held) ↦ rw (held, bid_binding) v
    ]

reserve-IsExclusive : (b : Bid) (t : List Slot) → IsExclusive t → IsExclusive (reserve b t).0
unfolding reserve
reserve-IsExclusive b t v = elim (Option-cases (find_row (slot_of b.reference) t)) [
  | inl fresh ↦
      rw (fresh, reserve)
        (bid_binding-IsExclusive b t (t ++ taken_by b ∷ []) v (λ free.
          Apart-append clash (taken_by b) t (All-clash-taken_by b t (find_row-none _ t fresh) free)
            v))
  | inr (s, found) ↦ elim (Bool-cases (is_live s.state)) [
    | inl live ↦ rw (found, reserve) (rw live v)
    | inr over ↦
        rw (found, reserve)
          (rw over (
            bid_binding-IsExclusive b t _ v (λ free.
              Apart-update_rows clash (is_vacant b.reference) (retaken b) (IsElsewhere b)
                (λ x y p q c. clash-retaken b x y p q c) t free v)))
  ]
]

settle-IsExclusive :
    (reference : String) (to : Target) (id : Option String) (t : List Slot)
    → IsExclusive t
    → IsExclusive (settle reference to id t).0
unfolding settle
settle-IsExclusive reference to id t v =
    Apart-update_rows clash (yields reference id) (settled (target_state to)) (λ _. Unit {0})
      (λ x y _ _ c. clash-settled reference (target_state to) id x y c) t (All-tt t) v

pub replay-IsExclusive :
    (es : List (Event Bid)) (t : List Slot) → IsExclusive t → IsExclusive (replay es t).0
unfolding replay
replay-IsExclusive [] t v = v
replay-IsExclusive (takes b ∷ es) t v =
    replay-IsExclusive es (reserve b t).0 (reserve-IsExclusive b t v)
replay-IsExclusive (closes reference to id ∷ es) t v =
    replay-IsExclusive es (settle reference to id t).0 (settle-IsExclusive reference to id t v)

module _ (c : SpendingStore) where
  open c use {State, Offer, view, IsGood}

  -- Any store of this kind keeps references and live bindings apart.
  pub serve-IsExclusive :
      (es : List (ℕ × Event Offer)) (s : State)
      → AllFit c es
      → IsGood s
      → IsExclusive (view s)
      → IsExclusive (view (serve c es s).0)
  serve-IsExclusive es s f g v =
      subst (λ (x : List Slot × List Answer). IsExclusive x.0) (sym (serve-replay c es s f g))
        (replay-IsExclusive (bids c es) (view s) v)
