-- ===== src/Ap2/ReplayStore/Spends.antt =====
-- The methods of src/authorization/ap2/replay-store.ts as calls of a spending store.
use mathlib.Core.Option
use agent_commerce.Sql.Views.{any_row-map, find_row-map, map-update_rows, map-append}
use agent_commerce.Prelude.{
  All, List, Option, String, [], map, refl, ℕ, ◌∷◌, ◌≡◌, Bool, arith, eq_iff, All-tt, none, some,
  Bool-cases, Option-cases, inl, inr, sym, ◌++◌, All-append, not,
}
use agent_commerce.Sql.{update_rows, find_row, on_match}
use agent_commerce.Sql.Laws.{All-update_rows}
use agent_commerce.Core.Transaction.{HoldState, reserved, consumed, released, uncertain}
use agent_commerce.Ap2.ReplayStore.{
  MandateRow, Presentation, in_transition, re_reserved, transitioned, was_released, move, refers,
  reserve_mandate, same_checkout, unchanged_answer, unless_bound, new_mandate, consume,
  mark_uncertain, release,
}
use agent_commerce.Store.Holds.{is_live, hold_eq}
use agent_commerce.Core.Errors.{Result, ok}
use agent_commerce.Spending.{
  Target, to_consumed, to_released, to_uncertain, target_state, Slot, Bid, reserve, settle,
  bid_binding, slot_of, occupies, is_vacant, retaken, yields, settled, idle_answer,
}
use agent_commerce.Spending.Runs.{SpendingStore}

abbrev pub slot : MandateRow → Slot
slot m = record {
  reference = m.reference;
  binding = m.checkout_jti;
  holder = m.request_id;
  state = m.state;
}

abbrev pub bid : Presentation → Bid
bid p = record { reference = p.reference; binding = p.checkout_jti; holder = p.request_id }

not_released : (s : HoldState) → not (hold_eq s released) ≡ is_live s
not_released reserved = refl
not_released consumed = refl
not_released released = refl
not_released uncertain = refl

-- The reference is a digest of the issuer-signed token, which names one checkout.
module _ (jti_of : String → String) where
  abbrev pub Names : MandateRow → Type 0
  Names m = m.checkout_jti ≡ jti_of m.reference

  abbrev pub IsTrue : Presentation → Type 0
  IsTrue p = p.checkout_jti ≡ jti_of p.reference

  on_match-re_reserved :
      (at : ℕ) (p : Presentation)
      → IsTrue p
      → (m : MandateRow) → Names m
      → slot (on_match (was_released p.reference) (re_reserved at p) m)
        ≡ on_match (is_vacant p.reference) (retaken (bid p)) (slot m)
  on_match-re_reserved at p e m n = ground (arith, eq_iff m.reference p.reference)

  unless_bound-slot :
      (p : Presentation) (t t' : List MandateRow)
      → (map slot (unless_bound p t t').0, (unless_bound p t t').1)
        ≡ bid_binding (bid p) (map slot t) (map slot t')
  unfolding unless_bound bid_binding
  unless_bound-slot p t t' =
      elim (Option-cases (find_row (same_checkout p.checkout_jti p.reference) t)) [
        | inl free ↦ rw (bound, bid_binding, free, unless_bound) refl
        | inr (other, held) ↦ rw (bound, bid_binding, held, unless_bound) refl
      ]
    where
      bound :
          find_row (occupies p.checkout_jti p.reference) (map slot t)
          ≡ Option.map slot (find_row (same_checkout p.checkout_jti p.reference) t)
      bound =
          find_row-map slot (same_checkout p.checkout_jti p.reference)
            (occupies p.checkout_jti p.reference) t (λ m. refl)

  pub reserve_mandate-slot :
      (at : ℕ) (p : Presentation) (t : List MandateRow)
      → IsTrue p
      → All Names t
      → (map slot (reserve_mandate at p t).0, (reserve_mandate at p t).1)
        ≡ reserve (bid p) (map slot t)
  unfolding reserve_mandate reserve
  reserve_mandate-slot at p t e a = elim (Option-cases (find_row (refers p.reference) t)) [
    | inl fresh ↦
        rw (found, reserve, fresh, reserve_mandate, sym (map-append slot t (new_mandate at p)))
          (unless_bound-slot p t (t ++ new_mandate at p ∷ []))
    | inr (m, old) ↦
        rw (found, reserve, old, reserve_mandate, not_released m.state)
          (elim (Bool-cases (is_live m.state)) [
            | inl live ↦ rw live refl
            | inr over ↦ rw (over, sym renewal) (unless_bound-slot p t _)
          ])
  ]
    where
      found :
          find_row (slot_of p.reference) (map slot t)
          ≡ Option.map slot (find_row (refers p.reference) t)
      found = find_row-map slot (refers p.reference) (slot_of p.reference) t (λ m. refl)

      renewal :
          map slot (update_rows (was_released p.reference) (re_reserved at p) t)
          ≡ update_rows (is_vacant p.reference) (retaken (bid p)) (map slot t)
      renewal =
          map-update_rows slot Names (was_released p.reference) (re_reserved at p)
            (is_vacant p.reference) (retaken (bid p)) t (λ m n. on_match-re_reserved at p e m n) a

  unless_bound-Names :
      (p : Presentation) (t t' : List MandateRow)
      → All Names t
      → All Names t'
      → All Names (unless_bound p t t').0
  unfolding unless_bound
  unless_bound-Names p t t' a b =
      elim (Option-cases (find_row (same_checkout p.checkout_jti p.reference) t)) [
        | inl free ↦ rw (free, unless_bound) b
        | inr (other, held) ↦ rw (held, unless_bound) a
      ]

  pub reserve_mandate-Names :
      (at : ℕ) (p : Presentation) (t : List MandateRow)
      → IsTrue p
      → All Names t
      → All Names (reserve_mandate at p t).0
  unfolding reserve_mandate
  reserve_mandate-Names at p t e a = elim (Option-cases (find_row (refers p.reference) t)) [
    | inl fresh ↦
        rw (fresh, reserve_mandate)
          (unless_bound-Names p t _ a (All-append Names t (new_mandate at p ∷ []) a (e, tt)))
    | inr (m, old) ↦
        rw (old, reserve_mandate)
          (elim (Bool-cases (not (hold_eq m.state released))) [
            | inl live ↦ rw live a
            | inr over ↦ rw over (
                unless_bound-Names p t _ a (
                  All-update_rows Names (was_released p.reference) (re_reserved at p) t (λ r n. n)
                    a))
          ])
  ]

on_match-transitioned :
    (at : ℕ) (reference : String) (to : HoldState) (id : Option String) (m : MandateRow)
    → slot (on_match (in_transition reference id) (transitioned at to) m)
      ≡ on_match (yields reference id) (settled to) (slot m)
on_match-transitioned at reference to id m = ground arith

yields-slot :
    (reference : String) (id : Option String) (m : MandateRow)
    → yields reference id (slot m) ≡ in_transition reference id m
yields-slot reference none m = refl
yields-slot reference (some id) m = refl

answer-slot :
    (to : HoldState) (id : Option String) (m : Option MandateRow)
    → idle_answer to id (Option.map slot m) ≡ unchanged_answer to id m
unfolding unchanged_answer
answer-slot to id none = refl
answer-slot to none (some m) = refl
answer-slot to (some id) (some m) = ground arith

-- The method for a target
abbrev pub close_mandate :
    ℕ → String → Target → Option String → List MandateRow → List MandateRow × Bool
close_mandate at reference to_consumed id t = consume at reference id t
close_mandate at reference to_released id t = release at reference id t
close_mandate at reference to_uncertain id t = mark_uncertain at reference id t

close_mandate-move :
    (at : ℕ) (reference : String) (to : Target) (id : Option String) (t : List MandateRow)
    → close_mandate at reference to id t ≡ move at reference (target_state to) id t
close_mandate-move at reference to_consumed id t = refl
close_mandate-move at reference to_released id t = refl
close_mandate-move at reference to_uncertain id t = refl

move-slot :
    (at : ℕ) (reference : String) (to : Target) (id : Option String) (t : List MandateRow)
    → (
      map slot (move at reference (target_state to) id t).0,
      ok (move at reference (target_state to) id t).1,
    )
      ≡ settle reference to id (map slot t)
unfolding move settle
move-slot at reference target id t =
    let to = target_state target in
    rw
      (
        find_row-map slot (refers reference) (slot_of reference) t (λ m. refl),
        any_row-map slot (in_transition reference id) (yields reference id) t
            (yields-slot reference id),
        map-update_rows slot (λ _. Unit {0}) (in_transition reference id) (transitioned at to)
            (yields reference id) (settled to) t (λ m _. on_match-transitioned at reference to id m)
            (All-tt t),
        answer-slot to id (find_row (refers reference) t),
      )
      refl

move-Names :
    (jti_of : String → String) (at : ℕ) (reference : String) (to : HoldState) (id : Option String)
    (t : List MandateRow)
    → All (Names jti_of) t
    → All (Names jti_of) (move at reference to id t).0
unfolding move
move-Names jti_of at reference to id t a =
    All-update_rows (Names jti_of) (in_transition reference id) (transitioned at to) t (λ r n. n) a

abbrev pub answer_close :
    ℕ → String → Target → Option String → List MandateRow → List MandateRow × Result Bool
answer_close at reference to id t =
    let (t', done) = close_mandate at reference to id t in (t', ok done)

pub answer_close-slot :
    (at : ℕ) (reference : String) (to : Target) (id : Option String) (t : List MandateRow)
    → (map slot (answer_close at reference to id t).0, (answer_close at reference to id t).1)
      ≡ settle reference to id (map slot t)
answer_close-slot at reference to id t =
    rw (close_mandate-move at reference to id t) (move-slot at reference to id t)

pub answer_close-Names :
    (jti_of : String → String) (at : ℕ) (reference : String) (to : Target) (id : Option String)
    (t : List MandateRow)
    → All (Names jti_of) t
    → All (Names jti_of) (answer_close at reference to id t).0
answer_close-Names jti_of at reference to id t a =
    rw (close_mandate-move at reference to id t)
      (move-Names jti_of at reference (target_state to) id t a)

abbrev pub replay_store : (String → String) → SpendingStore
replay_store jti_of = record {
  State = List MandateRow;
  Offer = Presentation;
  bid = bid;
  view = map slot;
  IsGood = All (Names jti_of);
  IsFit = IsTrue jti_of;
  take = reserve_mandate;
  close = answer_close;
  take-view = reserve_mandate-slot jti_of;
  close-view = answer_close-slot;
  take-IsGood = reserve_mandate-Names jti_of;
  close-IsGood = answer_close-Names jti_of;
}
