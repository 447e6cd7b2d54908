-- ===== src/Ap2/ReplayStore/Contract.antt =====
-- src/authorization/ap2/replay-store.ts against the contract of a spending store, and beside
-- src/storage/receipts/holds.ts.
use agent_commerce.Prelude.{
  All, List, String, ap, map, some, sym, ℕ, ◌∙◌, ◌≡◌, Option-cases, inl, inr, refl,
}
use agent_commerce.Core.Transaction.{consumed}
use agent_commerce.Store.Holds.{HoldRow, Reservation}
use agent_commerce.Store.Holds.Spends
use agent_commerce.Store.Holds.Spends.{hold_store}
use agent_commerce.Ap2.ReplayStore.{MandateRow, Presentation, mandate_state, refers}
use agent_commerce.Ap2.ReplayStore.Spends.{Names, slot, replay_store}
use agent_commerce.Sql.{find_row}
use agent_commerce.Sql.Views.{find_row-map}
use agent_commerce.Spending.{Slot, slot_of}
use agent_commerce.Spending.Runs.{AllFit, Answer, Event, bids, replay, serve, serve-replay}
use agent_commerce.Spending.Exclusive.{IsExclusive, serve-IsExclusive}
use agent_commerce.Spending.Once.{slot_state, AllRefused, serve-AllRefused}

slot_state-map :
    (reference : String) (t : List MandateRow)
    → slot_state reference (map slot t) ≡ mandate_state reference t
unfolding mandate_state
slot_state-map reference t =
    rw (find_row-map slot (refers reference) (slot_of reference) t (λ m. refl))
      (elim (Option-cases (find_row (refers reference) t)) [
        | inl missing ↦ rw missing refl
        | inr (m, found) ↦ rw found refl
      ])

module _ (jti_of : String → String) (es : List (ℕ × Event Presentation)) (t : List MandateRow)
    (f : AllFit (replay_store jti_of) es) (a : All (Names jti_of) t) where
  -- If each reference names one checkout, then the table and the answers of the replay store after
  -- any history of reservations and updates, each mandate cut down to its reference, checkout,
  -- holder and state, are those of the ledger on the same history.
  pub serve-refines :
      (map slot (serve (replay_store jti_of) es t).0, (serve (replay_store jti_of) es t).1)
      ≡ replay (bids (replay_store jti_of) es) (map slot t)
  serve-refines = serve-replay (replay_store jti_of) es t f a

  -- If each reference names one checkout, then once a mandate is consumed it stays consumed over
  -- any history, and every later reservation of it is answered that it is consumed.
  pub consumed-AllRefused :
      (reference : String)
      → mandate_state reference t ≡ some consumed
      → (mandate_state reference (serve (replay_store jti_of) es t).0 ≡ some consumed)
        × AllRefused reference (bids (replay_store jti_of) es) (serve (replay_store jti_of) es t).1
  consumed-AllRefused reference e =
      let (later, refused) =
        serve-AllRefused (replay_store jti_of) es t reference f a
          (slot_state-map reference t ∙ e) in
      (sym (slot_state-map reference _) ∙ later, refused)

  -- If each reference names one checkout, then a table in which no reference has two rows and no
  -- checkout two live mandates stays so over any history.
  pub serve-IsExclusive_mandates :
      IsExclusive (map slot t) → IsExclusive (map slot (serve (replay_store jti_of) es t).0)
  serve-IsExclusive_mandates v = serve-IsExclusive (replay_store jti_of) es t f a v

  -- If each reference names one checkout, then the replay store and the hold store of the receipt
  -- database give the same answers to any two histories that make the same bids and updates, from
  -- tables that hold the same authorizations.
  pub answers_alike :
      (hs : List (ℕ × Event Reservation)) (u : List HoldRow)
      → AllFit hold_store hs
      → bids (replay_store jti_of) es ≡ bids hold_store hs
      → map slot t ≡ map Spends.slot u
      → (serve (replay_store jti_of) es t).1 ≡ (serve hold_store hs u).1
  answers_alike hs u fh same_bids same_table =
      let same : replay (bids (replay_store jti_of) es) (map slot t)
          ≡ replay (bids hold_store hs) (map Spends.slot u) =
        rw (same_bids, same_table) refl in
      ap (λ (x : List Slot × List Answer). x.1)
        (serve-refines ∙ same ∙ sym (serve-replay hold_store hs u fh tt))
