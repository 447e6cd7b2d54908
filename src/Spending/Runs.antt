-- ===== src/Spending/Runs.antt =====
-- An interface for the stores of src/storage/receipts/holds.ts and
-- src/authorization/ap2/replay-store.ts, and what a caller sees of one over a history of calls.
use agent_commerce.Prelude.{Bool, List, Option, String, [], refl, ℕ, ◌∷◌, ◌≡◌, sym}
use agent_commerce.Core.Errors.{Result}
use agent_commerce.Store.Holds.{HoldResult}
use agent_commerce.Spending.{Target, Slot, Bid, reserve, settle}

-- A store of this kind: its state seen as a ledger, and its calls seen through that view.
pub record SpendingStore : Type 1 where
  pub State : Type 0
  pub Offer : Type 0
  pub bid : Offer → Bid
  pub view : State → List Slot
  pub IsGood : State → Type 0
  pub IsFit : Offer → Type 0
  pub take : ℕ → Offer → State → State × HoldResult
  pub close : ℕ → String → Target → Option String → State → State × Result Bool
  pub take-view :
      (now : ℕ) (r : Offer) (s : State)
      → IsFit r
      → IsGood s
      → (view (take now r s).0, (take now r s).1) ≡ reserve (bid r) (view s)
  pub close-view :
      (now : ℕ) (reference : String) (to : Target) (id : Option String) (s : State)
      → (view (close now reference to id s).0, (close now reference to id s).1)
        ≡ settle reference to id (view s)
  pub take-IsGood : (now : ℕ) (r : Offer) (s : State) → IsFit r → IsGood s → IsGood (take now r s).0
  pub close-IsGood :
      (now : ℕ) (reference : String) (to : Target) (id : Option String) (s : State)
      → IsGood s
      → IsGood (close now reference to id s).0

pub data Event (R : Type 0) : Type 0 where
  takes : R → Event R
  closes : String → Target → Option String → Event R

-- What a caller is answered.
pub data Answer : Type 0 where
  taken : HoldResult → Answer
  closed : Result Bool → Answer

-- The answers of the ledger to a history, and the ledger after it.
unfoldable pub replay : List (Event Bid) → List Slot → List Slot × List Answer
replay [] t = (t, [])
replay (takes b ∷ es) t =
    let (t', r) = reserve b t in let (t'', answers) = replay es t' in (t'', taken r ∷ answers)
replay (closes reference to id ∷ es) t =
    let (t', r) = settle reference to id t in
    let (t'', answers) = replay es t' in (t'', closed r ∷ answers)

module _ (c : SpendingStore) where
  open c use {
    State, Offer, bid, view, IsGood, IsFit, take, close, take-view, close-view, take-IsGood,
    close-IsGood,
  }

  abbrev pub bids : List (ℕ × Event Offer) → List (Event Bid)
  bids [] = []
  bids ((now, takes r) ∷ es) = takes (bid r) ∷ bids es
  bids ((now, closes reference to id) ∷ es) = closes reference to id ∷ bids es

  abbrev pub AllFit : List (ℕ × Event Offer) → Type 0
  AllFit [] = Unit
  AllFit ((now, takes r) ∷ es) = IsFit r × AllFit es
  AllFit ((now, closes reference to id) ∷ es) = AllFit es

  -- The calls of a history, each with the clock's reading.
  unfoldable pub serve : List (ℕ × Event Offer) → State → State × List Answer
  serve [] s = (s, [])
  serve ((now, takes r) ∷ es) s =
      let (s', a) = take now r s in let (s'', answers) = serve es s' in (s'', taken a ∷ answers)
  serve ((now, closes reference to id) ∷ es) s =
      let (s', a) = close now reference to id s in
      let (s'', answers) = serve es s' in (s'', closed a ∷ answers)

  pub serve-replay :
      (es : List (ℕ × Event Offer)) (s : State)
      → AllFit es
      → IsGood s
      → (view (serve es s).0, (serve es s).1) ≡ replay (bids es) (view s)
  unfolding serve replay
  serve-replay [] s f g = refl
  serve-replay ((now, takes r) ∷ es) s (fr, f) g =
      rw
        (
          sym (take-view now r s fr g),
          sym (serve-replay es (take now r s).0 f (take-IsGood now r s fr g)),
        )
        refl
  serve-replay ((now, closes reference to id) ∷ es) s f g =
      rw
        (
          sym (close-view now reference to id s),
          sym (
              serve-replay es (close now reference to id s).0 f
                (close-IsGood now reference to id s g)),
        )
        refl
