-- ===== src/Pipeline/Marks.antt =====
-- What a run does to the money, the authorization and the backend, without its events, its journal
-- steps and its receipt.
use agent_commerce.Pipeline.Context.{Stage, ◌>>=◌}
use agent_commerce.Store.Journal.Reserve.{Reservation}
use agent_commerce.Core.Attempt.{AttemptStatus}
use agent_commerce.Prelude.{
  Bool, List, Option, [], false, none, some, true, ◌∷◌, inl, inr, refl, ◌≡◌, ◌⊎◌, ap,
}
use agent_commerce.Pipeline.{
  settled, rejected, verified, Answer, AuthorizationHold, Effect, HoldAction, answers,
  calls_backend, finalizes, reserves, settles, throws, updates, Thrown, PaymentStatus, Flow,
}

pub data Mark : Type 0 where
  attempt_opened : Reservation → Mark
  settle_called : Mark
  backend_answered : Mark
  hold_moved : HoldAction → Mark
  attempt_moved : AttemptStatus → Mark

unfoldable pub marks : List Effect → List Mark
marks [] = []
marks (settles ∷ es) = settle_called ∷ marks es
marks (calls_backend ∷ es) = backend_answered ∷ marks es
marks (finalizes a ∷ es) = hold_moved a ∷ marks es
marks (updates u ∷ es) = attempt_moved u.status ∷ marks es
marks (reserves r ∷ es) = attempt_opened r ∷ marks es
marks (_ ∷ es) = marks es

abbrev pub hold_marks : Option AuthorizationHold → HoldAction → List Mark → List Mark
hold_marks none action ms = ms
hold_marks (some h) action ms = hold_moved action ∷ ms

abbrev pub has_returned {ℓ} : {A : Type ℓ} → Answer A → Bool
has_returned (answers a) = true
has_returned (throws e) = false

pub answer-cases {ℓ} :
    {A : Type ℓ} (a : Answer A) → ((x : A) × (a ≡ answers x)) ⊎ ((e : Thrown) × (a ≡ throws e))
answer-cases (answers x) = inl (x, refl)
answer-cases (throws e) = inr (e, refl)

pub status-cases : (s : PaymentStatus) → (s ≡ settled) ⊎ ((s ≡ rejected) ⊎ (s ≡ verified))
status-cases settled = inl refl
status-cases rejected = inr (inl refl)
status-cases verified = inr (inr refl)

-- A stage whose first part is known.
pub bind-answers {ℓ κ} :
    {A : Type ℓ} {B : Type κ} (m : Stage A) (f : A → Stage B) (flow flow' : Flow) (a : A)
    → m flow ≡ (flow', answers a)
    → (m >>= f) flow ≡ f a flow'
bind-answers {B = B} m f flow flow' a e =
    ap
      (λ out.
        (let (flow', a) = out in
          elim a as (λ _. Flow × Answer B) [
            | answers x ↦ f x flow'
            | throws e ↦ (flow', throws e)
          ]))
      e

pub bind-throws {ℓ κ} :
    {A : Type ℓ} {B : Type κ} (m : Stage A) (f : A → Stage B) (flow flow' : Flow) (thrown : Thrown)
    → m flow ≡ (flow', throws thrown)
    → (m >>= f) flow ≡ (flow', throws thrown)
bind-throws {B = B} m f flow flow' thrown e =
    ap
      (λ out.
        (let (flow', a) = out in
          elim a as (λ _. Flow × Answer B) [
            | answers x ↦ f x flow'
            | throws e ↦ (flow', throws e)
          ]))
      e
