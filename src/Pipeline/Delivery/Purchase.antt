-- ===== src/Pipeline/Delivery/Purchase.antt =====
-- `settleAndDeliver` of src/core/execution/pipeline/index.ts on a paid purchase.
use agent_commerce.Pipeline.Delivery.Order.{
  IsAnswer, IsPaid, after_backend-early, after_backend-late, dispatched, dispatched-marks,
  late_marks, settle_marks,
}
use agent_commerce.Pipeline.Context.{◌>>=◌, pure}
use agent_commerce.Pipeline.Marks.{
  Mark, has_returned, marks, backend_answered, bind-answers, bind-throws,
}
use agent_commerce.Pipeline.Settlement.{SettleArgs, settle}
use agent_commerce.Pipeline.Settlement.Verdict.{verdict, settle-marks}
use agent_commerce.Pipeline.Delivery.{
  Delivered, call_backend, deferred_of, after_backend, optional, direct_of, settle_and_deliver,
}
use agent_commerce.Pipeline.{
  BackendResponse, Env, Flow, PaymentResult, answers, throws, Answer, Resource,
}
use agent_commerce.Prelude.{
  List, Option, arith, false, none, some, true, ◌∷◌, ◌≡◌, refl, ◌∙◌, ap, if◌then◌else◌, sym,
  Bool-cases, inl, inr,
}
use agent_commerce.Json.{Json}
use agent_commerce.Core.Attempt
use agent_commerce.Core.Attempt.{status_eq, failed}

-- The marks of a settlement before the backend, which is called only if it settled.
abbrev pub early_marks : SettleArgs → List Mark → List Mark
early_marks args ms =
    if status_eq (verdict (args.provider.settle args.requirement args.verification)).status
      Attempt.settled
    then backend_answered ∷ settle_marks args ms
    else settle_marks args ms

abbrev pub purchase_marks : SettleArgs → Answer BackendResponse → List Mark → List Mark
purchase_marks args answer ms =
    if args.requirement.settle_after_backend then late_marks args answer ms else early_marks args ms

call_backend-marks :
    (env : Env) (resource : Resource) (input : Json) (args deferred : Option SettleArgs)
    (payment : Option PaymentResult) (flow : Flow)
    → call_backend env resource input args deferred payment flow
      ≡ after_backend env args deferred payment
          (env.backend resource input)
          (dispatched env resource flow)
unfolding call_backend dispatched
call_backend-marks env resource input args deferred payment flow = refl

-- A payment that settles first, and the backend that is called only if it settled.
early-out :
    (env : Env) (resource : Resource) (input : Json) (args early : SettleArgs) (flow : Flow)
    (out : Flow × Answer PaymentResult)
    → settle env early flow ≡ out
    → let last =
        (optional (settle env) (some early) >>= call_backend env resource input (some args) none)
          flow in
      (marks last.0.effects ≡ (
        if has_returned out.1 then backend_answered ∷ marks out.0.effects else marks out.0.effects))
      × ((d : Delivered)
          → last.1 ≡ answers d
          → ((p : PaymentResult) × (out.1 ≡ answers p) × (d.payment ≡ some p))
            × IsAnswer (env.backend resource input) d)
early-out env resource input args early flow (flow', answers p) e =
    let first = bind-answers (settle env early) (λ q. pure (some q)) flow flow' p e in
    let both =
      bind-answers (optional (settle env) (some early))
        (call_backend env resource input (some args) none) flow flow' (some p) first
      ∙ call_backend-marks env resource input (some args) none (some p) flow' in
    let (a, b) =
      after_backend-early env (some args) (some p) (env.backend resource input)
        (dispatched env resource flow') in
    (
      ap (λ out. marks out.0.effects) both ∙ a ∙ dispatched-marks env resource flow',
      λ d r. (let (x, answer) = b d (sym (ap (λ out. out.1) both) ∙ r) in ((p, refl, x), answer)),
    )
early-out env resource input args early flow (flow', throws x) e =
    let first = bind-throws (settle env early) (λ q. pure (some q)) flow flow' x e in
    let both =
      bind-throws (optional (settle env) (some early))
        (call_backend env resource input (some args) none) flow flow' x first in
    (
      ap (λ out. marks out.0.effects) both,
      λ d r. (let same = sym (ap (λ out. out.1) both) ∙ r in ground arith),
    )

settle_and_deliver-late :
    (env : Env) (resource : Resource) (input : Json) (args : SettleArgs) (flow : Flow)
    → args.requirement.settle_after_backend ≡ true
    → settle_and_deliver env resource input (some args) flow
      ≡ after_backend env
          (some args)
          (some args)
          none
          (env.backend resource input)
          (dispatched env resource flow)
unfolding settle_and_deliver direct_of deferred_of call_backend dispatched
settle_and_deliver-late env resource input args flow e = rw e refl

settle_and_deliver-early :
    (env : Env) (resource : Resource) (input : Json) (args : SettleArgs) (flow : Flow)
    → args.requirement.settle_after_backend ≡ false
    → settle_and_deliver env resource input (some args) flow
      ≡ (optional (settle env) (some args) >>= call_backend env resource input (some args) none)
          flow
unfolding settle_and_deliver direct_of deferred_of
settle_and_deliver-early env resource input args flow e = rw e refl

-- The marks of a paid purchase, the newest first. Where the requirement settles first: the
-- settlement's, and the backend call only if the provider answered `settled`. Where it settles
-- after the backend: the backend call, and then the settlement's if the backend answered, or else
-- the release of the hold and the rejection of the attempt, with no settlement.
pub settle_and_deliver-marks :
    (env : Env) (resource : Resource) (input : Json) (args : SettleArgs) (flow : Flow)
    → marks (settle_and_deliver env resource input (some args) flow).0.effects
      ≡ purchase_marks args (env.backend resource input) (marks flow.effects)
settle_and_deliver-marks env resource input args flow =
    let answer = env.backend resource input in
    let ms = marks flow.effects in
    elim (Bool-cases args.requirement.settle_after_backend) [
      | inl e ↦
          let (a, b) =
            after_backend-late env (some args) args (env.backend resource input)
              (dispatched env resource flow) (marks flow.effects)
              (dispatched-marks env resource flow) in
          ap (λ out. marks out.0.effects) (settle_and_deliver-late env resource input args flow e)
          ∙ a
          ∙ sym (ap (λ c. if c then late_marks args answer ms else early_marks args ms) e)
      | inr e ↦
          let (a, b) = early-out env resource input args args flow (settle env args flow) refl in
          let (x, y, z) = settle-marks env args flow in
          ap (λ out. marks out.0.effects) (settle_and_deliver-early env resource input args flow e)
          ∙ a
          ∙ ap
              (λ c.
                if c
                then backend_answered ∷ marks (settle env args flow).0.effects
                else marks (settle env args flow).0.effects)
              y
          ∙ ap
              (λ ns.
                if status_eq
                  (verdict (args.provider.settle args.requirement args.verification)).status
                  Attempt.settled
                then backend_answered ∷ ns
                else ns)
              x
          ∙ sym (ap (λ c. if c then late_marks args answer ms else early_marks args ms) e)
    ]

-- If a paid purchase is delivered, then its provider answered the settlement with the status
-- `settled`, the outcome carries that answer as its payment, and the outcome's body, status and
-- headers are those of the backend.
pub settle_and_deliver-IsPaid :
    (env : Env) (resource : Resource) (input : Json) (args : SettleArgs) (flow : Flow)
    (d : Delivered)
    → (settle_and_deliver env resource input (some args) flow).1 ≡ answers d
    → IsPaid args d × IsAnswer (env.backend resource input) d
settle_and_deliver-IsPaid env resource input args flow d r =
    elim (Bool-cases args.requirement.settle_after_backend) [
      | inl e ↦
          let (a, b) =
            after_backend-late env (some args) args (env.backend resource input)
              (dispatched env resource flow) (marks flow.effects)
              (dispatched-marks env resource flow) in
          b d (sym (ap (λ out. out.1) (settle_and_deliver-late env resource input args flow e)) ∙ r)
      | inr e ↦
          let (a, b) = early-out env resource input args args flow (settle env args flow) refl in
          let (x, y, z) = settle-marks env args flow in
          let ((p, returned, paid), answer) = b d (
            sym (ap (λ out. out.1) (settle_and_deliver-early env resource input args flow e))
            ∙ r) in
          let (settled_it, status) = z p returned in ((p, settled_it, status, paid), answer)
    ]
