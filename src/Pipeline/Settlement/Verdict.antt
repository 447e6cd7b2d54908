-- ===== src/Pipeline/Settlement/Verdict.antt =====
-- What src/core/execution/pipeline/settlement.ts does with the attempt and the hold, for each answer of the
-- payment provider.
use agent_commerce.Pipeline.Context.{finalize_hold, record_step, safe_persist}
use agent_commerce.Pipeline.Marks.{
  hold_marks, marks, attempt_moved, has_returned, settle_called, status-cases,
}
use agent_commerce.Pipeline.Settlement.{
  SettleArgs, not_submitted_reason, rejection_error, settle_not_submitted, settle_refused,
  settle_settled, settle_throws, settle_uncertain, abandon_settlement, settle, settle_answers,
  settle_answered,
}
use agent_commerce.Pipeline.{
  Answer, AuthorizationHold, Env, Flow, HoldAction, PaymentResult, Thrown, answers, consume,
  mark_uncertain, release, settled, throws, typed, untyped, finalizes, hold_state_of, settles,
}
use agent_commerce.Prelude.{
  Bool, Option, arith, false, if◌then◌else◌, none, refl, some, ◌≡◌, ◌∷◌, inl, inr, ap, ◌∙◌,
}
use agent_commerce.Core.Attempt.{AttemptStatus, settlement_uncertain, status_eq}
use agent_commerce.Core.Attempt
use agent_commerce.Store.Journal.Writes.{StepKind, hold, settling}

pub record Verdict : Type 0 where
  pub status : AttemptStatus
  pub action : HoldAction

-- A throw that says that nothing was submitted
abbrev pub is_not_submitted : Thrown → Bool
is_not_submitted (typed e) = e.details.settlement_not_submitted
is_not_submitted (untyped m) = false

-- What an answer of `provider.settle` means for the attempt and the hold.
abbrev pub verdict : Answer PaymentResult → Verdict
verdict (answers r) = elim r.status [
  | settled ↦ record { status = Attempt.settled; action = consume }
  | _ ↦ record { status = Attempt.rejected; action = release }
]
verdict (throws e) =
    if is_not_submitted e
    then record { status = Attempt.rejected; action = release }
    else record { status = settlement_uncertain; action = mark_uncertain }

pub record_step-marks :
    (env : Env) (k : StepKind) (flow : Flow)
    → (marks (record_step env k flow).0.effects ≡ marks flow.effects)
      × ((record_step env k flow).1 ≡ answers tt)
unfolding record_step marks safe_persist
record_step-marks env k flow = ground arith

finalize_hold-marks :
    (env : Env) (h : Option AuthorizationHold) (a : HoldAction) (flow : Flow)
    → (marks (finalize_hold env h a flow).0.effects ≡ hold_marks h a (marks flow.effects))
      × ((finalize_hold env h a flow).1 ≡ answers tt)
unfolding finalize_hold marks
finalize_hold-marks env none a flow = (refl, refl)
finalize_hold-marks env (some h) a flow = ground (
  arith,
  record_step-marks env (hold (hold_state_of a))
      (record flow { effects = finalizes a ∷ flow.effects }),
)

-- One branch of `settle`: the hold is finalized, then the attempt is updated.
settle_settled-marks :
    (env : Env) (args : SettleArgs) (r : PaymentResult) (flow : Flow)
    → (marks (settle_settled env args r flow).0.effects
        ≡ attempt_moved Attempt.settled ∷ hold_marks args.hold consume (marks flow.effects))
      × ((settle_settled env args r flow).1 ≡ answers r)
unfolding settle_settled marks safe_persist
settle_settled-marks env args r flow =
    ground (arith, finalize_hold-marks env args.hold consume flow)

settle_refused-marks :
    (env : Env) (args : SettleArgs) (r : PaymentResult) (flow : Flow)
    → (marks (settle_refused env args r flow).0.effects
        ≡ attempt_moved Attempt.rejected ∷ hold_marks args.hold release (marks flow.effects))
      × ((settle_refused env args r flow).1 ≡ throws (typed (rejection_error args r)))
unfolding settle_refused marks safe_persist
settle_refused-marks env args r flow =
    ground (arith, finalize_hold-marks env args.hold release flow)

settle_throws-marks :
    (env : Env) (args : SettleArgs) (e : Thrown) (flow : Flow)
    → (marks (settle_throws env args e flow).0.effects
        ≡ attempt_moved (verdict (throws e)).status
          ∷ hold_marks args.hold (verdict (throws e)).action (marks flow.effects))
      × (has_returned (settle_throws env args e flow).1 ≡ false)
unfolding settle_throws settle_not_submitted settle_uncertain not_submitted_reason marks
    safe_persist
settle_throws-marks env args (untyped m) flow =
    ground (arith, finalize_hold-marks env args.hold mark_uncertain flow)
settle_throws-marks env args (typed e) flow = ground (
  arith,
  finalize_hold-marks env args.hold mark_uncertain flow,
  finalize_hold-marks env args.hold release flow,
)

settle_answered-marks :
    (env : Env) (args : SettleArgs) (answer : Answer PaymentResult) (flow : Flow)
    → (marks (settle_answered env args answer flow).0.effects
        ≡ attempt_moved (verdict answer).status
          ∷ hold_marks args.hold (verdict answer).action (marks flow.effects))
      × (has_returned (settle_answered env args answer flow).1
          ≡ status_eq (verdict answer).status Attempt.settled)
      × ((r : PaymentResult)
          → (settle_answered env args answer flow).1 ≡ answers r
          → (answer ≡ answers r) × (r.status ≡ settled))
unfolding settle_answered settle_answers
settle_answered-marks env args (answers r) flow = elim (status-cases r.status) [
  | inl s ↦ ground (arith, settle_settled-marks env args r flow)
  | inr (inl s) ↦ ground (arith, settle_refused-marks env args r flow)
  | inr (inr s) ↦ ground (arith, settle_refused-marks env args r flow)
]
settle_answered-marks env args (throws (untyped m)) flow =
    ground (arith, settle_throws-marks env args (untyped m) flow)
settle_answered-marks env args (throws (typed e)) flow =
    ground (arith, settle_throws-marks env args (typed e) flow)

-- `settle` is its journal step, the call, and what follows the answer.
before_settle : Env → Flow → Flow
unfolding record_step
before_settle env flow =
    let flow' = (record_step env settling flow).0 in
    record flow' { effects = settles ∷ flow'.effects }

settle-answered :
    (env : Env) (args : SettleArgs) (flow : Flow)
    → settle env args flow
      ≡ settle_answered env args
          (args.provider.settle args.requirement args.verification)
          (before_settle env flow)
unfolding settle before_settle
settle-answered env args flow = refl

-- `settle` calls the provider once, then finalizes the hold, if there is one, and then moves the
-- attempt, both as the provider's answer says. It returns exactly if that answer is `settled`, and
-- what it returns is that answer.
pub settle-marks :
    (env : Env) (args : SettleArgs) (flow : Flow)
    → let answer = args.provider.settle args.requirement args.verification in
      let (flow', out) = settle env args flow in
      (marks flow'.effects
        ≡ attempt_moved (verdict answer).status
          ∷ hold_marks args.hold (verdict answer).action (settle_called ∷ marks flow.effects))
      × (has_returned out ≡ status_eq (verdict answer).status Attempt.settled)
      × ((r : PaymentResult) → out ≡ answers r → (answer ≡ answers r) × (r.status ≡ settled))
unfolding marks before_settle
settle-marks env args flow =
    let answer = args.provider.settle args.requirement args.verification in
    let (a, b, c) = settle_answered-marks env args answer (before_settle env flow) in
    let step = (record_step-marks env settling flow).0 in
    rw (settle-answered env args flow) (
      a
          ∙ ap
              (λ ms.
                attempt_moved (verdict answer).status
                ∷ hold_marks args.hold (verdict answer).action (settle_called ∷ ms))
              step,
      b,
      c,
    )

pub abandon_settlement-marks :
    (env : Env) (args : SettleArgs) (flow : Flow)
    → (marks (abandon_settlement env args flow).0.effects
        ≡ attempt_moved Attempt.rejected ∷ hold_marks args.hold release (marks flow.effects))
      × ((abandon_settlement env args flow).1 ≡ answers tt)
unfolding abandon_settlement marks safe_persist
abandon_settlement-marks env args flow =
    ground (arith, finalize_hold-marks env args.hold release flow)
