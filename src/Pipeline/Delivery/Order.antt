-- ===== src/Pipeline/Delivery/Order.antt =====
-- The parts of `settleAndDeliver` of src/core/execution/pipeline/index.ts, and their marks.
use agent_commerce.Pipeline.Context.{safe_persist, record_step, ◌>>=◌, pure}
use agent_commerce.Pipeline.Marks.{
  Mark, attempt_moved, has_returned, hold_marks, marks, settle_called, backend_answered,
  bind-answers, bind-throws,
}
use agent_commerce.Pipeline.Settlement.{SettleArgs, settle}
use agent_commerce.Pipeline.Settlement.Verdict.{
  record_step-marks, verdict, abandon_settlement-marks, settle-marks,
}
use agent_commerce.Pipeline.Delivery.{
  Delivered, backend_failure, deliver, save_receipt, backend_error_status, failed_receipt,
  receipt_of, after_backend, backend_deadline, optional,
}
use agent_commerce.Pipeline.{
  BackendResponse, CommerceError, Env, Flow, PaymentResult, Receipt, answers, receipt, release,
  throws, typed, backend_failed, emits, saves, Answer, Resource, backend_called, settled,
  to_commerce_error, calls_backend,
}
use agent_commerce.Prelude.{
  List, Option, arith, false, none, some, true, ◌∷◌, ◌≡◌, [], refl, ◌∙◌, ap, or_else, sym,
}
use agent_commerce.Core.Attempt
use agent_commerce.Core.Attempt.{status_eq, failed}
use agent_commerce.Core.Errors.{code_name, backend_error}
use agent_commerce.Store.Journal.Writes
use agent_commerce.Store.Journal.Writes.{hold, backend_result, backend_dispatched}

save_receipt-marks :
    (env : Env) (r : Receipt) (flow : Flow)
    → marks (save_receipt env r flow).0.effects ≡ marks flow.effects
unfolding save_receipt marks safe_persist
save_receipt-marks env r flow =
    let saved = (safe_persist (saves r) (env.save_succeeds r) receipt flow).0 in
    ground (arith, record_step-marks env (Writes.receipt r.id) saved)

deliver-marks :
    (env : Env) (args : Option SettleArgs) (payment : Option PaymentResult)
    (response : BackendResponse) (flow : Flow)
    → (marks (deliver env args payment response flow).0.effects ≡ marks flow.effects)
      × ((d : Delivered)
          → (deliver env args payment response flow).1 ≡ answers d
          → (d.payment ≡ payment)
            × (d.body ≡ response.body)
            × (d.headers ≡ response.headers)
            × (d.backend_status ≡ response.status)
            × (d.receipt.payment ≡ payment))
      × (has_returned (deliver env args payment response flow).1 ≡ true)
unfolding deliver marks
deliver-marks env args payment response flow =
    (save_receipt-marks env (receipt_of env args payment response) flow, λ d e. ground arith, refl)

-- What a settlement does, on top of what was done before.
abbrev pub settle_marks : SettleArgs → List Mark → List Mark
settle_marks args ms =
    let v = verdict (args.provider.settle args.requirement args.verification) in
    attempt_moved v.status ∷ hold_marks args.hold v.action (settle_called ∷ ms)

-- A settlement that waits for the backend.
abbrev pub late_marks : SettleArgs → Answer BackendResponse → List Mark → List Mark
late_marks args (answers response) ms = settle_marks args (backend_answered ∷ ms)
late_marks args (throws e) ms =
    attempt_moved Attempt.rejected ∷ hold_marks args.hold release (backend_answered ∷ ms)

-- The outcome carries the backend's answer.
abbrev pub IsAnswer : Answer BackendResponse → Delivered → Type 0
IsAnswer answer d =
    (response : BackendResponse) × (answer ≡ answers response)
    × (d.body ≡ response.body)
    × (d.headers ≡ response.headers)
    × (d.backend_status ≡ response.status)

-- The outcome carries the payment that its provider settled.
abbrev pub IsPaid : SettleArgs → Delivered → Type 0
IsPaid args d =
    (p : PaymentResult) × (args.provider.settle args.requirement args.verification ≡ answers p)
    × (p.status ≡ settled)
    × (d.payment ≡ some p)

backend_failure-deferred :
    (env : Env) (args : Option SettleArgs) (late : SettleArgs) (payment : Option PaymentResult)
    (e : CommerceError) (flow : Flow)
    → (marks (backend_failure env args (some late) payment e flow).0.effects
        ≡ attempt_moved Attempt.rejected ∷ hold_marks late.hold release (marks flow.effects))
      × ((backend_failure env args (some late) payment e flow).1 ≡ throws (typed e))
unfolding backend_failure marks
backend_failure-deferred env args late payment e flow =
    let recorded =
      (record_step env (backend_result (backend_error_status e) (some (code_name e.code)))
        flow).0 in
    let told = record recorded { effects = emits (backend_failed e.code []) ∷ recorded.effects } in
    ground (
      arith,
      record_step-marks env (backend_result (backend_error_status e) (some (code_name e.code)))
          flow,
      abandon_settlement-marks env late told,
    )

backend_failure-direct :
    (env : Env) (args : Option SettleArgs) (payment : Option PaymentResult) (e : CommerceError)
    (flow : Flow)
    → (marks (backend_failure env args none payment e flow).0.effects ≡ marks flow.effects)
      × (has_returned (backend_failure env args none payment e flow).1 ≡ false)
unfolding backend_failure marks
backend_failure-direct env args none e flow = (
  ground (
    arith,
    record_step-marks env (backend_result (backend_error_status e) (some (code_name e.code))) flow,
  ),
  refl,
)
backend_failure-direct env args (some p) e flow =
    let recorded =
      (record_step env (backend_result (backend_error_status e) (some (code_name e.code)))
        flow).0 in
    (
      save_receipt-marks env (failed_receipt env args p e) recorded
          ∙ (record_step-marks env
              (backend_result (backend_error_status e) (some (code_name e.code))) flow).0,
      refl,
    )

-- The flow when the backend is called.
unfoldable pub dispatched : Env → Resource → Flow → Flow
unfolding backend_deadline record_step
dispatched env resource flow =
    let step = backend_dispatched (backend_deadline env.dispatched_at resource) in
    let flow' = (record_step env step flow).0 in
    record flow' { effects = calls_backend ∷ flow'.effects }

pub dispatched-marks :
    (env : Env) (resource : Resource) (flow : Flow)
    → marks (dispatched env resource flow).effects ≡ backend_answered ∷ marks flow.effects
unfolding dispatched marks
dispatched-marks env resource flow =
    ap (λ ms. backend_answered ∷ ms)
      (record_step-marks env (backend_dispatched (backend_deadline env.dispatched_at resource))
        flow).0

-- What follows the backend's answer when no settlement waits for it.
pub after_backend-early :
    (env : Env) (args : Option SettleArgs) (payment : Option PaymentResult)
    (answer : Answer BackendResponse) (flow : Flow)
    → (marks (after_backend env args none payment answer flow).0.effects ≡ marks flow.effects)
      × ((d : Delivered)
          → (after_backend env args none payment answer flow).1 ≡ answers d
          → (d.payment ≡ payment) × IsAnswer answer d)
unfolding after_backend marks record_step safe_persist
after_backend-early env args payment (throws error) flow = (
  (backend_failure-direct env args payment
      (to_commerce_error error backend_error "Backend call failed") flow).0,
  λ d e. ground (
    arith,
    backend_failure-direct env args payment
        (to_commerce_error error backend_error "Backend call failed") flow,
  ),
)
after_backend-early env args payment (answers response) flow =
    let recorded = (record_step env (backend_result response.status none) flow).0 in
    let told = record recorded {
      effects = emits (backend_called response.status) ∷ recorded.effects;
    } in
    let (a, b, c) = deliver-marks env args payment response told in
    (
      a ∙ (record_step-marks env (backend_result response.status none) flow).0,
      λ d e. (let (x, y, v, z, w) = b d e in (x, (response, refl, y, v, z))),
    )

-- The settlement after the backend, and the delivery that it lets through.
late-out :
    (env : Env) (args : Option SettleArgs) (late : SettleArgs) (response : BackendResponse)
    (flow : Flow) (out : Flow × Answer PaymentResult)
    → settle env late flow ≡ out
    → let last =
        (optional (settle env) (some late) >>= λ l. deliver env args (or_else l none) response)
          flow in
      (marks last.0.effects ≡ marks out.0.effects)
      × ((d : Delivered)
          → last.1 ≡ answers d
          → ((p : PaymentResult) × (out.1 ≡ answers p) × (d.payment ≡ some p))
            × IsAnswer (answers response) d)
late-out env args late response flow (flow', answers p) e =
    let (a, b, c) = deliver-marks env args (some p) response flow' in
    let first = bind-answers (settle env late) (λ q. pure (some q)) flow flow' p e in
    let both =
      bind-answers (optional (settle env) (some late))
        (λ l. deliver env args (or_else l none) response) flow flow' (some p) first in
    (
      ap (λ out. marks out.0.effects) both ∙ a,
      λ d r.
          (let (x, y, v, z, w) = b d (sym (ap (λ out. out.1) both) ∙ r) in
            ((p, refl, x), (response, refl, y, v, z))),
    )
late-out env args late response flow (flow', throws x) e =
    let first = bind-throws (settle env late) (λ q. pure (some q)) flow flow' x e in
    let both =
      bind-throws (optional (settle env) (some late))
        (λ l. deliver env args (or_else l none) response) flow flow' x first in
    (
      ap (λ out. marks out.0.effects) both,
      λ d r. (let same = sym (ap (λ out. out.1) both) ∙ r in ground arith),
    )

pub after_backend-late :
    (env : Env) (args : Option SettleArgs) (late : SettleArgs) (answer : Answer BackendResponse)
    (flow : Flow) (ms : List Mark)
    → marks flow.effects ≡ backend_answered ∷ ms
    → (marks (after_backend env args (some late) none answer flow).0.effects
        ≡ late_marks late answer ms)
      × ((d : Delivered)
          → (after_backend env args (some late) none answer flow).1 ≡ answers d
          → IsPaid late d × IsAnswer answer d)
unfolding after_backend marks record_step safe_persist
after_backend-late env args late (throws error) flow ms h =
    let thrown = to_commerce_error error backend_error "Backend call failed" in
    (
      ground (arith, backend_failure-deferred env args late none thrown flow),
      λ d e. ground (arith, backend_failure-deferred env args late none thrown flow),
    )
after_backend-late env args late (answers response) flow ms h =
    let recorded = (record_step env (backend_result response.status none) flow).0 in
    let told = record recorded {
      effects = emits (backend_called response.status) ∷ recorded.effects;
    } in
    let (a, b) = late-out env args late response told (settle env late told) refl in
    let (x, y, z) = settle-marks env late told in
    let before = (record_step-marks env (backend_result response.status none) flow).0 ∙ h in
    (
      a ∙ x ∙ ap (settle_marks late) before,
      λ d r.
          (let ((p, returned, paid), answer) = b d r in
            let (settled_it, status) = z p returned in ((p, settled_it, status, paid), answer)),
    )
