-- ===== src/Pipeline/Delivery.antt =====
-- `settleAndDeliver` of src/core/execution/pipeline/index.ts.
pub mod Order
pub mod Purchase
use agent_commerce.Pipeline.Context.{
  Stage, call, pure, record_step, safe_emit, safe_persist, throw, ◌>>=◌,
}
use agent_commerce.Pipeline.Settlement.{SettleArgs, abandon_settlement, settle}
use agent_commerce.Pipeline.{
  receipt, AuthorizationHold, BackendResponse, CommerceError, Env, Failure, PaymentResult, Receipt,
  Resource, answers, backend_called, backend_failed, calls_backend, commerce_error, no_details,
  resource_delivered, saves, settled, throws, to_commerce_error, Answer,
}
use agent_commerce.Prelude.{
  List, Option, String, [], get_or, if◌then◌else◌, none, not, or_else, some, ℕ, ◌+◌,
}
use agent_commerce.Json.{Json}
use agent_commerce.Core.Errors.{backend_error, code_name}
use agent_commerce.Core.Time.{IsoTimestamp, instant}
use agent_commerce.Core.Errors
use agent_commerce.Store.Journal.Writes.{backend_dispatched, backend_result, hold}
use agent_commerce.Store.Journal.Writes

-- The outcome `delivered`
pub record Delivered : Type 0 where
  pub backend_status : ℕ
  pub body : Json
  pub headers : List (String × String)
  pub payment : Option PaymentResult
  pub receipt : Receipt
  pub persistence_failures : List Failure

-- `backendDeadline`, with BACKEND_DEADLINE_MARGIN_MS
unfoldable pub backend_deadline : ℕ → Resource → IsoTimestamp
backend_deadline dispatched_at resource =
    instant (dispatched_at + get_or resource.timeout_ms 10000 + 5000)

-- `backendErrorStatus`
unfoldable pub backend_error_status : CommerceError → ℕ
backend_error_status e = get_or e.details.status 0

-- `saveReceipt`
unfoldable pub save_receipt : Env → Receipt → Stage (Unit {0})
unfolding safe_persist record_step
save_receipt env r flow =
    let saved = (safe_persist (saves r) (env.save_succeeds r) receipt flow).0 in
    (
      if env.save_succeeds r then (record_step env (Writes.receipt r.id) saved).0 else saved,
      answers tt,
    )

unfoldable pub reference_of : Option AuthorizationHold → Option String
reference_of none = none
reference_of (some h) = some h.verification.reference

unfoldable pub hold_of : Option SettleArgs → Option AuthorizationHold
hold_of none = none
hold_of (some args) = args.hold

-- The error of a backend that failed after the payment settled.
abbrev pub undelivered_error : PaymentResult → CommerceError
undelivered_error payment =
    record (commerce_error Errors.backend_error
      "Payment settled but the backend call failed; the payment was not refunded automatically") {
        details = record no_details {
          network = payment.network;
          payer = payment.payer;
          payment_reference = payment.external_reference;
        };
      }

-- `failedReceipt`
unfoldable pub failed_receipt : Env → Option SettleArgs → PaymentResult → CommerceError → Receipt
unfolding backend_error_status reference_of hold_of
failed_receipt env args p e = record {
  id = env.receipt_id;
  backend_status = backend_error_status e;
  payment = some p;
  authorization = reference_of (hold_of args);
  backend_error_code = some e.code;
  transaction_id = env.transaction_id;
}

unfoldable pub receipt_of :
    Env → Option SettleArgs → Option PaymentResult → BackendResponse → Receipt
unfolding reference_of hold_of
receipt_of env args payment response = record {
  id = env.receipt_id;
  backend_status = response.status;
  payment = payment;
  authorization = reference_of (hold_of args);
  backend_error_code = none;
  transaction_id = env.transaction_id;
}

-- The catch of the backend call.
unfoldable pub backend_failure :
    Env
    → Option SettleArgs
    → Option SettleArgs
    → Option PaymentResult
    → CommerceError
    → Stage Delivered
unfolding record_step save_receipt abandon_settlement backend_error_status failed_receipt
backend_failure env args deferred payment e = do
  _ ← record_step env (backend_result (backend_error_status e) (some (code_name e.code)))
  elim deferred [
    | some settle_args ↦ do
      _ ← safe_emit (backend_failed e.code [])
      _ ← abandon_settlement env settle_args
      throw e
    | none ↦ elim payment [
      | some p ↦ do
        _ ← save_receipt env (failed_receipt env args p e)
        λ flow.
            (do _ ← safe_emit (backend_failed e.code flow.failures); throw (undelivered_error p))
              flow
      | none ↦ do _ ← safe_emit (backend_failed e.code []); throw e
    ]
  ]

-- From the receipt on.
unfoldable pub deliver :
    Env → Option SettleArgs → Option PaymentResult → BackendResponse → Stage Delivered
unfolding save_receipt receipt_of
deliver env args payment response =
    let r = receipt_of env args payment response in
    do
      _ ← save_receipt env r
      λ flow.
          (do
            _ ← safe_emit (resource_delivered flow.failures)
            pure (record {
              backend_status = response.status;
              body = response.body;
              headers = response.headers;
              payment = payment;
              receipt = r;
              persistence_failures = flow.failures;
            }))
            flow

abbrev pub optional {ℓ κ} : {A : Type ℓ} {B : Type κ} → (A → Stage B) → Option A → Stage (Option B)
optional f none = pure none
optional f (some a) = do b ← f a; pure (some b)

-- The arguments of a settlement that waits for the backend, and of one that does not.
unfoldable pub deferred_of : Option SettleArgs → Option SettleArgs
deferred_of none = none
deferred_of (some args) = if args.requirement.settle_after_backend then some args else none

unfoldable pub direct_of : Option SettleArgs → Option SettleArgs
direct_of none = none
direct_of (some args) = if args.requirement.settle_after_backend then none else some args

-- What follows the backend's answer; `deferred` is the settlement that waits for it.
unfoldable pub after_backend :
    Env
    → Option SettleArgs
    → Option SettleArgs
    → Option PaymentResult
    → Answer BackendResponse
    → Stage Delivered
after_backend env args deferred payment (throws error) =
    backend_failure env args deferred payment
      (to_commerce_error error Errors.backend_error "Backend call failed")
after_backend env args deferred payment (answers response) = do
  _ ← record_step env (backend_result response.status none)
  _ ← safe_emit (backend_called response.status)
  late ← optional (settle env) deferred
  deliver env args (or_else late payment) response

unfoldable pub call_backend :
    Env
    → Resource
    → Json
    → Option SettleArgs
    → Option SettleArgs
    → Option PaymentResult
    → Stage Delivered
unfolding backend_deadline
call_backend env resource input args deferred payment = do
  _ ← record_step env (backend_dispatched (backend_deadline env.dispatched_at resource))
  answer ← call calls_backend (env.backend resource input)
  after_backend env args deferred payment answer

-- `settleAndDeliver`
unfoldable pub settle_and_deliver : Env → Resource → Json → Option SettleArgs → Stage Delivered
settle_and_deliver env resource input args = do
  payment ← optional (settle env) (direct_of args)
  call_backend env resource input args (deferred_of args) payment
