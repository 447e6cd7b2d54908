-- ===== src/Pipeline.antt =====
-- src/core/execution/pipeline: one purchase. The code's calls of providers, the backend and the store
-- are answered by an environment, and each call is an effect in the order of the run.
mod Tests
pub mod Context
pub mod Marks
pub mod Settlement
pub mod Delivery
pub mod Authorization
pub mod Refusal
pub mod Reserving
pub mod Admission
pub mod Execute
use agent_commerce.Prelude.{Bool, List, Option, String, false, none, true, ℕ}
use agent_commerce.Json.{Json}
use agent_commerce.Core.Time.{IsoTimestamp}
use agent_commerce.Core.Errors.{CommerceErrorCode}
use agent_commerce.Core.Attempt.{AttemptStatus}
use agent_commerce.Core.Transaction.{HoldState, consumed, released, uncertain}
use agent_commerce.Store.Journal.Writes.{AttemptUpdate, StepKind}
use agent_commerce.Store.Journal.Reserve.{Reservation}

-- The details of a CommerceError that the pipeline reads or sets. Of the payment in the error of a
-- backend that failed after settlement, the network, the payer and the reference are kept.
pub record Details : Type 0 where
  pub status : Option ℕ
  pub settlement_not_submitted : Bool
  pub reason : Option String
  pub transaction_hash : Option String
  pub attempt_status : Option AttemptStatus
  pub settlement_uncertain : Bool
  pub challenge : Option Json
  pub network : Option String
  pub payer : Option String
  pub payment_reference : Option String

-- An absent `http_status` stands for that of the code.
pub record CommerceError : Type 0 where
  pub code : CommerceErrorCode
  pub message : String
  pub http_status : Option ℕ
  pub details : Details

abbrev pub no_details : Details
no_details = record {
  status = none;
  settlement_not_submitted = false;
  reason = none;
  transaction_hash = none;
  attempt_status = none;
  settlement_uncertain = false;
  challenge = none;
  network = none;
  payer = none;
  payment_reference = none;
}

abbrev pub commerce_error : CommerceErrorCode → String → CommerceError
commerce_error code message = record {
  code = code;
  message = message;
  http_status = none;
  details = no_details;
}

-- A thrown value: a CommerceError, another Error with its message, or any other value.
pub data Thrown : Type 0 where
  typed : CommerceError → Thrown
  untyped : Option String → Thrown

pub data Answer {ℓ} (A : Type ℓ) : Type ℓ where
  answers : A → Answer A
  throws : Thrown → Answer A

-- `toCommerceError`
unfoldable pub to_commerce_error : Thrown → CommerceErrorCode → String → CommerceError
to_commerce_error (typed e) code message = e
to_commerce_error (untyped m) code message = commerce_error code message

-- `PaymentResult['status']`
pub data PaymentStatus : Type 0 where
  verified settled rejected : PaymentStatus

pub record PaymentResult : Type 0 where
  pub status : PaymentStatus
  pub external_reference : Option String
  pub payer : Option String
  pub payee : Option String
  pub amount : String
  pub currency : String
  pub network : Option String
  pub asset : Option String
  pub replay_key : Option String
  pub rejection_reason : Option String
  pub metadata : Option Json

pub record PaymentRequirement : Type 0 where
  pub provider : String
  pub network : Option String
  pub asset : Option String
  pub envelope : Option Json
  pub settle_after_backend : Bool
  pub reuse_rejected : Bool

-- `PersistenceFailure`
pub data Failure : Type 0 where
  receipt payment_attempt journal : Failure

abbrev pub failure_eq : Failure → Failure → Bool
failure_eq receipt receipt = true
failure_eq payment_attempt payment_attempt = true
failure_eq journal journal = true
failure_eq _ _ = false

pub data HoldAction : Type 0 where
  consume release mark_uncertain : HoldAction

-- HOLD_STATES
unfoldable pub hold_state_of : HoldAction → HoldState
hold_state_of consume = consumed
hold_state_of release = released
hold_state_of mark_uncertain = uncertain

-- The events of a purchase that reaches settlement, with the data that they report.
pub data Event : Type 0 where
  payment_required : Event
  payment_rejected : Option String → List Failure → Event
  payment_verified : Event
  payment_settled : Event
  authorization_rejected : CommerceErrorCode → Event
  authorization_verified : Event
  resource_requested : Event
  backend_called : ℕ → Event
  backend_failed : CommerceErrorCode → List Failure → Event
  resource_delivered : List Failure → Event

pub record BackendResponse : Type 0 where
  pub status : ℕ
  pub body : Json
  pub headers : List (String × String)

pub record Receipt : Type 0 where
  pub id : String
  pub backend_status : ℕ
  pub payment : Option PaymentResult
  pub authorization : Option String
  pub backend_error_code : Option CommerceErrorCode
  pub transaction_id : String

-- A call that leaves the pipeline; reads of the store are left out.
pub data Effect : Type 0 where
  emits : Event → Effect
  records : StepKind → Effect
  updates : AttemptUpdate → Effect
  finalizes : HoldAction → Effect
  settles : Effect
  calls_backend : Effect
  saves : Receipt → Effect
  creates_requirement : Effect
  selects : Effect
  verifies : Effect
  authorizes : Effect
  reserves : Reservation → Effect

-- `Flow`, with the effects so far, the newest first.
pub record Flow : Type 0 where
  pub failures : List Failure
  pub journaled : Bool
  pub effects : List Effect

-- A payment provider, which the pipeline only calls. Each of its functions is called at most once in
-- a run with a given argument, so that an answer depends on the argument alone.
pub record PaymentProvider : Type 0 where
  pub name : String
  pub create_requirement : Answer PaymentRequirement
  pub select_requirement : Option (PaymentRequirement → Answer PaymentRequirement)
  pub verify : PaymentRequirement → Answer PaymentResult
  pub settle : PaymentRequirement → PaymentResult → Answer PaymentResult

-- `AuthorizationVerification`
pub record AuthorizationVerification : Type 0 where
  pub method : String
  pub reference : String
  pub reservation_id : String
  pub metadata : Option Json

pub record AuthorizationProvider : Type 0 where
  pub name : String
  pub verify_and_reserve : Answer AuthorizationVerification
  pub finalize_succeeds : String → HoldAction → Bool

-- `AuthorizationHold`: `finalize` answers false if its provider throws.
pub record AuthorizationHold : Type 0 where
  pub verification : AuthorizationVerification
  pub finalize_succeeds : HoldAction → Bool

pub data Pricing : Type 0 where
  fixed : String → String → Pricing
  free dynamic : Pricing

pub record Resource : Type 0 where
  pub id : String
  pub exposed_via : List String
  pub pricing : Pricing
  pub payment_methods : List String
  pub required : List String
  pub timeout_ms : Option ℕ

-- `CanonicalRequest`; of the payment proof only its presence matters to the pipeline, of the
-- authorization its method.
pub record Request : Type 0 where
  pub request_id : String
  pub resource_id : String
  pub protocol : String
  pub input : Json
  pub has_payment : Bool
  pub authorization : Option String

-- What the rest of the options answer: the store, the backend, the clock and the ids; `read_time` is
-- the time stamp that a text is read as.
pub record Env : Type 0 where
  pub transaction_id : String
  pub receipt_id : String
  pub dispatched_at : ℕ
  pub resources : String → Option Resource
  pub providers : List PaymentProvider
  pub authorization_providers : List AuthorizationProvider
  pub validate : Resource → Json → Bool
  pub request_shape : Resource → Json → Option CommerceError
  pub reserve : Reservation → Answer (Option String)
  pub find_status : String → Answer (Option AttemptStatus)
  pub has_steps : Bool
  pub step_succeeds : StepKind → Bool
  pub update_succeeds : AttemptUpdate → Bool
  pub save_succeeds : Receipt → Bool
  pub backend : Resource → Json → Answer BackendResponse
  pub read_time : String → IsoTimestamp
  pub input_digest : Json → Option String
  pub config_digest : Resource → PaymentRequirement → String
