-- ===== src/Pipeline/Admission.antt =====
-- src/core/execution/pipeline/admission.ts: the payment phase.
pub mod Admitted
pub mod Order
use agent_commerce.Pipeline.Reserving.{reservation_of}
use agent_commerce.Pipeline.Refusal.{refusal_for, replay_error}
use agent_commerce.Pipeline.Context.{Stage, call, pure, safe_emit, throw, ◌>>=◌}
use agent_commerce.Pipeline.Authorization.{authorize_and_reserve, resolve_authorization_providers}
use agent_commerce.Pipeline.Settlement.{SettleArgs, retry_challenge}
use agent_commerce.Pipeline.{
  Answer, AuthorizationHold, AuthorizationProvider, CommerceError, Env, PaymentProvider,
  PaymentRequirement, PaymentResult, Request, Resource, Thrown, answers, commerce_error,
  creates_requirement, finalizes, no_details, payment_rejected, payment_verified, rejected, release,
  reserves, throws, to_commerce_error, typed, untyped, verified, verifies, Flow, selects,
}
use agent_commerce.Pipeline
use agent_commerce.Prelude.{
  Bool, List, Option, String, [], false, get_or, if◌then◌else◌, map, none, not, or_else, some, ◌&&◌,
  ◌==◌, ◌∷◌,
}
use agent_commerce.Core.Errors.{
  code_name, http_status, payment_invalid, payment_provider_unavailable, payment_replayed,
  storage_error,
}
use agent_commerce.Core.Errors
use agent_commerce.Json.{Json, field_of, is_record, text_of}
use agent_commerce.Core.Time.{IsoTimestamp}
use agent_commerce.Core.Attempt.{AttemptStatus, is_finished, failed}
use agent_commerce.Store.Journal.Reserve.{NewTransaction, Reservation, attempt}

pub data Admission : Type 0 where
  payment_required : PaymentRequirement → List String → Admission
  admitted : SettleArgs → Admission

unfoldable pub find_provider : String → List PaymentProvider → Option PaymentProvider
find_provider name [] = none
find_provider name (p ∷ ps) = if p.name == name then some p else find_provider name ps

-- `pickProvider`
unfoldable pub pick_provider : List PaymentProvider → List String → Option PaymentProvider
unfolding find_provider
pick_provider providers [] = none
pick_provider providers (method ∷ methods) =
    or_else (find_provider method providers) (pick_provider providers methods)

-- The reason that `payment.rejected` reports for a refusal.
abbrev pub refusal_reason : CommerceError → PaymentResult → Option String
refusal_reason refusal verification = elim refusal.code [
  | Errors.payment_invalid ↦ verification.rejection_reason
  | _ ↦ some (code_name refusal.code)
]

-- The catch of `reservePaymentAttempt`: the hold is released.
unfoldable pub reserve_failed :
    PaymentRequirement → Option AuthorizationHold → Thrown → Stage Admission
reserve_failed requirement h error flow =
    let mapped =
      to_commerce_error error Errors.storage_error "Payment attempt could not be recorded" in
    let after : Flow = elim h [
      | none ↦ flow
      | some held ↦ record flow { effects = finalizes release ∷ flow.effects }
    ] in
    (do
      _ ← safe_emit (payment_rejected (some (code_name mapped.code)) [])
      throw (replay_error mapped requirement))
      after

-- `flow.journaled = attempt.transactionId === flow.transactionId && …`
abbrev pub is_journaled : Env → Option String → Bool
is_journaled env none = false
is_journaled env (some id) = id == env.transaction_id && env.has_steps

-- What follows `reservePaymentAttempt`.
unfoldable pub reserve_answered : Env → SettleArgs → Answer (Option String) → Stage Admission
reserve_answered env args (throws error) flow = reserve_failed args.requirement args.hold error flow
reserve_answered env args (answers transaction_id) flow =
    (do _ ← safe_emit payment_verified; pure (admitted args))
      (record flow { journaled = is_journaled env transaction_id })

abbrev pub settle_args_of :
    PaymentProvider
    → PaymentRequirement
    → PaymentResult
    → String
    → Option AuthorizationHold
    → SettleArgs
settle_args_of provider requirement verification key held = record {
  provider = provider;
  requirement = requirement;
  verification = verification;
  replay_key = key;
  hold = held;
}

-- The replay reservation.
unfoldable pub reserve_held :
    Env → Request → Resource → Json → SettleArgs → Option AuthorizationHold → Stage Admission
unfolding reservation_of
reserve_held env request resource input args held =
    let r =
      reservation_of env request resource input args.provider args.requirement args.verification
        args.replay_key held in
    do answer ← call (reserves r) (env.reserve r); reserve_answered env args answer

-- `!verification.replayKey` holds of an absent and of an empty key.
abbrev pub given_key : Option String → Option String
given_key none = none
given_key (some key) = if key == "" then none else some key

-- The reservations of a payment that is verified.
unfoldable pub reserve_payment :
    Env
    → Request
    → Resource
    → Json
    → PaymentProvider
    → List AuthorizationProvider
    → PaymentRequirement
    → PaymentResult
    → Stage Admission
reserve_payment env request resource input provider authorizations requirement verification =
    elim (given_key verification.replay_key) [
      | none ↦ do
        _ ← safe_emit (payment_rejected (some "missing-replay-key") [])
        throw (commerce_error Errors.payment_invalid "Payment provider did not return a replay key")
      | some key ↦ do
        held ← authorize_and_reserve request authorizations
        reserve_held env request resource input
            (settle_args_of provider requirement verification key held) held
    ]

-- A refused payment, from a throw or from the answer of `verify`.
unfoldable pub refuse_payment : Option String → CommerceError → Stage Admission
refuse_payment reason e = do _ ← safe_emit (payment_rejected reason []); throw e

-- `verification.status !== 'verified'`
unfoldable pub verify_answered :
    Env
    → Request
    → Resource
    → Json
    → PaymentProvider
    → List AuthorizationProvider
    → PaymentRequirement
    → Answer PaymentResult
    → Stage Admission
verify_answered env request resource input provider authorizations requirement (throws error) =
    let mapped : CommerceError = elim error [
      | typed e ↦ e
      | untyped m ↦ record (commerce_error Errors.payment_invalid "Payment verification failed") {
        details = retry_challenge requirement none;
      }
    ] in
    refuse_payment (some (code_name mapped.code)) mapped
verify_answered env request resource input provider authorizations requirement
      (answers verification) =
    elim verification.status [
      | verified ↦
          reserve_payment env request resource input provider authorizations requirement
            verification
      | _ ↦
          let refusal = refusal_for env verification requirement in
          refuse_payment (refusal_reason refusal verification) refusal
    ]

-- `selectRequirement`, where a provider has it
abbrev pub selected_requirement :
    PaymentProvider → PaymentRequirement → Stage (Answer PaymentRequirement)
selected_requirement provider requirement = elim provider.select_requirement [
  | none ↦ pure (answers requirement)
  | some select ↦ call selects (select requirement)
]

abbrev names_of : List AuthorizationProvider → List String
names_of ps = map (λ p. p.name) ps

-- What follows the selection, and the verification.
unfoldable pub verify_selected :
    Env
    → Request
    → Resource
    → Json
    → PaymentProvider
    → List AuthorizationProvider
    → PaymentRequirement
    → Answer PaymentRequirement
    → Stage Admission
verify_selected env request resource input provider authorizations requirement (throws error) =
    verify_answered env request resource input provider authorizations requirement (throws error)
verify_selected env request resource input provider authorizations requirement (answers chosen) = do
  answer ← call verifies (provider.verify chosen)
  verify_answered env request resource input provider authorizations chosen answer

-- The offer that the proof pays, and its verification.
unfoldable pub verify_payment :
    Env
    → Request
    → Resource
    → Json
    → PaymentProvider
    → List AuthorizationProvider
    → PaymentRequirement
    → Stage Admission
verify_payment env request resource input provider authorizations requirement = do
  selected ← selected_requirement provider requirement
  verify_selected env request resource input provider authorizations requirement selected

-- The outcome `payment-required`
unfoldable pub challenge_payment : PaymentRequirement → List AuthorizationProvider → Stage Admission
challenge_payment requirement authorizations = do
  _ ← safe_emit Pipeline.payment_required
  pure (payment_required requirement (names_of authorizations))

-- What follows `createRequirement`.
unfoldable pub required_answered :
    Env
    → Request
    → Resource
    → Json
    → PaymentProvider
    → List AuthorizationProvider
    → Answer PaymentRequirement
    → Stage Admission
unfolding challenge_payment
required_answered env request resource input provider authorizations (throws error) =
    throw (
      to_commerce_error error Errors.payment_provider_unavailable "Payment provider is unavailable")
required_answered env request resource input provider authorizations (answers requirement) =
    if request.has_payment
    then verify_payment env request resource input provider authorizations requirement
    else challenge_payment requirement authorizations

unfoldable pub admit_by : Env → Request → Resource → Json → Option PaymentProvider → Stage Admission
admit_by env request resource input none = throw (
    commerce_error Errors.payment_provider_unavailable
      "No enabled payment provider for the resource")
admit_by env request resource input (some provider) = do
  authorizations ← resolve_authorization_providers env.authorization_providers resource.required
  answer ← call creates_requirement provider.create_requirement
  required_answered env request resource input provider authorizations answer

-- `admitPayment`
unfoldable pub admit_payment : Env → Request → Resource → Json → Stage Admission
unfolding pick_provider
admit_payment env request resource input =
    admit_by env request resource input (pick_provider env.providers resource.payment_methods)
