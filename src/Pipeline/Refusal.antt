-- ===== src/Pipeline/Refusal.antt =====
-- src/core/execution/pipeline/challenge.ts, and `refusalFor` of admission.ts: the errors of a payment
-- that is refused or replayed.
use agent_commerce.Pipeline.Settlement.{retry_challenge}
use agent_commerce.Pipeline.{
  CommerceError, Env, PaymentRequirement, PaymentResult, answers, commerce_error, no_details,
  throws,
}
use agent_commerce.Prelude.{Bool, Option, false, get_or, if◌then◌else◌, none, or_else, some}
use agent_commerce.Core.Errors
use agent_commerce.Core.Errors.{http_status, payment_invalid, payment_replayed, storage_error}
use agent_commerce.Core.Attempt.{AttemptStatus, is_finished}

-- `isFinishedAttempt` on an optional detail
abbrev pub is_finished_detail : Option AttemptStatus → Bool
is_finished_detail none = false
is_finished_detail (some s) = is_finished s

-- `replayError`
unfoldable pub replay_error : CommerceError → PaymentRequirement → CommerceError
replay_error e requirement = elim e.code [
  | Errors.payment_replayed ↦
      if is_finished_detail e.details.attempt_status
      then record e {
        http_status = some 402;
        details = record e.details {
          network = or_else requirement.network e.details.network;
          challenge = or_else requirement.envelope e.details.challenge;
        };
      }
      else elim requirement.network [
        | none ↦ e
        | some network ↦ record e {
          http_status = none;
          details = record e.details { network = some network };
        }
      ]
  | _ ↦ e
]

-- `refusalFor`
unfoldable pub payment_refusal : PaymentResult → PaymentRequirement → CommerceError
payment_refusal verification requirement =
    record (commerce_error Errors.payment_invalid
      (get_or verification.rejection_reason "Payment was rejected")) {
        details = retry_challenge requirement verification.rejection_reason;
      }

unfoldable pub refusal_for : Env → PaymentResult → PaymentRequirement → CommerceError
unfolding payment_refusal replay_error
refusal_for env verification requirement = elim verification.replay_key [
  | none ↦ payment_refusal verification requirement
  | some key ↦ elim (env.find_status key) [
    | throws error ↦ commerce_error Errors.storage_error "Payment attempt could not be read"
    | answers none ↦ payment_refusal verification requirement
    | answers (some status) ↦
        if is_finished status
        then payment_refusal verification requirement
        else replay_error
            (record (commerce_error Errors.payment_replayed
              "Payment authorization has already been used") {
                details = record no_details { attempt_status = some status };
              })
            requirement
  ]
]
