-- ===== src/Pipeline/Settlement.antt =====
-- src/core/execution/pipeline/settlement.ts: `settle` and `abandonSettlement`.
pub mod Verdict
use agent_commerce.Pipeline.Context.{
  Stage, call, finalize_hold, persist_update, pure, record_step, safe_emit, safe_persist, throw,
  ◌>>=◌,
}
use agent_commerce.Pipeline.{
  CommerceError, Details, Env, PaymentRequirement, PaymentResult, Thrown, answers, backend_failed,
  commerce_error, consume, mark_uncertain, no_details, payment_rejected, payment_settled, rejected,
  release, settled, settles, throws, typed, untyped, verified, AuthorizationHold, PaymentProvider,
  Answer,
}
use agent_commerce.Prelude.{
  Bool, List, Option, String, [], false, get_or, if◌then◌else◌, none, not, or_else, some, true, ◌∷◌,
}
use agent_commerce.Core.Errors.{
  http_status, payment_provider_unavailable, payment_settlement_failed,
}
use agent_commerce.Core.Attempt.{AttemptStatus, settlement_uncertain}
use agent_commerce.Core.Attempt
use agent_commerce.Store.Journal.Writes.{AttemptUpdate, settling}

-- `SettleArgs`
pub record SettleArgs : Type 0 where
  pub provider : PaymentProvider
  pub requirement : PaymentRequirement
  pub verification : PaymentResult
  pub replay_key : String
  pub hold : Option AuthorizationHold

-- `notSubmittedReason`
unfoldable pub not_submitted_reason : Thrown → Option String
not_submitted_reason (typed e) =
    if e.details.settlement_not_submitted
    then some (get_or e.details.reason "settlement_not_submitted")
    else none
not_submitted_reason (untyped m) = none

-- `settlementTxHash`
unfoldable pub settlement_tx_hash : Thrown → Option String
settlement_tx_hash (typed e) = e.details.transaction_hash
settlement_tx_hash (untyped m) = none

-- `error instanceof Error ? { rejectionReason: error.message } : {}`
unfoldable pub error_message : Thrown → Option String
error_message (typed e) = some e.message
error_message (untyped m) = m

abbrev pub update_of : String → AttemptStatus → Option String → Option String → AttemptUpdate
update_of replay_key status external_reference rejection_reason = record {
  replay_key = replay_key;
  status = status;
  external_reference = external_reference;
  rejection_reason = rejection_reason;
}

-- `retryChallenge`
unfoldable pub retry_challenge : PaymentRequirement → Option String → Details
retry_challenge requirement reason = record no_details {
  challenge = requirement.envelope;
  reason = reason;
}

-- `settlementParties`
unfoldable pub first_network : PaymentRequirement → List PaymentResult → Option String
first_network requirement [] = requirement.network
first_network requirement (r ∷ rs) = or_else r.network (first_network requirement rs)

unfoldable pub first_payer : List PaymentResult → Option String
first_payer [] = none
first_payer (r ∷ rs) = or_else r.payer (first_payer rs)

unfoldable pub with_parties : PaymentRequirement → List PaymentResult → Details → Details
unfolding first_network first_payer
with_parties requirement results details = record details {
  network = first_network requirement results;
  payer = first_payer results;
}

abbrev pub not_submitted_error : CommerceError
not_submitted_error =
    commerce_error payment_provider_unavailable
      "The payment provider could not settle the payment; nothing was charged"

unfoldable pub uncertain_error : SettleArgs → Option String → CommerceError
unfolding with_parties
uncertain_error args tx_hash =
    record (commerce_error payment_settlement_failed "Settlement could not be confirmed") {
      details =
          with_parties args.requirement (args.verification ∷ [])
            (record no_details { settlement_uncertain = true; transaction_hash = tx_hash });
    }

unfoldable pub rejection_error : SettleArgs → PaymentResult → CommerceError
unfolding with_parties retry_challenge
rejection_error args settlement = record {
  code = payment_settlement_failed;
  message = get_or settlement.rejection_reason "Settlement was rejected";
  http_status = some 402;
  details =
      with_parties args.requirement (settlement ∷ args.verification ∷ [])
        (retry_challenge args.requirement settlement.rejection_reason);
}

-- The branch of `settle` for a throw that says that nothing was submitted.
unfoldable pub settle_not_submitted : Env → SettleArgs → String → Stage PaymentResult
unfolding finalize_hold safe_persist
settle_not_submitted env args reason = do
  _ ← finalize_hold env args.hold release
  _ ← persist_update env (update_of args.replay_key Attempt.rejected none (some reason))
  λ flow.
      (do
        _ ← safe_emit (payment_rejected (some "settlement-not-submitted") flow.failures)
        throw not_submitted_error)
        flow

-- The branch for any other throw.
unfoldable pub settle_uncertain : Env → SettleArgs → Thrown → Stage PaymentResult
unfolding finalize_hold safe_persist settlement_tx_hash error_message uncertain_error
settle_uncertain env args error = do
  _ ← finalize_hold env args.hold mark_uncertain
  _ ← persist_update env (
      update_of args.replay_key settlement_uncertain (settlement_tx_hash error)
        (error_message error))
  λ flow.
      (do
        _ ← safe_emit (payment_rejected (some "settlement-uncertain") flow.failures)
        throw (uncertain_error args (settlement_tx_hash error)))
        flow

-- The branch for an answer that is not `settled`.
unfoldable pub settle_refused : Env → SettleArgs → PaymentResult → Stage PaymentResult
unfolding finalize_hold safe_persist rejection_error
settle_refused env args settlement = do
  _ ← finalize_hold env args.hold release
  _ ← persist_update env (
      update_of args.replay_key Attempt.rejected settlement.external_reference
        settlement.rejection_reason)
  λ flow.
      (do
        _ ← safe_emit (payment_rejected settlement.rejection_reason flow.failures)
        throw (rejection_error args settlement))
        flow

unfoldable pub settle_settled : Env → SettleArgs → PaymentResult → Stage PaymentResult
unfolding finalize_hold safe_persist
settle_settled env args settlement = do
  _ ← finalize_hold env args.hold consume
  _ ←
      persist_update env
        (update_of args.replay_key Attempt.settled settlement.external_reference none)
  _ ← safe_emit payment_settled
  pure settlement

-- `settlement.status !== 'settled'`
abbrev pub is_settled : PaymentResult → Bool
is_settled r = elim r.status [ verified ↦ false | settled ↦ true | rejected ↦ false ]

unfoldable pub settle_throws : Env → SettleArgs → Thrown → Stage PaymentResult
unfolding not_submitted_reason settle_not_submitted settle_uncertain
settle_throws env args error = elim (not_submitted_reason error) [
  | some reason ↦ settle_not_submitted env args reason
  | none ↦ settle_uncertain env args error
]

unfoldable pub settle_answers : Env → SettleArgs → PaymentResult → Stage PaymentResult
unfolding settle_settled settle_refused
settle_answers env args settlement =
    if is_settled settlement
    then settle_settled env args settlement
    else settle_refused env args settlement

-- What follows the provider's answer.
unfoldable pub settle_answered : Env → SettleArgs → Answer PaymentResult → Stage PaymentResult
unfolding settle_throws settle_answers
settle_answered env args (throws error) = settle_throws env args error
settle_answered env args (answers settlement) = settle_answers env args settlement

-- `settle`
unfoldable pub settle : Env → SettleArgs → Stage PaymentResult
unfolding record_step settle_answered
settle env args = do
  _ ← record_step env settling
  answer ← call settles (args.provider.settle args.requirement args.verification)
  settle_answered env args answer

-- `abandonSettlement`
unfoldable pub abandon_settlement : Env → SettleArgs → Stage (Unit {0})
unfolding finalize_hold safe_persist
abandon_settlement env args = do
  _ ← finalize_hold env args.hold release
  _ ← persist_update env (update_of args.replay_key Attempt.rejected none (some "backend_failed"))
  λ flow. safe_emit (payment_rejected (some "backend-failed") flow.failures) flow
