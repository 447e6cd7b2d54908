-- ===== src/Acp/Dispatch.antt =====
-- src/protocols/acp/adapter.ts: a checkout request under its idempotency key. A request claims its
-- key, runs, and settles the claim in three steps, between which others may run; the canonical
-- pipeline's outcome is an argument.
use agent_commerce.Prelude.{
  Bool, List, Option, String, false, if◌then◌else◌, ltb, none, some, true, ℕ, ◌+◌, ◌||◌,
}
use agent_commerce.Json.{Json}
use agent_commerce.Core.Errors.{
  CommerceErrorCode, config_invalid, resource_not_found, input_invalid, protocol_unsupported,
  gateway_busy, payment_required, payment_invalid, payment_replayed, payment_provider_unavailable,
  payment_settlement_failed, authorization_required, authorization_invalid, authorization_replayed,
  authorization_provider_unavailable,
}
use agent_commerce.Acp.{
  AcpResponse, Operation, acp_failure, as_response, invalid_request, service_unavailable,
}
use agent_commerce.Acp.Documents.{CheckoutError, Checks, processing_failure}
use agent_commerce.Acp.Responses.{
  is_merchant_rate_limit, map_commerce_error_to_acp, to_acp_response,
}
use agent_commerce.Store.Claims.{
  ClaimRow, ClaimResult, Scope, claim, update_idempotency_key, recover_idempotency_keys, completes,
  unresolves, releases, reserved, still_in_flight, outcome_unknown, conflict, replay,
}
use agent_commerce.Acp.FileStore.{
  claim_file, complete_file, mark_unresolved_file, release_file, resolve_orphaned_claims,
  retention_ms,
}

-- `MerchantReach`
pub data Reach : Type 0 where
  not_reached unknown_reach was_reached : Reach

-- `AcpCheckoutAttempt`
pub record Checkout : Type 0 where
  pub response : AcpResponse
  pub reached : Reach

-- PRE_BACKEND_ERROR_CODES
abbrev pub is_pre_backend : CommerceErrorCode → Bool
is_pre_backend config_invalid = true
is_pre_backend resource_not_found = true
is_pre_backend input_invalid = true
is_pre_backend protocol_unsupported = true
is_pre_backend gateway_busy = true
is_pre_backend payment_required = true
is_pre_backend payment_invalid = true
is_pre_backend payment_replayed = true
is_pre_backend payment_provider_unavailable = true
is_pre_backend payment_settlement_failed = true
is_pre_backend authorization_required = true
is_pre_backend authorization_invalid = true
is_pre_backend authorization_replayed = true
is_pre_backend authorization_provider_unavailable = true
is_pre_backend _ = false

-- `reachedFor`
unfoldable pub reached_for : CheckoutError → Reach
unfolding is_merchant_rate_limit
reached_for e =
    if is_pre_backend e.code || is_merchant_rate_limit e then not_reached else unknown_reach

-- How `context.pipeline.execute` ends, or that the adapter has no context or resource.
pub data PipelineOutcome : Type 0 where
  not_running : PipelineOutcome
  asks_payment : PipelineOutcome
  delivers : ℕ → Json → PipelineOutcome
  fails : CheckoutError → PipelineOutcome

-- `runCheckout`
unfoldable pub run_checkout : Checks → Operation → PipelineOutcome → Checkout
unfolding to_acp_response map_commerce_error_to_acp reached_for
run_checkout c operation not_running = record {
  response =
      as_response (
        acp_failure 503 service_unavailable "service_unavailable"
          "The ACP adapter is not running.");
  reached = not_reached;
}
run_checkout c operation asks_payment = record {
  response = as_response processing_failure;
  reached = not_reached;
}
run_checkout c operation (delivers status body) = record {
  response = to_acp_response c operation status body;
  reached = was_reached;
}
run_checkout c operation (fails e) = record {
  response = as_response (map_commerce_error_to_acp c e operation);
  reached = reached_for e;
}

-- `backendOverReceiptStore` and `backendOverFileStore`
pub data Backend : Type 0 where
  receipts file : Backend

unfoldable pub backend_claim :
    Backend → ℕ → ℕ → Scope → String → List ClaimRow → List ClaimRow × ClaimResult
unfolding claim_file
backend_claim receipts hours now s fingerprint t =
    claim now s fingerprint (now + retention_ms hours) t
backend_claim file hours now s fingerprint t = claim_file hours now s fingerprint t

unfoldable pub backend_complete : Backend → Scope → AcpResponse → List ClaimRow → List ClaimRow
unfolding complete_file
backend_complete receipts s r t = update_idempotency_key s (completes r.status (some r.body)) t
backend_complete file s r t = complete_file s r.status r.body t

unfoldable pub backend_mark_unresolved : Backend → Scope → List ClaimRow → List ClaimRow
unfolding mark_unresolved_file
backend_mark_unresolved receipts s t = update_idempotency_key s unresolves t
backend_mark_unresolved file s t = mark_unresolved_file s t

unfoldable pub backend_release : Backend → Scope → List ClaimRow → List ClaimRow
unfolding release_file
backend_release receipts s t = update_idempotency_key s releases t
backend_release file s t = release_file s t

-- `openIdempotency`: what the start of the adapter does to earlier claims
unfoldable pub open_idempotency : Backend → Bool → List ClaimRow → List ClaimRow
unfolding resolve_orphaned_claims
open_idempotency receipts merchant_idempotent t = (recover_idempotency_keys merchant_idempotent t).0
open_idempotency file merchant_idempotent t = resolve_orphaned_claims merchant_idempotent t

-- What a request is answered before it runs, or that it runs.
pub data Begun : Type 0 where
  answered : AcpResponse → Begun
  runs : Begun

-- The `switch` of `dispatch`
unfoldable pub claim_answer : ClaimResult → Begun
claim_answer reserved = runs
claim_answer still_in_flight =
    answered
      (record (as_response (
        acp_failure 409 invalid_request "idempotency_in_flight"
          "A request with this Idempotency-Key is still being processed.")) {
            retry_after_seconds = some 1;
          })
claim_answer outcome_unknown = answered (
    as_response (
      acp_failure 409 invalid_request "idempotency_unresolved"
        "An earlier request with this Idempotency-Key reached the merchant and its outcome is unknown. Check the operation with the merchant before retrying."))
claim_answer conflict = answered (
    as_response (
      acp_failure 422 invalid_request "idempotency_conflict"
        "This Idempotency-Key was already used for a different request body."))
claim_answer (replay status body) =
    answered (record { status = status; body = body; replayed = true; retry_after_seconds = none })

-- `dispatch` up to the run; a request without a key claims nothing.
unfoldable pub begin_dispatch :
    Backend → ℕ → ℕ → Option Scope → String → List ClaimRow → List ClaimRow × Begun
unfolding backend_claim claim_answer
begin_dispatch b hours now none fingerprint t = (t, runs)
begin_dispatch b hours now (some s) fingerprint t =
    let (t', result) = backend_claim b hours now s fingerprint t in (t', claim_answer result)

abbrev pub is_unreached : Reach → Bool
is_unreached not_reached = true
is_unreached _ = false

-- `dispatch` after the run, which may have thrown
unfoldable pub finish_dispatch :
    Backend → Bool → Scope → Option Checkout → List ClaimRow → List ClaimRow
unfolding backend_complete backend_mark_unresolved backend_release
finish_dispatch b merchant_idempotent s none t = backend_mark_unresolved b s t
finish_dispatch b merchant_idempotent s (some outcome) t =
    if ltb outcome.response.status 500
    then backend_complete b s outcome.response t
    else if is_unreached outcome.reached || merchant_idempotent
    then backend_release b s t
    else backend_mark_unresolved b s t
