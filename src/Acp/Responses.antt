-- ===== src/Acp/Responses.antt =====
-- src/protocols/acp/response-mapping.ts: a result or an error of the backend to the ACP response.
use agent_commerce.Acp.Documents.{
  CheckoutError, Checks, MerchantAnswer, capped, error_document, failure_for, failure_of_status,
  has_raw_html, processing_failure, response_definition, success_status, type_of,
}
use agent_commerce.Prelude.{
  Bool, Option, String, false, get_or, if◌then◌else◌, none, not, some, ℕ, ◌&&◌, ◌||◌, eqb, ltb,
  true,
}
use agent_commerce.Json.{is_record, text_of}
use agent_commerce.Json.{Json}
use agent_commerce.Core.Errors.{CommerceErrorCode, backend_error}
use agent_commerce.Acp.{AcpFailure, AcpResponse, Operation, as_response}

module _ (c : Checks) where
  -- `toAcpResponse`, of the backend's status and body
  unfoldable pub to_acp_response : Operation → ℕ → Json → AcpResponse
  unfolding response_definition
  to_acp_response operation backend_status body =
      if not (eqb backend_status (success_status operation))
      then as_response processing_failure
      else if not (c.conforms (response_definition operation body) body)
      then as_response processing_failure
      else if has_raw_html c body
      then as_response processing_failure
      else record {
        status = success_status operation;
        body = body;
        replayed = false;
        retry_after_seconds = none;
      }

  abbrev pub header_seconds : Option String → Option ℕ
  header_seconds none = none
  header_seconds (some value) = c.whole_seconds value

  abbrev pub wait_for : Option MerchantAnswer → ℕ
  wait_for none = 5
  wait_for (some answer) = capped (header_seconds answer.retry_after)

  -- `merchantRetryAfterSeconds`
  unfoldable pub merchant_retry_after_seconds : CheckoutError → ℕ
  merchant_retry_after_seconds e = wait_for e.cause

  -- `statusFailure`
  unfoldable pub status_failure : CheckoutError → Operation → AcpFailure
  unfolding merchant_retry_after_seconds
  status_failure e operation =
      failure_of_status (get_or e.status 0) (merchant_retry_after_seconds e) operation

  abbrev pub relayed_param : Option String → Option String
  relayed_param none = none
  relayed_param (some p) = if c.is_merchant_param p then some p else none

  abbrev pub relayed : AcpFailure → Json → Option String → AcpFailure
  relayed failure body none = failure
  relayed failure body (some code) =
      if c.is_merchant_code code
      then record failure {
        type = type_of (text_of "type" body) failure.type;
        code = code;
        param = relayed_param (text_of "param" body);
        retry_after_seconds = none;
      }
      else failure

  abbrev pub caused : AcpFailure → Option MerchantAnswer → AcpFailure
  caused failure none = failure
  caused failure (some answer) =
      if not (is_record answer.body) || not (c.conforms error_document answer.body)
      then failure
      else relayed failure answer.body (text_of "code" answer.body)

  -- `withMerchantError`
  unfoldable pub with_merchant_error : AcpFailure → CheckoutError → AcpFailure
  with_merchant_error failure e = caused failure e.cause

  -- `fromBackendStatus`
  unfoldable pub from_backend_status : CheckoutError → Operation → AcpFailure
  unfolding status_failure with_merchant_error
  from_backend_status e operation =
      let failure = status_failure e operation in
      if ltb failure.status 500 then with_merchant_error failure e else failure

  -- `mapCommerceErrorToAcp`
  unfoldable pub map_commerce_error_to_acp : CheckoutError → Operation → AcpFailure
  unfolding from_backend_status
  map_commerce_error_to_acp e operation = failure_for e.code (from_backend_status e operation)

abbrev pub is_429 : Option ℕ → Bool
is_429 none = false
is_429 (some n) = eqb n 429

abbrev pub is_backend_error : CommerceErrorCode → Bool
is_backend_error backend_error = true
is_backend_error _ = false

-- `isMerchantRateLimit`
unfoldable pub is_merchant_rate_limit : CheckoutError → Bool
is_merchant_rate_limit e = is_backend_error e.code && is_429 e.status
