-- ===== src/Acp/Documents.antt =====
-- src/protocols/acp/response-mapping.ts: the documents and the failures. The snapshot's schemas
-- (Ajv) and the regular expressions are parameters; details that only reach the log are left out.
use agent_commerce.Prelude.{
  Bool, Option, String, false, if◌then◌else◌, none, some, ℕ, ◌&&◌, ◌==◌, ◌||◌, eqb, ltb,
}
use agent_commerce.Json.{as_text, get_field, text_of}
use agent_commerce.Json.{Fields, Items, Json, array, end, field, item, nil, object}
use agent_commerce.Core.Errors.{
  CommerceErrorCode, input_invalid, backend_timeout, gateway_busy, backend_error,
}
use agent_commerce.Acp.{
  AcpFailure, Operation, acp_failure, cancel_checkout_session, complete_checkout_session,
  create_checkout_session, invalid_request, processing_error, service_unavailable, AcpErrorType,
}

-- `AcpDefinition`, as far as responses use it
pub data Definition : Type 0 where
  checkout_session checkout_session_with_order error_document : Definition

-- What the code asks of Ajv and of the regular expressions: `conforms` is `validateAcpDocument`
-- without a failure, `has_markup` the test of RAW_HTML after CODE_SPAN is cut out, `is_merchant_code`
-- and `is_merchant_param` the tests of MERCHANT_CODE and MERCHANT_PARAM, and `whole_seconds` the
-- number in a text of one to nine digits.
pub record Checks : Type 0 where
  pub conforms : Definition → Json → Bool
  pub has_markup : String → Bool
  pub is_merchant_code : String → Bool
  pub is_merchant_param : String → Bool
  pub whole_seconds : String → Option ℕ

-- A merchant's answer as `BackendErrorResponse` carries it
pub record MerchantAnswer : Type 0 where
  pub retry_after : Option String
  pub body : Json

-- A `CommerceError` as this file reads it: its code, the status among its details, its cause.
pub record CheckoutError : Type 0 where
  pub code : CommerceErrorCode
  pub status : Option ℕ
  pub cause : Option MerchantAnswer

-- ACP_SUCCESS_STATUS
abbrev pub success_status : Operation → ℕ
success_status create_checkout_session = 201
success_status _ = 200

abbrev pub max_retry_after : ℕ
max_retry_after = 300

-- PROCESSING_ERROR
abbrev pub processing_failure : AcpFailure
processing_failure =
    acp_failure 500 processing_error "processing_error"
      "The server could not process this checkout operation."

abbrev pub is_text : String → Option String → Bool
is_text s none = false
is_text s (some x) = x == s

-- `responseDefinition`
unfoldable pub response_definition : Operation → Json → Definition
response_definition complete_checkout_session body =
    if is_text "completed" (text_of "status" body)
    then checkout_session_with_order
    else checkout_session
response_definition _ body = checkout_session

abbrev pub capped : Option ℕ → ℕ
capped none = 5
capped (some n) = if ltb n 1 then 1 else if ltb max_retry_after n then max_retry_after else n

-- A merchant's 429 or 503
abbrev pub unavailable : ℕ → AcpFailure
unavailable wait =
    record (acp_failure 503 service_unavailable "service_unavailable"
      "The merchant is temporarily unavailable.") { retry_after_seconds = some wait }

-- A merchant's 405
abbrev pub not_allowed : Operation → AcpFailure
not_allowed cancel_checkout_session =
    acp_failure 405 invalid_request "checkout_session_not_cancelable"
      "This checkout session can no longer be canceled."
not_allowed _ =
    acp_failure 405 invalid_request "method_not_allowed"
      "The merchant does not allow this operation on this checkout session."

-- The `switch` of `statusFailure`
abbrev pub failure_of_status : ℕ → ℕ → Operation → AcpFailure
failure_of_status status wait operation =
    if eqb status 404
    then acp_failure 404 invalid_request "checkout_session_not_found" "No such checkout session."
    else if eqb status 405
    then not_allowed operation
    else if eqb status 400 || eqb status 422
    then acp_failure status invalid_request "invalid_request_body"
        "The merchant rejected this checkout request."
    else if eqb status 409
    then acp_failure 409 invalid_request "checkout_session_conflict"
        "This checkout session is in a state that does not allow this operation."
    else if eqb status 429 || eqb status 503
    then unavailable wait
    else acp_failure 502 processing_error "processing_error"
        "The merchant could not process this checkout operation."

-- The type that an ACP error document names, which the snapshot restricts to three
abbrev pub type_of : Option String → AcpErrorType → AcpErrorType
type_of none otherwise = otherwise
type_of (some s) otherwise =
    if s == "invalid_request"
    then invalid_request
    else if s == "processing_error"
    then processing_error
    else if s == "service_unavailable"
    then service_unavailable
    else otherwise

-- The `switch` of `mapCommerceErrorToAcp`, given what it makes of a backend's error
abbrev pub failure_for : CommerceErrorCode → AcpFailure → AcpFailure
failure_for input_invalid backend =
    acp_failure 400 invalid_request "invalid_request_body"
      "The request could not be accepted for this checkout operation."
failure_for backend_timeout backend =
    acp_failure 504 service_unavailable "service_unavailable"
      "The merchant did not respond in time."
failure_for gateway_busy backend =
    acp_failure 503 service_unavailable "service_unavailable" "The gateway is busy; retry shortly."
failure_for backend_error backend = backend
failure_for _ backend = processing_failure

abbrev text_has_markup : Checks → Option String → Bool
text_has_markup c none = false
text_has_markup c (some s) = c.has_markup s

-- The markdown content of one object
abbrev pub has_raw_content : Checks → Fields → Bool
has_raw_content c fields =
    is_text "markdown" (as_text (get_field "content_type" fields))
    && text_has_markup c (as_text (get_field "content" fields))

abbrev mutual
  -- `rawHtmlPath`, whether it finds one
  pub has_raw_html : Checks → Json → Bool
  has_raw_html c (array items) = any_item c items
  has_raw_html c (object fields) = has_raw_content c fields || any_field c fields
  has_raw_html c _ = false

  any_item : Checks → Items → Bool
  any_item c nil = false
  any_item c (item j rest) = has_raw_html c j || any_item c rest

  any_field : Checks → Fields → Bool
  any_field c end = false
  any_field c (field k j rest) = has_raw_html c j || any_field c rest
