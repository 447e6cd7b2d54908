-- ===== src/Acp.antt =====
-- src/protocols/acp: the checkout protocol's responses and its idempotent dispatch.
mod Tests
pub mod Documents
pub mod Responses
pub mod FileStore
pub mod Dispatch
pub mod Mapped
pub mod Freed
pub mod Once
use agent_commerce.Prelude.{Bool, Option, String, false, none, some, ℕ}
use agent_commerce.Json.{Fields, Json, end, field, object, string}

-- `AcpCheckoutOperation`
pub data Operation : Type 0 where
  create_checkout_session update_checkout_session get_checkout_session : Operation
  complete_checkout_session cancel_checkout_session : Operation

-- `AcpErrorType`
pub data AcpErrorType : Type 0 where
  invalid_request processing_error service_unavailable : AcpErrorType

-- `AcpFailure`, with the fields of its `AcpError`; `supported_versions` is left out.
pub record AcpFailure : Type 0 where
  pub status : ℕ
  pub type : AcpErrorType
  pub code : String
  pub message : String
  pub param : Option String
  pub retry_after_seconds : Option ℕ

-- `AcpResponse`
pub record AcpResponse : Type 0 where
  pub status : ℕ
  pub body : Json
  pub replayed : Bool
  pub retry_after_seconds : Option ℕ

-- `acpFailure`
abbrev pub acp_failure : ℕ → AcpErrorType → String → String → AcpFailure
acp_failure status type code message = record {
  status = status;
  type = type;
  code = code;
  message = message;
  param = none;
  retry_after_seconds = none;
}

abbrev pub type_name : AcpErrorType → String
type_name invalid_request = "invalid_request"
type_name processing_error = "processing_error"
type_name service_unavailable = "service_unavailable"

-- An optional last field of an object
abbrev optional_field : String → Option String → Fields
optional_field name none = end
optional_field name (some s) = field name (string s) end

-- The JSON of an `AcpError`
abbrev pub error_body : AcpFailure → Json
error_body f = object (
    field "type" (string (type_name f.type)) (
      field "code" (string f.code)
        (field "message" (string f.message) (optional_field "param" f.param))))

-- `asResponse`
abbrev pub as_response : AcpFailure → AcpResponse
as_response f = record {
  status = f.status;
  body = error_body f;
  replayed = false;
  retry_after_seconds = f.retry_after_seconds;
}
