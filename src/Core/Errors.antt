-- ===== src/Core/Errors.antt =====
-- src/core/errors/codes.ts and commerce-error.ts. Of a CommerceError the model keeps the code and
-- the details that other code reads; messages, ids and causes are left out.
use agent_commerce.Prelude.{ℕ, Bool, String, true, false}

pub data CommerceErrorCode : Type 0 where
  config_invalid resource_not_found input_invalid payment_required payment_invalid :
      CommerceErrorCode
  payment_replayed payment_provider_unavailable payment_settlement_failed : CommerceErrorCode
  authorization_required authorization_invalid authorization_replayed : CommerceErrorCode
  authorization_provider_unavailable backend_timeout backend_error : CommerceErrorCode
  protocol_unsupported gateway_busy storage_error internal_error : CommerceErrorCode

-- The codes as the program spells them.
unfoldable pub code_name : CommerceErrorCode → String
code_name config_invalid = "CONFIG_INVALID"
code_name resource_not_found = "RESOURCE_NOT_FOUND"
code_name input_invalid = "INPUT_INVALID"
code_name payment_required = "PAYMENT_REQUIRED"
code_name payment_invalid = "PAYMENT_INVALID"
code_name payment_replayed = "PAYMENT_REPLAYED"
code_name payment_provider_unavailable = "PAYMENT_PROVIDER_UNAVAILABLE"
code_name payment_settlement_failed = "PAYMENT_SETTLEMENT_FAILED"
code_name authorization_required = "AUTHORIZATION_REQUIRED"
code_name authorization_invalid = "AUTHORIZATION_INVALID"
code_name authorization_replayed = "AUTHORIZATION_REPLAYED"
code_name authorization_provider_unavailable = "AUTHORIZATION_PROVIDER_UNAVAILABLE"
code_name backend_timeout = "BACKEND_TIMEOUT"
code_name backend_error = "BACKEND_ERROR"
code_name protocol_unsupported = "PROTOCOL_UNSUPPORTED"
code_name gateway_busy = "GATEWAY_BUSY"
code_name storage_error = "STORAGE_ERROR"
code_name internal_error = "INTERNAL_ERROR"

unfoldable pub http_status : CommerceErrorCode → ℕ
http_status config_invalid = 500
http_status resource_not_found = 404
http_status input_invalid = 400
http_status payment_required = 402
http_status payment_invalid = 402
http_status payment_replayed = 409
http_status payment_provider_unavailable = 503
http_status payment_settlement_failed = 502
http_status authorization_required = 403
http_status authorization_invalid = 403
http_status authorization_replayed = 409
http_status authorization_provider_unavailable = 503
http_status backend_timeout = 504
http_status backend_error = 502
http_status protocol_unsupported = 501
http_status gateway_busy = 503
http_status storage_error = 500
http_status internal_error = 500

unfoldable pub is_retryable : CommerceErrorCode → Bool
is_retryable payment_provider_unavailable = true
is_retryable authorization_provider_unavailable = true
is_retryable backend_timeout = true
is_retryable gateway_busy = true
is_retryable _ = false

-- The outcome of code that may throw a CommerceError.
pub data Result {ℓ} (A : Type ℓ) : Type ℓ where
  ok : A → Result A
  err : CommerceErrorCode → Result A

infixl 5 ◌>>=◌
abbrev pub ◌>>=◌ {ℓ κ} : {A : Type ℓ} {B : Type κ} → Result A → (A → Result B) → Result B
ok a >>= f = f a
err e >>= f = err e
