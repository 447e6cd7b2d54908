-- ===== src/Acp/Freed.antt =====
-- What `dispatch` of src/protocols/acp/adapter.ts does to the claim of a checkout that has run.
use agent_commerce.Prelude.{
  List, String, refl, ℕ, ◌+◌, ◌≡◌, Bool, Option, arith, false, if◌then◌else◌, ltb, none, not, some,
  true, ◌&&◌, ◌||◌, Bool-cases, ap, inl, inr, sym, ◌↔◌, ◌∙◌, ◌<◌, eqb,
}
use agent_commerce.Core.Errors.{
  CommerceErrorCode, input_invalid, backend_error, backend_timeout, gateway_busy,
  authorization_invalid, authorization_provider_unavailable, authorization_replayed,
  authorization_required, config_invalid, payment_invalid, payment_provider_unavailable,
  payment_replayed, payment_required, payment_settlement_failed, protocol_unsupported,
  resource_not_found,
}
use agent_commerce.Acp.{AcpFailure, AcpResponse, Operation}
use agent_commerce.Acp.Documents.{CheckoutError, Checks, MerchantAnswer, failure_for}
use agent_commerce.Acp.Responses.{
  from_backend_status, is_429, is_backend_error, is_merchant_rate_limit, map_commerce_error_to_acp,
  status_failure,
}
use agent_commerce.Acp.FileStore.{
  claim_file, existing_claim, retention_ms, complete_file, mark_unresolved_file, release_file,
  resolve_orphaned_claims,
}
use agent_commerce.Acp.Dispatch.{
  Backend, receipts, file, Checkout, PipelineOutcome, not_running, asks_payment, delivers, fails,
  finish_dispatch, is_pre_backend, is_unreached, run_checkout, backend_complete,
  backend_mark_unresolved, backend_release, backend_claim, open_idempotency, reached_for,
}
use agent_commerce.Store.Claims.{
  ClaimRow, Scope, Update, claim, claim_of, in_scope, completes, unresolves, releases,
  update_idempotency_key, recover_idempotency_keys, completed_row, unresolved_row, answer,
}
use agent_commerce.Store.Claims.Exclusive.{
  IsKeyed, claim_of-delete_rows, claim_of-update_rows, scope-eq_iff,
}
use agent_commerce.Store.Claims.Replay.{claim_of-scope}

-- The two backends do the same to the table of claims.
pub claim-same :
    (b : Backend) (hours now : ℕ) (s : Scope) (fingerprint : String) (t : List ClaimRow)
    → backend_claim b hours now s fingerprint t
      ≡ claim now s fingerprint (now + retention_ms hours) t
unfolding backend_claim claim_file existing_claim claim answer
claim-same receipts hours now s fingerprint t = refl
claim-same file hours now s fingerprint t = refl

pub open-same :
    (b : Backend) (release : Bool) (t : List ClaimRow)
    → open_idempotency b release t ≡ (recover_idempotency_keys release t).0
unfolding open_idempotency resolve_orphaned_claims recover_idempotency_keys
open-same receipts release t = refl
open-same file true t = refl
open-same file false t = refl

-- How a finished checkout leaves its claim, as an update of the receipt store.
unfoldable pub claim_update : Bool → Option Checkout → Update
claim_update merchant_idempotent none = unresolves
claim_update merchant_idempotent (some outcome) =
    if ltb outcome.response.status 500
    then completes outcome.response.status (some outcome.response.body)
    else if is_unreached outcome.reached || merchant_idempotent
    then releases
    else unresolves

complete-same :
    (b : Backend) (s : Scope) (r : AcpResponse) (t : List ClaimRow)
    → backend_complete b s r t ≡ update_idempotency_key s (completes r.status (some r.body)) t
unfolding backend_complete complete_file update_idempotency_key
complete-same receipts s r t = refl
complete-same file s r t = refl

mark-same :
    (b : Backend) (s : Scope) (t : List ClaimRow)
    → backend_mark_unresolved b s t ≡ update_idempotency_key s unresolves t
unfolding backend_mark_unresolved mark_unresolved_file update_idempotency_key
mark-same receipts s t = refl
mark-same file s t = refl

release-same :
    (b : Backend) (s : Scope) (t : List ClaimRow)
    → backend_release b s t ≡ update_idempotency_key s releases t
unfolding backend_release release_file update_idempotency_key
release-same receipts s t = refl
release-same file s t = refl

pub finish-same :
    (b : Backend) (merchant_idempotent : Bool) (s : Scope) (o : Option Checkout) (t : List ClaimRow)
    → finish_dispatch b merchant_idempotent s o t
      ≡ update_idempotency_key s (claim_update merchant_idempotent o) t
unfolding finish_dispatch claim_update
finish-same b merchant_idempotent s none t = mark-same b s t
finish-same b merchant_idempotent s (some outcome) t =
    ground (arith, complete-same b s outcome.response t, mark-same b s t, release-same b s t)

abbrev is_input_invalid : CommerceErrorCode → Bool
is_input_invalid input_invalid = true
is_input_invalid _ = false

-- The checkouts whose claim is freed: the adapter was not running, a payment was asked for, or an
-- error with one of these codes. A claim that `INPUT_INVALID` ends is answered, and is not freed.
-- An error's code, and the backend's status among its details
abbrev pub frees_error : CommerceErrorCode → Option ℕ → Bool
frees_error config_invalid status = true
frees_error resource_not_found status = true
frees_error protocol_unsupported status = true
frees_error gateway_busy status = true
frees_error payment_required status = true
frees_error payment_invalid status = true
frees_error payment_replayed status = true
frees_error payment_provider_unavailable status = true
frees_error payment_settlement_failed status = true
frees_error authorization_required status = true
frees_error authorization_invalid status = true
frees_error authorization_replayed status = true
frees_error authorization_provider_unavailable status = true
frees_error backend_error (some n) = eqb n 429
frees_error _ status = false

abbrev pub frees : PipelineOutcome → Bool
frees not_running = true
frees asks_payment = true
frees (delivers status body) = false
frees (fails e) = frees_error e.code e.status

frees_error-same :
    (code : CommerceErrorCode) (status : Option ℕ)
    → ((is_pre_backend code && not (is_input_invalid code))
        || (is_backend_error code && is_429 status))
      ≡ frees_error code status
frees_error-same code status = ground arith

abbrev pub is_release : Update → Bool
is_release releases = true
is_release _ = false

failure_for-high :
    (code : CommerceErrorCode) (f : AcpFailure)
    → is_pre_backend code ≡ true
    → ltb (failure_for code f).status 500 ≡ is_input_invalid code
failure_for-high input_invalid f h = refl
failure_for-high gateway_busy f h = refl
failure_for-high backend_timeout f h = cc
failure_for-high backend_error f h = cc
failure_for-high _ f h = refl

pre_backend-not_limited :
    (e : CheckoutError) → is_pre_backend e.code ≡ true → is_merchant_rate_limit e ≡ false
unfolding is_merchant_rate_limit
pre_backend-not_limited e h = ap (λ x. x && is_429 e.status) (not_backend e.code h)
  where
    not_backend :
        (code : CommerceErrorCode) → is_pre_backend code ≡ true → is_backend_error code ≡ false
    not_backend backend_error h = cc
    not_backend _ h = refl

limited_status :
    (c : Checks) (code : CommerceErrorCode) (status : Option ℕ) (cause : Option MerchantAnswer)
    (operation : Operation)
    → is_backend_error code ≡ true
    → is_429 status ≡ true
    → (map_commerce_error_to_acp c
        (record { code = code; status = status; cause = cause })
        operation).status
      ≡ 503
unfolding map_commerce_error_to_acp from_backend_status status_failure
limited_status c backend_error none cause operation h k = cc
limited_status c backend_error (some n) cause operation h k =
    let q : n ≡ 429 = ground arith in rw q refl
limited_status c _ status cause operation h k = cc

pub is_release-claim_update :
    (merchant_idempotent : Bool) (o : Checkout)
    → is_release (claim_update merchant_idempotent (some o))
      ≡ (not (ltb o.response.status 500) && (is_unreached o.reached || merchant_idempotent))
unfolding claim_update
is_release-claim_update merchant_idempotent o = ground arith

pub claim_update-answer :
    (merchant_idempotent : Bool) (o : Checkout)
    → o.response.status < 500
    → claim_update merchant_idempotent (some o) ≡ completes o.response.status (some o.response.body)
unfolding claim_update
claim_update-answer merchant_idempotent o h = ground (arith, h)

is_unreached-reached_for :
    (e : CheckoutError)
    → is_unreached (reached_for e) ≡ (is_pre_backend e.code || is_merchant_rate_limit e)
unfolding reached_for
is_unreached-reached_for e = elim (Bool-cases (is_pre_backend e.code || is_merchant_rate_limit e)) [
  | inl unreached ↦ rw unreached refl
  | inr maybe ↦ rw maybe refl
]

frees_coded : CheckoutError → Bool
frees_coded e = (is_pre_backend e.code && not (is_input_invalid e.code)) || is_merchant_rate_limit e

-- Whether a failed checkout's status says that the merchant refused, and the claim is then freed.
failed-status :
    (c : Checks) (operation : Operation) (e : CheckoutError)
    → (not (ltb (map_commerce_error_to_acp c e operation).status 500)
        && (is_pre_backend e.code || is_merchant_rate_limit e))
      ≡ frees_coded e
unfolding map_commerce_error_to_acp is_merchant_rate_limit frees_coded
failed-status c operation e = elim (Bool-cases (is_pre_backend e.code)) [
  | inl pre ↦
      let high = failure_for-high e.code (from_backend_status c e operation) pre in
      let unlimited = pre_backend-not_limited e pre in ground (arith, high, unlimited)
  | inr post ↦ elim (Bool-cases (is_merchant_rate_limit e)) [
    | inl limited ↦
        let busy : (map_commerce_error_to_acp c e operation).status ≡ 503 =
          limited_status c e.code e.status e.cause operation (ground arith) (ground arith) in
        rw (limited, post, busy) refl
    | inr unlimited ↦ ground (arith, unlimited)
  ]
]

&&-false : (a : Bool) → (a && false) ≡ false
&&-false true = refl
&&-false false = refl

||-false : (a : Bool) → (a || false) ≡ a
||-false true = refl
||-false false = refl

pub checkout-release :
    (c : Checks) (operation : Operation) (outcome : PipelineOutcome)
    → is_release (claim_update false (some (run_checkout c operation outcome))) ≡ frees outcome
unfolding run_checkout frees_coded is_merchant_rate_limit
checkout-release c operation not_running = is_release-claim_update false _
checkout-release c operation asks_payment = is_release-claim_update false _
checkout-release c operation (delivers status body) =
    is_release-claim_update false (run_checkout c operation (delivers status body)) ∙ &&-false _
checkout-release c operation (fails e) =
    is_release-claim_update false (run_checkout c operation (fails e))
    ∙ (reach ∙ failed-status c operation e ∙ frees_error-same e.code e.status)
  where
    reach :
        (not (ltb (map_commerce_error_to_acp c e operation).status 500)
          && (is_unreached (reached_for e) || false))
        ≡ (not (ltb (map_commerce_error_to_acp c e operation).status 500)
            && (is_pre_backend e.code || is_merchant_rate_limit e))
    reach =
        ap (λ x. not (ltb (map_commerce_error_to_acp c e operation).status 500) && x)
          (||-false _ ∙ is_unreached-reached_for e)

update-row :
    (s : Scope) (u : Update) (t : List ClaimRow) (row : ClaimRow)
    → IsKeyed t
    → claim_of s t ≡ some row
    → (claim_of s (update_idempotency_key s u t) ≡ none) ↔ (is_release u ≡ true)
unfolding update_idempotency_key
update-row s (completes status body) t row v e =
    let d = claim_of-update_rows s (in_scope s) (completed_row status body) t (λ x. refl) in
    (ground arith, λ h. cc)
update-row s unresolves t row v e =
    let d = claim_of-update_rows s (in_scope s) unresolved_row t (λ x. refl) in
    (ground arith, λ h. cc)
update-row s releases t row v e =
    let d = claim_of-delete_rows s t v (in_scope s) in
    let here = (scope-eq_iff row.scope s).1 (claim_of-scope s t row e) in
    (λ _. refl, λ _. d ∙ ground arith)

-- In a table with one row for a scope, and a merchant that does not deduplicate: the end of a
-- checkout frees its claim exactly if the adapter was not running, the pipeline asked for a payment,
-- or it threw an error with the code CONFIG_INVALID, RESOURCE_NOT_FOUND, PROTOCOL_UNSUPPORTED,
-- GATEWAY_BUSY, one of the five that begin with PAYMENT, one of the four that begin with
-- AUTHORIZATION, or BACKEND_ERROR with the status 429. No other error and no delivery frees it.
pub freed_iff :
    (b : Backend) (c : Checks) (operation : Operation) (outcome : PipelineOutcome) (s : Scope)
    (t : List ClaimRow) (row : ClaimRow)
    → IsKeyed t
    → claim_of s t ≡ some row
    → (claim_of s (finish_dispatch b false s (some (run_checkout c operation outcome)) t) ≡ none)
      ↔ (frees outcome ≡ true)
freed_iff b c operation outcome s t row v e =
    rw
      (
        finish-same b false s (some (run_checkout c operation outcome)) t,
        sym (checkout-release c operation outcome),
      )
      (update-row s (claim_update false (some (run_checkout c operation outcome))) t row v e)
