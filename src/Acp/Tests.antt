-- ===== src/Acp/Tests.antt =====
-- Runs of the checkout dispatch, and the theorems at concrete requests.
use agent_commerce.Prelude.{
  List, [], arith, false, inr, none, refl, some, true, ◌<◌, ◌↔◌, ◌∷◌, ◌≡◌, ◌≢◌, ◌⊎◌,
}
use agent_commerce.Json.{Json, array, end, field, item, nil, null, object, string}
use agent_commerce.Core.Errors.{backend_error}
use agent_commerce.Acp.{
  acp_failure, as_response, create_checkout_session, get_checkout_session, invalid_request,
  service_unavailable, AcpResponse,
}
use agent_commerce.Acp.Documents.{CheckoutError, Checks}
use agent_commerce.Acp.Responses.{map_commerce_error_to_acp, to_acp_response}
use agent_commerce.Acp.Dispatch.{
  Checkout, answered, begin_dispatch, delivers, fails, file, finish_dispatch, receipts,
  run_checkout, runs, unknown_reach, was_reached, claim_answer,
}
use agent_commerce.Acp.Mapped.{
  IsForwardable, IsWait, forwarded_iff, run_checkout-IsWait, IsEarlyWait,
}
use agent_commerce.Acp.Freed.{freed_iff, frees}
use agent_commerce.Acp.Once.{begins, checkout_once, ends, history, response_replayed, starts}
use agent_commerce.Store.Claims.{still_in_flight, ClaimRow, Scope, claim_of}

-- Every document conforms; every text is a code and a parameter and holds markup; no number is read.
abbrev lenient : Checks
lenient = record {
  conforms = λ _ _. true;
  has_markup = λ _. true;
  is_merchant_code = λ _. true;
  is_merchant_param = λ _. true;
  whole_seconds = λ _. some 900;
}

abbrev session : Json
session = object (field "status" (string "open") end)

abbrev markup_session : Json
markup_session = object (
    field "messages"
      (array (
        item
          (object (field "content_type" (string "markdown") (field "content" (string "<b>") end)))
          nil))
      end)

abbrev busy_merchant : CheckoutError
busy_merchant = record {
  code = backend_error;
  status = some 429;
  cause = some (record { retry_after = some "900"; body = null });
}

markup_refused :
    (run_checkout lenient get_checkout_session (delivers 200 markup_session)).response.status ≡ 500
unfolding run_checkout to_acp_response
markup_refused = refl

forwarded_iff_example :
    let r = (run_checkout lenient create_checkout_session (delivers 201 session)).response in
    ((r.status ≡ 201) ↔ IsForwardable lenient create_checkout_session 201 session)
    × (((r.status ≡ 201) × (r.body ≡ session)) ⊎ (r.status ≡ 500))
forwarded_iff_example = forwarded_iff lenient create_checkout_session 201 session

abbrev in_flight : AcpResponse
in_flight =
    record (as_response (
      acp_failure 409 invalid_request "idempotency_in_flight"
        "A request with this Idempotency-Key is still being processed.")) {
          retry_after_seconds = some 1;
        }

run_checkout-IsWait_example :
    let r = (run_checkout lenient create_checkout_session (fails busy_merchant)).response in
    (r.status < 500 → r.retry_after_seconds ≡ none)
    × IsWait r.retry_after_seconds
    × IsEarlyWait still_in_flight in_flight
unfolding claim_answer
run_checkout-IsWait_example =
    run_checkout-IsWait lenient create_checkout_session (fails busy_merchant) still_in_flight
      in_flight refl

wait_capped :
    (run_checkout lenient create_checkout_session
      (fails busy_merchant)).response.retry_after_seconds
    ≡ some 300
unfolding run_checkout map_commerce_error_to_acp
wait_capped = refl

abbrev checkout_scope : Scope
checkout_scope = record { deployment = "shop"; endpoint = "/checkout_sessions"; key = "k1" }

abbrev claimed : List ClaimRow
claimed = (begin_dispatch file 24 0 (some checkout_scope) "f1" []).0

abbrev declined : Checkout
declined = record {
  response = as_response (acp_failure 409 invalid_request "out_of_stock" "Gone.");
  reached = was_reached;
}

abbrev timed_out : Checkout
timed_out = record {
  response = as_response (acp_failure 504 service_unavailable "service_unavailable" "Late.");
  reached = unknown_reach;
}

freed_iff_example :
    (claim_of checkout_scope (
        finish_dispatch file false checkout_scope
          (some (run_checkout lenient create_checkout_session (fails busy_merchant)))
          claimed)
      ≡ none)
    ↔ (frees (fails busy_merchant) ≡ true)
unfolding begin_dispatch claim_of
freed_iff_example =
    freed_iff file lenient create_checkout_session (fails busy_merchant) checkout_scope claimed _
      (tt, tt) refl

abbrev other_scope : Scope
other_scope = record { deployment = "shop"; endpoint = "/checkout_sessions"; key = "k2" }

checkout_once_example :
    (begin_dispatch file 24 9 (some checkout_scope) "f2" (
      history file 24 false
        ((5, ends checkout_scope (some timed_out))
          ∷ (6, starts)
          ∷ (7, begins (some other_scope) "f1")
          ∷ [])
        (begin_dispatch file 24 0 (some checkout_scope) "f1" []).0)).1
    ≢ runs
unfolding begin_dispatch
checkout_once_example =
    checkout_once file 24 false 0 9 checkout_scope "f1" "f2"
      ((5, ends checkout_scope (some timed_out))
        ∷ (6, starts)
        ∷ (7, begins (some other_scope) "f1")
        ∷ [])
      [] tt refl (inr refl, (refl, (omega arith, tt))) (omega arith)

response_replayed_example :
    (begin_dispatch receipts 24 9 (some checkout_scope) "f1" (
      history receipts 24 false
        ((7, begins (some other_scope) "f1") ∷ [])
        (finish_dispatch receipts false checkout_scope (some declined) claimed))).1
    ≡ answered (record {
      status = 409;
      body = declined.response.body;
      replayed = true;
      retry_after_seconds = none;
    })
unfolding begin_dispatch claim_of
response_replayed_example =
    response_replayed receipts 24 false 9 checkout_scope declined
      ((7, begins (some other_scope) "f1") ∷ []) claimed _ (tt, tt) refl (omega arith)
      (omega arith, tt) (omega arith)
