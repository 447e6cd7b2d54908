-- ===== src/Acp/Mapped.antt =====
-- The responses of src/protocols/acp/response-mapping.ts that a checkout request is given.
use agent_commerce.Prelude.{
  Option, false, none, some, true, ℕ, ◌↔◌, ◌≡◌, ◌≤◌, ◌⊎◌, arith, ◌<◌, Bool-cases, eqb, inl, inr,
  refl, ap, sym, ◌∙◌, String, if-cases, subst, get_or, ◌||◌, ◌≢◌,
}
use agent_commerce.Json.{text_of}
use agent_commerce.Json.{Json}
use agent_commerce.Store.Claims.{
  ClaimResult, answer, conflict, outcome_unknown, replay, reserved, still_in_flight,
}
use agent_commerce.Acp.Dispatch.{answered, claim_answer}
use agent_commerce.Core.Errors.{CommerceErrorCode, backend_error}
use agent_commerce.Acp.{
  Operation, create_checkout_session, as_response, AcpResponse, AcpFailure, cancel_checkout_session,
}
use agent_commerce.Acp.Documents.{
  CheckoutError, Checks, MerchantAnswer, capped, failure_for, failure_of_status, has_raw_html,
  not_allowed, processing_failure, response_definition, success_status, unavailable,
}
use agent_commerce.Acp.Responses.{
  caused, from_backend_status, header_seconds, map_commerce_error_to_acp,
  merchant_retry_after_seconds, relayed, status_failure, to_acp_response, wait_for,
  with_merchant_error,
}
use agent_commerce.Acp.Dispatch.{
  delivers, run_checkout, PipelineOutcome, asks_payment, fails, not_running,
}

-- A merchant's document that may be forwarded.
abbrev pub IsForwardable : Checks → Operation → ℕ → Json → Type 0
IsForwardable c operation status body =
    (status ≡ success_status operation)
    × ((c.conforms (response_definition operation body) body ≡ true)
        × (has_raw_html c body ≡ false))

success_low : (operation : Operation) → success_status operation < 500
success_low create_checkout_session = ground arith
success_low _ = ground arith

module _ (c : Checks) (operation : Operation) (status : ℕ) (body : Json) where
  refused_status :
      (eqb status (success_status operation) ≡ false)
      → to_acp_response c operation status body ≡ as_response processing_failure
  unfolding to_acp_response
  refused_status e = rw e refl

  refused_document :
      c.conforms (response_definition operation body) body ≡ false
      → to_acp_response c operation status body ≡ as_response processing_failure
  unfolding to_acp_response
  refused_document e = rw e (ground arith)

  refused_markup :
      has_raw_html c body ≡ true
      → to_acp_response c operation status body ≡ as_response processing_failure
  unfolding to_acp_response
  refused_markup e = rw e (ground arith)

  forwarded :
      IsForwardable c operation status body
      → to_acp_response c operation status body ≡ record {
        status = success_status operation;
        body = body;
        replayed = false;
        retry_after_seconds = none;
      }
  unfolding to_acp_response
  forwarded (same, (valid, clean)) = rw (valid, clean) (ground (arith, same))

  -- The response is the merchant's document, or the refusal.
  forwarded_or_refused :
      IsForwardable c operation status body
      ⊎ (to_acp_response c operation status body ≡ as_response processing_failure)
  forwarded_or_refused = elim (Bool-cases (eqb status (success_status operation))) [
    | inr other ↦ inr (refused_status other)
    | inl same ↦ elim (Bool-cases (c.conforms (response_definition operation body) body)) [
      | inr invalid ↦ inr (refused_document invalid)
      | inl valid ↦ elim (Bool-cases (has_raw_html c body)) [
        | inl markup ↦ inr (refused_markup markup)
        | inr clean ↦ inl (ground arith, (valid, clean))
      ]
    ]
  ]

-- A delivered checkout is answered with the merchant's document on the route's success status
-- exactly if the backend's status is that status, the document conforms to the route's schema, and no
-- markdown in it has HTML markup; it is answered with status 500 otherwise.
pub forwarded_iff :
    (c : Checks) (operation : Operation) (status : ℕ) (body : Json)
    → let r = (run_checkout c operation (delivers status body)).response in
      ((r.status ≡ success_status operation) ↔ IsForwardable c operation status body)
      × (((r.status ≡ success_status operation) × (r.body ≡ body)) ⊎ (r.status ≡ 500))
unfolding run_checkout
forwarded_iff c operation status body = elim (forwarded_or_refused c operation status body) [
  | inl fit ↦ rw (forwarded c operation status body fit) ((λ _. fit, λ _. refl), inl (refl, refl))
  | inr refused ↦ rw refused (
    (
      λ e. ground (arith, success_low operation),
      λ fit.
          ap (λ (r : AcpResponse). r.status) (sym refused ∙ forwarded c operation status body fit),
    ),
    inr refl,
  )
]

-- What a client may be told to wait.
abbrev pub IsWait : Option ℕ → Type 0
IsWait none = Unit
IsWait (some n) = (1 ≤ n) × (n ≤ 300)

IsWait-capped : (o : Option ℕ) → IsWait (some (capped o))
IsWait-capped none = (omega arith, omega arith)
IsWait-capped (some n) = (ground arith, ground arith)

IsWait-wait_for : (c : Checks) (cause : Option MerchantAnswer) → IsWait (some (wait_for c cause))
IsWait-wait_for c none = (omega arith, omega arith)
IsWait-wait_for c (some answer) = IsWait-capped (header_seconds c answer.retry_after)

-- A failure that says to wait has a status from 500 on.
record IsPolite (f : AcpFailure) : Type 0 where
  calm : f.status < 500 → f.retry_after_seconds ≡ none
  bounded : IsWait f.retry_after_seconds

IsPolite-without_wait : (f : AcpFailure) → f.retry_after_seconds ≡ none → IsPolite f
IsPolite-without_wait f e = record { calm = λ _. e; bounded = subst IsWait (sym e) tt }

IsPolite-not_allowed : (operation : Operation) → IsPolite (not_allowed operation)
IsPolite-not_allowed cancel_checkout_session = IsPolite-without_wait _ refl
IsPolite-not_allowed _ = IsPolite-without_wait _ refl

IsPolite-unavailable : (n : ℕ) → IsWait (some n) → IsPolite (unavailable n)
IsPolite-unavailable n h = record { calm = λ low. ground (arith, low); bounded = h }

IsPolite-failure_of_status :
    (status wait : ℕ) (operation : Operation)
    → IsWait (some wait)
    → IsPolite (failure_of_status status wait operation)
IsPolite-failure_of_status status wait operation h =
    if-cases IsPolite (eqb status 404) _ _ (λ _. IsPolite-without_wait _ refl)
      (λ _.
        if-cases IsPolite (eqb status 405) _ _ (λ _. IsPolite-not_allowed operation)
          (λ _.
            if-cases IsPolite (eqb status 400 || eqb status 422) _ _
              (λ _. IsPolite-without_wait _ refl)
              (λ _.
                if-cases IsPolite (eqb status 409) _ _ (λ _. IsPolite-without_wait _ refl)
                  (λ _.
                    if-cases IsPolite (eqb status 429 || eqb status 503) _ _
                      (λ _. IsPolite-unavailable wait h) (λ _. IsPolite-without_wait _ refl)))))

IsPolite-status_failure :
    (c : Checks) (e : CheckoutError) (operation : Operation)
    → IsPolite (status_failure c e operation)
unfolding status_failure merchant_retry_after_seconds
IsPolite-status_failure c e operation =
    IsPolite-failure_of_status (get_or e.status 0) (wait_for c e.cause) operation
      (IsWait-wait_for c e.cause)

IsPolite-relayed :
    (c : Checks) (f : AcpFailure) (body : Json) (code : Option String)
    → IsPolite f
    → IsPolite (relayed c f body code)
IsPolite-relayed c f body none h = h
IsPolite-relayed c f body (some code) h =
    if-cases IsPolite (c.is_merchant_code code) _ _ (λ _. IsPolite-without_wait _ refl) (λ _. h)

IsPolite-caused :
    (c : Checks) (f : AcpFailure) (cause : Option MerchantAnswer)
    → IsPolite f
    → IsPolite (caused c f cause)
IsPolite-caused c f none h = h
IsPolite-caused c f (some answer) h =
    if-cases IsPolite _ _ _ (λ _. h)
      (λ _. IsPolite-relayed c f answer.body (text_of "code" answer.body) h)

IsPolite-failure_for :
    (code : CommerceErrorCode) (f : AcpFailure) → IsPolite f → IsPolite (failure_for code f)
IsPolite-failure_for backend_error f h = h
IsPolite-failure_for _ f h = IsPolite-without_wait _ refl

IsPolite-mapped :
    (c : Checks) (e : CheckoutError) (operation : Operation)
    → IsPolite (map_commerce_error_to_acp c e operation)
unfolding map_commerce_error_to_acp from_backend_status with_merchant_error
IsPolite-mapped c e operation =
    let h = IsPolite-status_failure c e operation in
    IsPolite-failure_for e.code (from_backend_status c e operation) (
      if-cases IsPolite _ _ _ (λ _. IsPolite-caused c (status_failure c e operation) e.cause h)
        (λ _. h))

IsWait-run :
    (c : Checks) (operation : Operation) (outcome : PipelineOutcome)
    → let r = (run_checkout c operation outcome).response in
      (r.status < 500 → r.retry_after_seconds ≡ none) × IsWait r.retry_after_seconds
unfolding run_checkout
IsWait-run c operation not_running = (λ _. refl, tt)
IsWait-run c operation asks_payment = (λ _. refl, tt)
IsWait-run c operation (delivers status body) =
    elim (forwarded_or_refused c operation status body) [
      | inl fit ↦ rw (forwarded c operation status body fit) (λ _. refl, tt)
      | inr refused ↦ rw refused (λ _. refl, tt)
    ]
IsWait-run c operation (fails e) = let h = IsPolite-mapped c e operation in (h.calm, h.bounded)

-- An answer that a request is given before it runs, and its wait.
abbrev pub IsEarlyWait : ClaimResult → AcpResponse → Type 0
IsEarlyWait result r =
    ((result ≡ still_in_flight) × (r.status ≡ 409) × (r.retry_after_seconds ≡ some 1))
    ⊎ ((result ≢ still_in_flight) × (r.retry_after_seconds ≡ none))

IsEarlyWait-claim_answer :
    (result : ClaimResult) (early : AcpResponse)
    → claim_answer result ≡ answered early
    → IsEarlyWait result early
unfolding claim_answer
IsEarlyWait-claim_answer reserved early e = cc
IsEarlyWait-claim_answer still_in_flight early e = inl (refl, ground arith, ground arith)
IsEarlyWait-claim_answer outcome_unknown early e = inr (λ same. cc, ground arith)
IsEarlyWait-claim_answer conflict early e = inr (λ same. cc, ground arith)
IsEarlyWait-claim_answer (replay status body) early e = inr (λ same. cc, ground arith)

-- The response of a checkout that has run carries a wait only with a status from 500 on, and the
-- wait is between 1 and 300 seconds, whatever the merchant's header says. A request that its claim
-- answers before it runs is told to wait only while its key is in flight, for one second and with
-- status 409.
pub run_checkout-IsWait :
    (c : Checks) (operation : Operation) (outcome : PipelineOutcome) (result : ClaimResult)
    (early : AcpResponse)
    → claim_answer result ≡ answered early
    → let r = (run_checkout c operation outcome).response in
      (r.status < 500 → r.retry_after_seconds ≡ none)
      × IsWait r.retry_after_seconds
      × IsEarlyWait result early
run_checkout-IsWait c operation outcome result early e =
    let h = IsWait-run c operation outcome in (h.0, h.1, IsEarlyWait-claim_answer result early e)
