-- ===== src/Pipeline/Authorization.antt =====
-- src/core/execution/pipeline/authorization.ts
pub mod Held
use agent_commerce.Pipeline.Context.{Stage, call, pure, safe_emit, throw, ◌>>=◌}
use agent_commerce.Pipeline.{
  Answer, AuthorizationHold, AuthorizationProvider, AuthorizationVerification, Request, answers,
  authorization_rejected, authorization_verified, authorizes, commerce_error, throws,
  to_commerce_error,
}
use agent_commerce.Prelude.{List, Option, String, [], if◌then◌else◌, none, some, ◌==◌, ◌∷◌, not}
use agent_commerce.Core.Errors.{
  authorization_provider_unavailable, authorization_required, config_invalid,
}

unfoldable pub find_authorization :
    String → List AuthorizationProvider → Option AuthorizationProvider
find_authorization name [] = none
find_authorization name (p ∷ ps) = if p.name == name then some p else find_authorization name ps

-- The provider that is found for a method, before those of the other methods
abbrev pub resolve_method :
    Option AuthorizationProvider
    → Stage (List AuthorizationProvider)
    → Stage (List AuthorizationProvider)
resolve_method none others =
    throw (commerce_error config_invalid "requires an authorization method that is not enabled")
resolve_method (some found) others = do rest ← others; pure (found ∷ rest)

-- `resolveAuthorizationProviders`
unfoldable pub resolve_authorization_providers :
    List AuthorizationProvider → List String → Stage (List AuthorizationProvider)
resolve_authorization_providers providers [] = pure []
resolve_authorization_providers providers (method ∷ methods) =
    resolve_method (find_authorization method providers)
      (resolve_authorization_providers providers methods)

-- The providers that the request's proof leaves unmet, each but `provider` itself; the names of
-- enabled providers differ, so a provider is known by its name.
unfoldable pub unmet_by : Option AuthorizationProvider → List AuthorizationProvider → List String
unmet_by provider [] = []
unmet_by provider (p ∷ ps) =
    let rest = unmet_by provider ps in
    elim provider [
      | none ↦ p.name ∷ rest
      | some q ↦ if p.name == q.name then rest else p.name ∷ rest
    ]

-- The provider for the method of the request's proof.
unfoldable pub submitted_provider :
    Option String → List AuthorizationProvider → Option AuthorizationProvider
submitted_provider none providers = none
submitted_provider (some method) providers = find_authorization method providers

-- What follows the answer of `verifyAndReserve`.
unfoldable pub authorization_answered :
    AuthorizationProvider → Answer AuthorizationVerification → Stage (Option AuthorizationHold)
authorization_answered provider (throws error) =
    let mapped =
      to_commerce_error error authorization_provider_unavailable
        "Authorization provider is unavailable" in
    do _ ← safe_emit (authorization_rejected mapped.code); throw mapped
authorization_answered provider (answers verification) = do
  _ ← safe_emit authorization_verified
  pure (
      some (record {
        verification = verification;
        finalize_succeeds = provider.finalize_succeeds verification.reservation_id;
      }))

unfoldable pub authorization_refused : Stage (Option AuthorizationHold)
authorization_refused = do
  _ ← safe_emit (authorization_rejected authorization_required)
  throw (commerce_error authorization_required "requires authorization")

-- The provider's call, if the proof leaves no other provider unmet
abbrev pub hold_if_met : AuthorizationProvider → List String → Stage (Option AuthorizationHold)
hold_if_met p (_ ∷ _) = authorization_refused
hold_if_met p [] = do answer ← call authorizes p.verify_and_reserve; authorization_answered p answer

abbrev pub authorize_submitted :
    Option AuthorizationProvider → List AuthorizationProvider → Stage (Option AuthorizationHold)
authorize_submitted none providers = authorization_refused
authorize_submitted (some p) providers = hold_if_met p (unmet_by (some p) providers)

-- `authorizeAndReserve`
unfoldable pub authorize_and_reserve :
    Request → List AuthorizationProvider → Stage (Option AuthorizationHold)
unfolding submitted_provider find_authorization unmet_by
authorize_and_reserve request [] = pure none
authorize_and_reserve request (first ∷ others) =
    let providers = first ∷ others in
    authorize_submitted (submitted_provider request.authorization providers) providers
