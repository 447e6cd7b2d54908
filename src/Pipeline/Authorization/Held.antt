-- ===== src/Pipeline/Authorization/Held.antt =====
-- The authorization that src/core/execution/pipeline/authorization.ts reserves for a payment.
use mathlib.Core.List.{Mem, mem-cons_self, mem-cons_of_mem}
use agent_commerce.Prelude.{
  All, Bool-cases, List, Option, String, [], ap, arith, eq_iff, inl, inr, none, refl, some, subst,
  sym, ◌==◌, ◌∙◌, ◌∷◌, ◌≡◌, ◌⊎◌, All-map,
}
use agent_commerce.Pipeline.Marks.{bind-answers, bind-throws}
use agent_commerce.Pipeline.{
  Answer, AuthorizationHold, AuthorizationProvider, AuthorizationVerification, Env, Flow, Request,
  Resource, answers, authorizes, throws,
}
use agent_commerce.Pipeline.Context.{Stage, pure}
use agent_commerce.Pipeline.Authorization.{
  authorization_answered, authorize_submitted, find_authorization, hold_if_met, submitted_provider,
  unmet_by, authorization_refused, authorize_and_reserve, resolve_authorization_providers,
  resolve_method,
}

-- A provider that reserved the proof of the request, and the hold that it gave.
abbrev pub IsHeldBy : (AuthorizationProvider → Type 0) → Request → Option AuthorizationHold → Type 0
IsHeldBy P request hold =
    (p : AuthorizationProvider) × (v : AuthorizationVerification) × P p
    × (request.authorization ≡ some p.name)
    × (p.verify_and_reserve ≡ answers v)
    × (hold
        ≡ some
            (record { verification = v; finalize_succeeds = p.finalize_succeeds v.reservation_id }))

-- An enabled provider of a method that the resource requires.
abbrev pub IsRequired : Env → Resource → AuthorizationProvider → Type 0
IsRequired env resource p = Mem p env.authorization_providers × Mem p.name resource.required

-- A resource that requires no authorization has no hold, and another has one of a provider that it
-- requires.
abbrev pub IsHeld : Env → Request → Resource → Option AuthorizationHold → Type 0
IsHeld env request resource hold =
    ((resource.required ≡ []) × (hold ≡ none)) ⊎ IsHeldBy (IsRequired env resource) request hold

All-Mem : (ps : List AuthorizationProvider) → All (λ p. Mem p ps) ps
All-Mem [] = tt
All-Mem (p ∷ ps) = (mem-cons_self, All-map ps (λ q m. mem-cons_of_mem p m) (All-Mem ps))

found-named :
    (P : AuthorizationProvider → Type 0) (name : String) (ps : List AuthorizationProvider)
    (p : AuthorizationProvider)
    → All P ps
    → find_authorization name ps ≡ some p
    → P p × (p.name ≡ name)
unfolding find_authorization
found-named P name [] p h e = cc
found-named P name (q ∷ ps) p (hq, h) e = elim (Bool-cases (q.name == name)) [
  | inl same ↦
      let it : q ≡ p = ground (arith, (rw same at e)) in
      (
        subst P it hq,
        ap (λ (x : AuthorizationProvider). x.name) (sym it) ∙ (eq_iff q.name name).0 same,
      )
  | inr other ↦ found-named P name ps p h (rw other at e)
]

submitted-named :
    (P : AuthorizationProvider → Type 0) (method : Option String) (ps : List AuthorizationProvider)
    (p : AuthorizationProvider)
    → All P ps
    → submitted_provider method ps ≡ some p
    → P p × (method ≡ some p.name)
unfolding submitted_provider
submitted-named P none ps p h e = cc
submitted-named P (some method) ps p h e =
    let (hp, named) = found-named P method ps p h e in (hp, ap some (sym named))

answered-held :
    (p : AuthorizationProvider) (answer : Answer AuthorizationVerification) (flow : Flow)
    (hold : Option AuthorizationHold)
    → (authorization_answered p answer flow).1 ≡ answers hold
    → (v : AuthorizationVerification) × (answer ≡ answers v)
      × (hold
          ≡ some (record {
            verification = v;
            finalize_succeeds = p.finalize_succeeds v.reservation_id;
          }))
unfolding authorization_answered
answered-held p (throws x) flow hold e = ground arith
answered-held p (answers v) flow hold e = (v, refl, ground arith)

refused-throws :
    (flow : Flow) (hold : Option AuthorizationHold)
    → ¬ ((authorization_refused flow).1 ≡ answers hold)
unfolding authorization_refused
refused-throws flow hold e = cc

met-held :
    (P : AuthorizationProvider → Type 0) (request : Request) (p : AuthorizationProvider)
    (unmet : List String) (flow : Flow) (hold : Option AuthorizationHold)
    → P p
    → request.authorization ≡ some p.name
    → (hold_if_met p unmet flow).1 ≡ answers hold
    → IsHeldBy P request hold
met-held P request p (_ ∷ _) flow hold h named e = absurd (refused-throws flow hold e)
met-held P request p [] flow hold h named e =
    let (v, answered, same) =
      answered-held p p.verify_and_reserve (record flow { effects = authorizes ∷ flow.effects })
        hold e in
    (p, v, h, named, answered, same)

submitted-held :
    (P : AuthorizationProvider → Type 0) (request : Request) (first : AuthorizationProvider)
    (others : List AuthorizationProvider) (submitted : Option AuthorizationProvider) (flow : Flow)
    (hold : Option AuthorizationHold)
    → All P (first ∷ others)
    → submitted_provider request.authorization (first ∷ others) ≡ submitted
    → (authorize_submitted submitted (first ∷ others) flow).1 ≡ answers hold
    → IsHeldBy P request hold
submitted-held P request first others none flow hold h s e = absurd (refused-throws flow hold e)
submitted-held P request first others (some p) flow hold h s e =
    let (hp, named) = submitted-named P request.authorization (first ∷ others) p h s in
    met-held P request p (unmet_by (some p) (first ∷ others)) flow hold hp named e

authorized-held :
    (P : AuthorizationProvider → Type 0) (request : Request) (ps : List AuthorizationProvider)
    (flow : Flow) (hold : Option AuthorizationHold)
    → All P ps
    → (authorize_and_reserve request ps flow).1 ≡ answers hold
    → ((ps ≡ []) × (hold ≡ none)) ⊎ IsHeldBy P request hold
unfolding authorize_and_reserve
authorized-held P request [] flow hold h e = inl (refl, ground arith)
authorized-held P request (first ∷ others) flow hold h e = inr (
    submitted-held P request first others
      (submitted_provider request.authorization (first ∷ others)) flow hold h refl e)

resolve_method-answers :
    (found : Option AuthorizationProvider) (others : Stage (List AuthorizationProvider))
    (flow : Flow) (ps : List AuthorizationProvider)
    (out : Flow × Answer (List AuthorizationProvider))
    → others flow ≡ out
    → (resolve_method found others flow).1 ≡ answers ps
    → (p : AuthorizationProvider) × (rest : List AuthorizationProvider) × (found ≡ some p)
      × (p ∷ rest ≡ ps)
      × ((others flow).1 ≡ answers rest)
resolve_method-answers none others flow ps out r e = cc
resolve_method-answers (some p) others flow ps (flow', answers rest) r e =
    let both = bind-answers others (λ rest. pure (p ∷ rest)) flow flow' rest r in
    let given = sym (ap (λ o. o.1) both) ∙ e in (p, rest, refl, ground arith, ap (λ o. o.1) r)
resolve_method-answers (some p) others flow ps (flow', throws x) r e =
    let both = bind-throws others (λ rest. pure (p ∷ rest)) flow flow' x r in
    let given = sym (ap (λ o. o.1) both) ∙ e in ground arith

find_authorization-Mem :
    (name : String) (ps : List AuthorizationProvider) (p : AuthorizationProvider)
    → find_authorization name ps ≡ some p
    → Mem p ps × (p.name ≡ name)
find_authorization-Mem name ps p e = found-named (λ q. Mem q ps) name ps p (All-Mem ps) e

-- The providers of the methods that a resource requires.
resolve-required :
    (enabled : List AuthorizationProvider) (methods : List String) (flow : Flow)
    (ps : List AuthorizationProvider)
    → (resolve_authorization_providers enabled methods flow).1 ≡ answers ps
    → All (λ p. Mem p enabled × Mem p.name methods) ps × (ps ≡ [] → methods ≡ [])
unfolding resolve_authorization_providers
resolve-required enabled [] flow ps e =
    let none_yet : [] ≡ ps = ground arith in
    (
      subst (All (λ (p : AuthorizationProvider). Mem p enabled × Mem p.name [])) none_yet tt,
      λ _. refl,
    )
resolve-required enabled (method ∷ methods) flow ps e =
    let (p, rest, found, same, resolved) =
      resolve_method-answers (find_authorization method enabled)
        (resolve_authorization_providers enabled methods) flow ps
        (resolve_authorization_providers enabled methods flow) refl e in
    let (members, some_left) = resolve-required enabled methods flow rest resolved in
    let (enabled_p, named) = find_authorization-Mem method enabled p found in
    (
      subst (All (λ (q : AuthorizationProvider). Mem q enabled × Mem q.name (method ∷ methods)))
          same
          (
            (enabled_p, subst (λ n. Mem n (method ∷ methods)) (sym named) mem-cons_self),
            All-map rest (λ q m. (m.0, mem-cons_of_mem method m.1)) members,
          ),
      λ empty. (let contradiction : p ∷ rest ≡ [] = same ∙ empty in ground arith),
    )

-- What `authorizeAndReserve` reserves, of the providers that the resource requires.
pub authorized-IsHeld :
    (env : Env) (request : Request) (resource : Resource) (ps : List AuthorizationProvider)
    (flow flow' : Flow) (hold : Option AuthorizationHold)
    → (resolve_authorization_providers env.authorization_providers resource.required flow).1
      ≡ answers ps
    → (authorize_and_reserve request ps flow').1 ≡ answers hold
    → IsHeld env request resource hold
authorized-IsHeld env request resource ps flow flow' hold resolved e =
    let (members, some_left) =
      resolve-required env.authorization_providers resource.required flow ps resolved in
    elim (authorized-held (IsRequired env resource) request ps flow' hold members e) [
      | inl (empty, no_hold) ↦ inl (some_left empty, no_hold)
      | inr held ↦ inr held
    ]
