-- ===== src/Pipeline/Admission/Order.antt =====
-- What a payment that src/core/execution/pipeline/admission.ts admits rests on.
use agent_commerce.Pipeline.Authorization.Held.{IsHeld, authorized-IsHeld}
use mathlib.Core.List.{Mem}
use agent_commerce.Json.{Json}
use agent_commerce.Prelude.{true, Bool}
use agent_commerce.Pipeline.Admission.{given_key}
use agent_commerce.Pipeline.Admission.Admitted.{
  IsAdmitted, IsOffered, given_key-some, picked-Mem, reservation_of-IsReservation,
  selected-IsChosen,
}
use agent_commerce.Pipeline.Context.{Stage, ◌>>=◌, call}
use agent_commerce.Pipeline.Marks.{
  Mark, attempt_opened, marks, bind-answers, bind-throws, status-cases,
}
use agent_commerce.Pipeline.Authorization.{
  authorization_answered, authorization_refused, authorize_and_reserve,
  resolve_authorization_providers,
}
use agent_commerce.Pipeline.Admission.{
  Admission, admitted, reserve_answered, reservation_of, reserve_failed, reserve_payment,
  refuse_payment, verify_answered, reserve_held, settle_args_of, admit_by, admit_payment,
  challenge_payment, pick_provider, required_answered, selected_requirement, verify_payment,
  verify_selected,
}
use agent_commerce.Pipeline.Settlement.{SettleArgs}
use agent_commerce.Pipeline.{
  Answer, AuthorizationProvider, Env, Flow, Request, answers, verified, PaymentProvider,
  PaymentRequirement, PaymentResult, Resource, throws, reserves, creates_requirement, verifies,
  Thrown,
}
use agent_commerce.Prelude.{
  List, Option, String, [], arith, inl, inr, refl, ◌∷◌, ◌≡◌, ap, none, some, subst, sym, ◌∙◌,
  Bool-cases, if◌then◌else◌,
}
use agent_commerce.Store.Journal.Reserve.{Reservation}

-- The reservation was granted, as the last thing that happened.
pub record Admits (env : Env) (request : Request) (resource : Resource) (input : Json)
    (ms : List Mark) (out : Flow × Answer Admission) : Type 0 where
  pub admits :
      (args : SettleArgs)
      → out.1 ≡ answers (admitted args)
      → (r : Reservation) × (marks out.0.effects ≡ attempt_opened r ∷ ms)
        × IsAdmitted env request resource input args r

-- What a stage does not do to the marks.
abbrev pub Keeps {ℓ} : {A : Type ℓ} → List Mark → Flow × Answer A → Type 0
Keeps ms out = marks out.0.effects ≡ ms

module _ (env : Env) (request : Request) (resource : Resource) (input : Json) where
  abbrev AdmitsHere : List Mark → Flow × Answer Admission → Type 0
  AdmitsHere ms out = Admits env request resource input ms out

  Admits-refused : (ms : List Mark) (flow : Flow) (e : Thrown) → AdmitsHere ms (flow, throws e)
  Admits-refused ms flow e = record { admits = λ args returned. ground arith }

  reserve_answered-Admits :
      (args : SettleArgs) (r : Reservation) (answer : Answer (Option String)) (flow : Flow)
      (ms : List Mark)
      → marks flow.effects ≡ attempt_opened r ∷ ms
      → ((id : Option String) → answer ≡ answers id → IsAdmitted env request resource input args r)
      → AdmitsHere ms (reserve_answered env args answer flow)
  unfolding marks reserve_answered reserve_failed
  reserve_answered-Admits args r (answers id) flow ms h fit = record {
    admits = λ args' returned.
        (let same : args ≡ args' = ground arith in
          (r, h, subst (λ a. IsAdmitted env request resource input a r) same (fit id refl)));
  }
  reserve_answered-Admits args r (throws x) flow ms h fit = record {
    admits = λ args' returned. ground arith;
  }

  authorize-Keeps :
      (ps : List AuthorizationProvider) (flow : Flow)
      → Keeps (marks flow.effects) (authorize_and_reserve request ps flow)
  unfolding marks authorize_and_reserve authorization_answered authorization_refused
  authorize-Keeps [] flow = refl
  authorize-Keeps (p ∷ ps) flow = ground arith

  bind_out-Admits {ℓ} :
      {A : Type ℓ} (m : Stage A) (f : A → Stage Admission) (flow : Flow) (ms : List Mark)
      (out : Flow × Answer A)
      → m flow ≡ out
      → marks out.0.effects ≡ ms
      → ((a : A) (flow' : Flow)
          → (m flow).1 ≡ answers a
          → marks flow'.effects ≡ ms
          → AdmitsHere ms (f a flow'))
      → AdmitsHere ms ((m >>= f) flow)
  bind_out-Admits m f flow ms (flow', answers a) e k g =
      subst (AdmitsHere ms) (sym (bind-answers m f flow flow' a e))
        (g a flow' (ap (λ out. out.1) e) k)
  bind_out-Admits m f flow ms (flow', throws x) e k g =
      subst (AdmitsHere ms) (sym (bind-throws m f flow flow' x e)) (Admits-refused ms flow' x)

  -- A stage that keeps the marks, and what follows it.
  bind-Admits {ℓ} :
      {A : Type ℓ} (m : Stage A) (f : A → Stage Admission) (flow : Flow) (ms : List Mark)
      → marks (m flow).0.effects ≡ ms
      → ((a : A) (flow' : Flow)
          → (m flow).1 ≡ answers a
          → marks flow'.effects ≡ ms
          → AdmitsHere ms (f a flow'))
      → AdmitsHere ms ((m >>= f) flow)
  bind-Admits m f flow ms k g = bind_out-Admits m f flow ms (m flow) refl k g

  reserve_held-Admits :
      (args : SettleArgs) (flow : Flow) (ms : List Mark)
      → marks flow.effects ≡ ms
      → IsOffered env request resource args.provider args.requirement args.verification
      → args.verification.status ≡ verified
      → given_key args.verification.replay_key ≡ some args.replay_key
      → IsHeld env request resource args.hold
      → AdmitsHere ms (reserve_held env request resource input args args.hold flow)
  unfolding marks reserve_held
  reserve_held-Admits args flow ms k offered v key held =
      let r =
        reservation_of env request resource input args.provider args.requirement args.verification
          args.replay_key args.hold in
      let (is_key, full) = given_key-some args.verification.replay_key args.replay_key key in
      reserve_answered-Admits args r (env.reserve r)
        (record flow { effects = reserves r ∷ flow.effects }) ms
        (ap (λ ns. attempt_opened r ∷ ns) k)
        (λ id granted. record {
          offered = offered;
          verified_it = v;
          key = is_key;
          not_empty = full;
          held = held;
          reserved = reservation_of-IsReservation env request resource input args;
          attempt_id = id;
          granted = granted;
        })

  module _ (provider : PaymentProvider) (authorizations : List AuthorizationProvider)
      (before : Flow)
      (resolved : (resolve_authorization_providers env.authorization_providers resource.required
          before).1
        ≡ answers authorizations) where
    -- The reservations of a verified payment.
    reserve_payment-Admits :
        (requirement : PaymentRequirement) (verification : PaymentResult) (key : Option String)
        (flow : Flow) (ms : List Mark)
        → given_key verification.replay_key ≡ key
        → marks flow.effects ≡ ms
        → IsOffered env request resource provider requirement verification
        → verification.status ≡ verified
        → AdmitsHere ms (
            reserve_payment env request resource input provider authorizations requirement
              verification flow)
    unfolding marks reserve_payment
    reserve_payment-Admits requirement verification none flow ms e h offered v =
        rw (reserve_payment, e) (Admits-refused ms _ _)
    reserve_payment-Admits requirement verification (some key) flow ms e h offered v =
        rw (reserve_payment, e)
          (bind-Admits (authorize_and_reserve request authorizations)
            (λ held.
              reserve_held env request resource input
                (settle_args_of provider requirement verification key held) held)
            flow ms (authorize-Keeps authorizations flow ∙ h)
            (λ held flow' answered k.
              reserve_held-Admits (settle_args_of provider requirement verification key held) flow'
                ms k offered v e
                (authorized-IsHeld env request resource authorizations before flow held resolved
                  answered)))

    verify_answered-Admits :
        (requirement : PaymentRequirement) (answer : Answer PaymentResult) (flow : Flow)
        (ms : List Mark)
        → marks flow.effects ≡ ms
        → ((v : PaymentResult)
            → answer ≡ answers v
            → IsOffered env request resource provider requirement v)
        → AdmitsHere ms (
            verify_answered env request resource input provider authorizations requirement answer
              flow)
    unfolding marks verify_answered refuse_payment
    verify_answered-Admits requirement (throws e) flow ms h fit = Admits-refused ms _ _
    verify_answered-Admits requirement (answers verification) flow ms h fit =
        elim (status-cases verification.status) [
          | inl s ↦ rw (verify_answered, s) (Admits-refused ms _ _)
          | inr (inl s) ↦ rw (verify_answered, s) (Admits-refused ms _ _)
          | inr (inr s) ↦
              rw (verify_answered, s)
                (reserve_payment-Admits requirement verification (given_key verification.replay_key)
                  flow ms refl h (fit verification refl) s)
        ]

    -- What is known of a provider before the proof is looked at.
    verify_payment-Admits :
        (offer : PaymentRequirement) (flow : Flow) (ms : List Mark)
        → marks flow.effects ≡ ms
        → Mem provider env.providers × Mem provider.name resource.payment_methods
        → request.has_payment ≡ true
        → provider.create_requirement ≡ answers offer
        → AdmitsHere ms
            (verify_payment env request resource input provider authorizations offer flow)
    unfolding marks verify_payment verify_selected
    verify_payment-Admits offer flow ms h (enabled, listed) proof created =
        bind-Admits (selected_requirement provider offer)
          (verify_selected env request resource input provider authorizations offer) flow ms
          (ground (arith, h)) (λ selected flow' e k. verify_selected-Admits selected flow' e k)
      where
        verify_selected-Admits :
            (selected : Answer PaymentRequirement) (flow' : Flow)
            → (selected_requirement provider offer flow).1 ≡ answers selected
            → marks flow'.effects ≡ ms
            → AdmitsHere ms (
                verify_selected env request resource input provider authorizations offer selected
                  flow')
        verify_selected-Admits (throws x) flow' e k =
            verify_answered-Admits offer (throws x) flow' ms k (λ v h. ground arith)
        verify_selected-Admits (answers requirement) flow' e k =
            verify_answered-Admits requirement (provider.verify requirement)
              (record flow' { effects = verifies ∷ flow'.effects }) ms k
              (λ v answered. record {
                enabled = enabled;
                listed = listed;
                proof = proof;
                offer = offer;
                created = created;
                chosen = selected-IsChosen provider offer requirement flow e;
                answered = answered;
              })

    -- What follows the challenge.
    required_answered-Admits :
        (answer : Answer PaymentRequirement) (flow : Flow) (ms : List Mark)
        → marks flow.effects ≡ ms
        → Mem provider env.providers × Mem provider.name resource.payment_methods
        → provider.create_requirement ≡ answer
        → AdmitsHere ms
            (required_answered env request resource input provider authorizations answer flow)
    unfolding marks required_answered
    required_answered-Admits (throws e) flow ms h picked created = Admits-refused ms _ _
    required_answered-Admits (answers offer) flow ms h picked created =
        elim (Bool-cases request.has_payment) [
          | inl proof ↦
              subst (λ c. AdmitsHere ms (answered_if c offer flow)) (sym proof)
                (verify_payment-Admits offer flow ms h picked proof created)
          | inr bare ↦
              subst (λ c. AdmitsHere ms (answered_if c offer flow)) (sym bare)
                (record { admits = λ args returned. ground arith })
        ]
      where
        answered_if : Bool → PaymentRequirement → Stage Admission
        answered_if c offer =
            if c
            then verify_payment env request resource input provider authorizations offer
            else challenge_payment offer authorizations

  resolve-Keeps :
      (enabled : List AuthorizationProvider) (methods : List String) (flow : Flow)
      → Keeps (marks flow.effects) (resolve_authorization_providers enabled methods flow)
  unfolding resolve_authorization_providers
  resolve-Keeps enabled [] flow = refl
  resolve-Keeps enabled (method ∷ methods) flow = ground (arith, resolve-Keeps enabled methods flow)

  pub admit_payment-Admits :
      (flow : Flow)
      → AdmitsHere (marks flow.effects) (admit_payment env request resource input flow)
  unfolding marks admit_payment admit_by
  admit_payment-Admits flow =
      by (pick_provider env.providers resource.payment_methods)
        (λ p e. picked-Mem env.providers resource.payment_methods p e)
    where
      by :
          (picked : Option PaymentProvider)
          → ((p : PaymentProvider)
              → picked ≡ some p
              → Mem p env.providers × Mem p.name resource.payment_methods)
          → AdmitsHere (marks flow.effects) (admit_by env request resource input picked flow)
      by none fit = Admits-refused (marks flow.effects) _ _
      by (some provider) fit =
          bind-Admits
            (resolve_authorization_providers env.authorization_providers resource.required)
            (λ authorizations.
              call creates_requirement provider.create_requirement
              >>= required_answered env request resource input provider authorizations)
            flow (marks flow.effects)
            (resolve-Keeps env.authorization_providers resource.required flow)
            (λ authorizations flow' e k.
              required_answered-Admits provider authorizations flow e provider.create_requirement
                (record flow' { effects = creates_requirement ∷ flow'.effects })
                (marks flow.effects) k (fit provider refl) refl)
