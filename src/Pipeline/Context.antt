-- ===== src/Pipeline/Context.antt =====
-- src/core/execution/pipeline/context.ts: writes that never fail a flow.
use agent_commerce.Prelude.{
  Bool, List, Option, [], false, if◌then◌else◌, none, not, some, ◌++◌, ◌||◌, ◌∷◌,
}
use agent_commerce.Store.Journal.Writes.{AttemptUpdate, StepKind, hold}
use agent_commerce.Pipeline.{
  Answer, CommerceError, Effect, Env, Event, Failure, Flow, HoldAction, answers, emits, failure_eq,
  finalizes, hold_state_of, journal, payment_attempt, records, throws, typed, updates,
  AuthorizationHold,
}

-- A stage either returns or throws, and keeps what it did.
abbrev pub Stage {ℓ} : Type ℓ → Type ℓ
Stage A = Flow → Flow × Answer A

infixl 5 ◌>>=◌ ◌>>◌
abbrev pub ◌>>=◌ {ℓ κ} : {A : Type ℓ} {B : Type κ} → Stage A → (A → Stage B) → Stage B
◌>>=◌ m f flow =
    let (flow', a) = m flow in elim a [ answers x ↦ f x flow' | throws e ↦ (flow', throws e) ]

abbrev pub ◌>>◌ {ℓ κ} : {A : Type ℓ} {B : Type κ} → Stage A → Stage B → Stage B
m >> k = m >>= λ _. k

abbrev pub pure {ℓ} : {A : Type ℓ} → A → Stage A
pure a flow = (flow, answers a)

abbrev pub throw {ℓ} : {A : Type ℓ} → CommerceError → Stage A
throw e flow = (flow, throws (typed e))

-- A call that leaves the pipeline, and its answer.
abbrev pub call {ℓ} : {A : Type ℓ} → Effect → A → Stage A
call e a flow = (record flow { effects = e ∷ flow.effects }, answers a)

-- `safeEmit`: a sink that fails is logged.
abbrev pub safe_emit : Event → Stage (Unit {0})
safe_emit event = call (emits event) tt

unfoldable pub includes_failure : Failure → List Failure → Bool
includes_failure f [] = false
includes_failure f (g ∷ gs) = failure_eq f g || includes_failure f gs

-- `flow.persistenceFailures.push(failure)`, once for each label
unfoldable pub note_failure : Failure → List Failure → List Failure
unfolding includes_failure
note_failure f fs = if includes_failure f fs then fs else fs ++ f ∷ []

-- `safePersist` with a label of a failure
unfoldable pub safe_persist : Effect → Bool → Failure → Stage Bool
safe_persist op succeeds failure flow = (
  record flow {
    failures = if succeeds then flow.failures else note_failure failure flow.failures;
    effects = op ∷ flow.effects;
  },
  answers succeeds,
)

-- `recordStep`
unfoldable pub record_step : Env → StepKind → Stage (Unit {0})
unfolding safe_persist
record_step env step flow = (
  if not flow.journaled || not env.has_steps
      then flow
      else (safe_persist (records step) (env.step_succeeds step) journal flow).0,
  answers tt,
)

-- `updatePaymentAttempt` under `safePersist`
abbrev pub persist_update : Env → AttemptUpdate → Stage Bool
persist_update env u = safe_persist (updates u) (env.update_succeeds u) payment_attempt

-- `finalizeHold`
unfoldable pub finalize_hold : Env → Option AuthorizationHold → HoldAction → Stage (Unit {0})
unfolding record_step hold_state_of
finalize_hold env h action flow = (
  elim h [
    | none ↦ flow
    | some h ↦
        let called = record flow { effects = finalizes action ∷ flow.effects } in
        if h.finalize_succeeds action
        then (record_step env (hold (hold_state_of action)) called).0
        else called
  ],
  answers tt,
)
