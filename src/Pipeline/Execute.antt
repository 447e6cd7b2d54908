-- ===== src/Pipeline/Execute.antt =====
-- `execute` of src/core/execution/pipeline/index.ts.
pub mod Checked
pub mod Paid
use agent_commerce.Pipeline.Context.{Stage, pure, record_step, safe_emit, throw, ◌>>=◌}
use agent_commerce.Pipeline.Settlement.{SettleArgs}
use agent_commerce.Pipeline.Delivery.{Delivered, settle_and_deliver}
use agent_commerce.Pipeline.Admission.{admit_payment, admitted, payment_required, Admission}
use agent_commerce.Pipeline.{
  Answer, Env, Flow, PaymentRequirement, Pricing, Request, Resource, commerce_error, dynamic, fixed,
  free, resource_requested, Failure, journal, payment_attempt, receipt, CommerceError,
}
use agent_commerce.Prelude.{
  Bool, List, Option, String, [], false, if◌then◌else◌, none, not, some, true, ◌==◌, ◌||◌, ◌∷◌, map,
}
use agent_commerce.Json.{Fields, Json, end, field, object}
use agent_commerce.Core.Errors.{config_invalid, input_invalid, resource_not_found}
use agent_commerce.Store.PendingTasks.{is_reserved_field}
use agent_commerce.Store.Journal.Writes.{completed}

pub data Outcome : Type 0 where
  requires : PaymentRequirement → List String → Outcome
  delivers : Delivered → Outcome

-- RESERVED_INPUT_KEYS and `stripReservedFields`
unfoldable pub is_reserved_key : String → Bool
unfolding is_reserved_field
is_reserved_key key = is_reserved_field key || key == "__proto__"

unfoldable pub strip_fields : Fields → Fields
strip_fields end = end
strip_fields (field k v fs) =
    let rest = strip_fields fs in if is_reserved_key k then rest else field k v rest

unfoldable pub strip_reserved_fields : Json → Json
strip_reserved_fields (object fs) = object (strip_fields fs)
strip_reserved_fields j = j

unfoldable pub is_exposed : String → List String → Bool
is_exposed protocol [] = false
is_exposed protocol (p ∷ ps) = p == protocol || is_exposed protocol ps

-- `options.resources.get(request.resourceId)`, if the resource is exposed via the protocol
unfoldable pub exposed_resource : Env → Request → Option Resource
unfolding is_exposed
exposed_resource env request = elim (env.resources request.resource_id) [
  | none ↦ none
  | some resource ↦ if is_exposed request.protocol resource.exposed_via then some resource else none
]

abbrev pub failure_name : Failure → String
failure_name receipt = "receipt"
failure_name payment_attempt = "payment-attempt"
failure_name journal = "journal"

-- `finally`: the last step is recorded whatever the outcome.
unfoldable pub completing {ℓ} : {A : Type ℓ} → Env → Stage A → Stage A
unfolding record_step
completing env m flow =
    let (flow', a) = m flow in
    ((record_step env (completed (map failure_name flow'.failures)) flow').0, a)

abbrev pub has_requirement : List String → Bool
has_requirement [] = false
has_requirement (_ ∷ _) = true

abbrev pub settle_completing : Env → Resource → Json → Option SettleArgs → Stage Outcome
settle_completing env resource input args = do
  d ← completing env (settle_and_deliver env resource input args)
  pure (delivers d)

-- What follows the payment phase.
unfoldable pub fulfil : Env → Resource → Json → Admission → Stage Outcome
fulfil env resource input (payment_required requirement methods) =
    pure (requires requirement methods)
fulfil env resource input (admitted args) = settle_completing env resource input (some args)

-- The payment phase of a price, for a request that is valid.
unfoldable pub execute_priced : Env → Request → Resource → Json → Pricing → Stage Outcome
execute_priced env request resource input dynamic =
    throw (commerce_error config_invalid "uses unsupported dynamic pricing")
execute_priced env request resource input free =
    if has_requirement resource.required
    then throw (commerce_error config_invalid "requires authorization but is not a paid resource")
    else settle_completing env resource input none
execute_priced env request resource input (fixed amount currency) = do
  admission ← admit_payment env request resource input
  fulfil env resource input admission

-- What follows `validateBackendRequestShape`, and the validation before it.
unfoldable pub execute_shaped :
    Env → Request → Resource → Json → Option CommerceError → Stage Outcome
execute_shaped env request resource input (some e) = throw e
execute_shaped env request resource input none =
    execute_priced env request resource input resource.pricing

unfoldable pub execute_valid : Env → Request → Resource → Json → Bool → Stage Outcome
execute_valid env request resource input false =
    throw (commerce_error input_invalid "Input failed validation")
execute_valid env request resource input true =
    execute_shaped env request resource input (env.request_shape resource input)

-- `execute`, from the event on
unfoldable pub execute_resolved : Env → Request → Resource → Stage Outcome
execute_resolved env request resource =
    let input = strip_reserved_fields request.input in
    do
      _ ← safe_emit resource_requested
      execute_valid env request resource input (env.validate resource input)

-- `createFlow`
abbrev pub new_flow : Flow
new_flow = record { failures = []; journaled = false; effects = [] }

abbrev pub execute_found : Env → Request → Option Resource → Flow × Answer Outcome
execute_found env request none =
    throw (commerce_error resource_not_found "Resource was not found") new_flow
execute_found env request (some resource) = execute_resolved env request resource new_flow

unfoldable pub execute : Env → Request → Flow × Answer Outcome
unfolding exposed_resource
execute env request = execute_found env request (exposed_resource env request)

abbrev pub is_priced : Pricing → Bool
is_priced (fixed amount currency) = true
is_priced _ = false
