-- ===== src/Pipeline/Execute/Checked.antt =====
-- The checks that `execute` of src/core/execution/pipeline/index.ts makes before any payment.
use agent_commerce.Prelude.{Bool, Option, [], arith, false, none, refl, some, true, ◌∷◌, ◌≡◌}
use agent_commerce.Json.{Json}
use agent_commerce.Pipeline.{
  CommerceError, Env, Flow, Request, Resource, answers, emits, resource_requested,
}
use agent_commerce.Pipeline.Delivery.{Delivered}
use agent_commerce.Pipeline.Execute.{
  delivers, execute_resolved, execute_shaped, execute_valid, new_flow, strip_reserved_fields,
}

-- The input passes the resource's schema, and the backend can receive the request.
abbrev pub IsChecked : Env → Resource → Json → Type 0
IsChecked env resource input =
    (env.validate resource input ≡ true) × (env.request_shape resource input ≡ none)

module _ (env : Env) (request : Request) (resource : Resource) (input : Json) (flow : Flow)
    (d : Delivered) where
  shaped-delivers :
      (shape : Option CommerceError)
      → (execute_shaped env request resource input shape flow).1 ≡ answers (delivers d)
      → shape ≡ none
  unfolding execute_shaped
  shaped-delivers none returned = refl
  shaped-delivers (some e) returned = ground arith

  valid-delivers :
      (is_valid : Bool)
      → (execute_valid env request resource input is_valid flow).1 ≡ answers (delivers d)
      → (is_valid ≡ true) × (env.request_shape resource input ≡ none)
  unfolding execute_valid
  valid-delivers true returned = (refl, shaped-delivers (env.request_shape resource input) returned)
  valid-delivers false returned = ground arith

pub delivers-IsChecked :
    (env : Env) (request : Request) (resource : Resource) (d : Delivered)
    → (execute_resolved env request resource new_flow).1 ≡ answers (delivers d)
    → IsChecked env resource (strip_reserved_fields request.input)
unfolding execute_resolved
delivers-IsChecked env request resource d returned =
    let input = strip_reserved_fields request.input in
    valid-delivers env request resource input
      (record new_flow { effects = emits resource_requested ∷ [] }) d (env.validate resource input)
      returned
