-- ===== src/Pipeline/Execute/Paid.antt =====
-- `execute` of src/core/execution/pipeline/index.ts on a resource with a price.
use agent_commerce.Pipeline.Delivery.Purchase.{purchase_marks}
use agent_commerce.Pipeline.Marks.{Mark, attempt_opened, marks}
use agent_commerce.Pipeline.Settlement.{SettleArgs}
use agent_commerce.Pipeline.Delivery.{Delivered}
use agent_commerce.Pipeline.Delivery.Order.{IsAnswer, IsPaid}
use agent_commerce.Pipeline.Admission.{Admission}
use agent_commerce.Pipeline.{Env, Flow, Resource, Request}
use agent_commerce.Prelude.{List, ◌∷◌, ◌≡◌}
use agent_commerce.Json.{Json}
use agent_commerce.Pipeline.Admission.Admitted.{IsAdmitted}
use agent_commerce.Store.Journal.Reserve.{Reservation}

-- A payment that an enabled provider offered and verified, whose reservation was granted, and that
-- the provider settled.
abbrev pub IsSettledFor : Env → Request → Resource → Json → List Mark → Flow → Delivered → Type 0
IsSettledFor env request resource input ms flow d =
    (args : SettleArgs) × (r : Reservation) × IsAdmitted env request resource input args r
    × IsPaid args d
    × IsAnswer (env.backend resource input) d
    × (marks flow.effects
        ≡ purchase_marks args (env.backend resource input) (attempt_opened r ∷ ms))
