-- ===== src/Pipeline/Tests.antt =====
-- A purchase that settles first, one that settles after the backend, and the theorems at them.
use agent_commerce.Pipeline.Delivery.Purchase.{settle_and_deliver-IsPaid, settle_and_deliver-marks}
use agent_commerce.Pipeline.Marks.{
  attempt_moved, backend_answered, has_returned, marks, settle_called,
}
use agent_commerce.Pipeline.Settlement.{SettleArgs, settle}
use agent_commerce.Pipeline.Settlement.Verdict.{settle-marks}
use agent_commerce.Pipeline.Delivery.{
  Delivered, after_backend, call_backend, deliver, save_receipt, settle_and_deliver, deferred_of,
  direct_of,
}
use agent_commerce.Pipeline.Delivery.Order.{IsAnswer, IsPaid}
use agent_commerce.Pipeline.Admission.{settle_args_of}
use agent_commerce.Pipeline.Execute.{new_flow}
use agent_commerce.Pipeline.{
  BackendResponse, Env, PaymentProvider, PaymentRequirement, PaymentResult, PaymentStatus, Request,
  Resource, answers, fixed, settled, verified,
}
use agent_commerce.Core.Attempt
use agent_commerce.Core.Time.{not_a_date}
use agent_commerce.Prelude.{Bool, [], false, none, refl, some, true, ◌∷◌, ◌≡◌}
use agent_commerce.Json.{end, object, string}

abbrev offer : Bool → PaymentRequirement
offer after = record {
  provider = "x402";
  network = some "base";
  asset = none;
  envelope = none;
  settle_after_backend = after;
  reuse_rejected = false;
}

abbrev result_of : PaymentStatus → PaymentResult
result_of status = record {
  status = status;
  external_reference = some "0xabc";
  payer = none;
  payee = none;
  amount = "0.01";
  currency = "USD";
  network = none;
  asset = none;
  replay_key = some "k1";
  rejection_reason = none;
  metadata = none;
}

abbrev x402 : Bool → PaymentProvider
x402 after = record {
  name = "x402";
  create_requirement = answers (offer after);
  select_requirement = none;
  verify = λ r. answers (result_of verified);
  settle = λ r v. answers (result_of settled);
}

abbrev weather : Resource
weather = record {
  id = "weather";
  exposed_via = "http" ∷ [];
  pricing = fixed "0.01" "USD";
  payment_methods = "x402" ∷ [];
  required = [];
  timeout_ms = none;
}

abbrev sunny : BackendResponse
sunny = record {
  status = 200;
  body = string "sunny";
  headers = ("content-type", "text/plain") ∷ [];
}

abbrev shop : Env
shop = record {
  transaction_id = "t1";
  receipt_id = "rc1";
  dispatched_at = 5;
  resources = λ id. some weather;
  providers = x402 false ∷ [];
  authorization_providers = [];
  validate = λ r j. true;
  request_shape = λ r j. none;
  reserve = λ r. answers (some "t1");
  find_status = λ k. answers none;
  has_steps = true;
  step_succeeds = λ k. true;
  update_succeeds = λ u. true;
  save_succeeds = λ r. true;
  backend = λ r j. answers sunny;
  read_time = λ s. not_a_date;
  input_digest = λ j. none;
  config_digest = λ r q. "sha256:00";
}

abbrev order : Request
order = record {
  request_id = "r1";
  resource_id = "weather";
  protocol = "http";
  input = object end;
  has_payment = true;
  authorization = none;
}

abbrev args_of : Bool → SettleArgs
args_of after = settle_args_of (x402 after) (offer after) (result_of verified) "k1" none

abbrev served : Delivered
served = record {
  backend_status = 200;
  body = string "sunny";
  headers = ("content-type", "text/plain") ∷ [];
  payment = some (result_of settled);
  receipt = record {
    id = "rc1";
    backend_status = 200;
    payment = some (result_of settled);
    authorization = none;
    backend_error_code = none;
    transaction_id = "t1";
  };
  persistence_failures = [];
}

settle-marks_example :
    (marks (settle shop (args_of false) new_flow).0.effects
      ≡ attempt_moved Attempt.settled ∷ settle_called ∷ [])
    × (has_returned (settle shop (args_of false) new_flow).1 ≡ true)
    × ((r : PaymentResult)
        → (settle shop (args_of false) new_flow).1 ≡ answers r
        → (answers (result_of settled) ≡ answers r) × (r.status ≡ settled))
unfolding marks
settle-marks_example = settle-marks shop (args_of false) new_flow

settle_and_deliver-marks_example :
    marks (settle_and_deliver shop weather (object end) (some (args_of true)) new_flow).0.effects
    ≡ attempt_moved Attempt.settled ∷ settle_called ∷ backend_answered ∷ []
unfolding marks
settle_and_deliver-marks_example =
    settle_and_deliver-marks shop weather (object end) (args_of true) new_flow

settle_and_deliver-IsPaid_example : IsPaid (args_of false) served × IsAnswer (answers sunny) served
unfolding settle_and_deliver settle call_backend after_backend deliver save_receipt direct_of
    deferred_of
settle_and_deliver-IsPaid_example =
    settle_and_deliver-IsPaid shop weather (object end) (args_of false) new_flow served refl
