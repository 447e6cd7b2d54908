-- ===== src/Pipeline/Reserving.antt =====
-- What a payment reserves: `newTransaction` of src/core/execution/journal.ts, and the argument of
-- `reservePaymentAttempt` in src/core/execution/pipeline/admission.ts.
use agent_commerce.Pipeline.{
  AuthorizationHold, Env, PaymentProvider, PaymentRequirement, PaymentResult, Request, Resource,
}
use agent_commerce.Prelude.{Option, String, if◌then◌else◌, none, or_else, some}
use agent_commerce.Json.{Json, field_of, is_record, text_of}
use agent_commerce.Core.Time.{IsoTimestamp}
use agent_commerce.Store.Journal.Reserve.{NewTransaction, Reservation}

-- The value under RECONCILIATION_METADATA_KEY, if it is a record
abbrev record_of : Option Json → Option Json
record_of none = none
record_of (some j) = if is_record j then some j else none

abbrev pub locator_of : Option Json → Option Json
locator_of none = none
locator_of (some metadata) = record_of (field_of "reconciliation" metadata)

-- Its `expiresAt`, if that is a text
abbrev time_of : Env → Option String → Option IsoTimestamp
time_of env none = none
time_of env (some s) = some (env.read_time s)

abbrev pub locator_expiry : Env → Option Json → Option IsoTimestamp
locator_expiry env none = none
locator_expiry env (some locator) = time_of env (text_of "expiresAt" locator)

-- `newTransaction`, of the input that was validated
unfoldable pub new_transaction :
    Env
    → Request
    → Resource
    → Json
    → PaymentRequirement
    → PaymentResult
    → Option AuthorizationHold
    → NewTransaction
new_transaction env request resource input requirement verification h = record {
  id = env.transaction_id;
  protocol = request.protocol;
  network = or_else verification.network requirement.network;
  asset = or_else verification.asset requirement.asset;
  locator = locator_of verification.metadata;
  expires_at = locator_expiry env (locator_of verification.metadata);
  authorization = elim h [
    | none ↦ none
    | some held ↦ some (record {
      method = held.verification.method;
      reference = held.verification.reference;
      metadata = held.verification.metadata;
      reservation_id = held.verification.reservation_id;
    })
  ];
  input_digest = env.input_digest input;
  config_digest = env.config_digest resource requirement;
}

unfoldable pub reservation_of :
    Env
    → Request
    → Resource
    → Json
    → PaymentProvider
    → PaymentRequirement
    → PaymentResult
    → String
    → Option AuthorizationHold
    → Reservation
unfolding new_transaction
reservation_of env request resource input provider requirement verification key h = record {
  request_id = request.request_id;
  resource_id = resource.id;
  provider = provider.name;
  replay_key = key;
  amount = verification.amount;
  currency = verification.currency;
  payer = verification.payer;
  payee = verification.payee;
  reclaim_rejected = requirement.reuse_rejected;
  transaction = some (new_transaction env request resource input requirement verification h);
}
