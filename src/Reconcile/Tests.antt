-- ===== src/Reconcile/Tests.antt =====
-- An operator's verdict on an uncertain payment, and the theorems at it.
use agent_commerce.Reconcile.{
  ManualRequest, expiry_unknown, recorded, refusal_of, refused, resolve_manually, resolve_request,
}
use agent_commerce.Reconcile.Manual.{IsBased, IsResolvable, recorded_sound, unrefused_iff}
use agent_commerce.Prelude.{Bool, [], false, none, refl, true, ◌↔◌, ◌∷◌, ◌≡◌}
use agent_commerce.Core.Attempt.{settlement_uncertain}
use agent_commerce.Store.Journal.{AttemptRow, Db}
use agent_commerce.Store.Journal.Writes.{resolved}

abbrev lost : AttemptRow
lost = record {
  id = "a1";
  request_id = "r1";
  resource_id = "weather";
  provider = "x402";
  replay_key = "k1";
  status = settlement_uncertain;
  amount = "0.01";
  currency = "USD";
  payer = none;
  payee = none;
  external_reference = none;
  rejection_reason = none;
  created_at = 5;
  updated_at = 5;
  transaction_id = none;
  resolution_json = none;
}

abbrev one_lost : Db
one_lost = record { attempts = lost ∷ []; history = []; transactions = [] }

abbrev verdict_of : Bool → ManualRequest
verdict_of confirmed = record {
  attempt_id = "a1";
  rejects = true;
  actor = "operator";
  reason = "no transfer on chain";
  external_reference = none;
  confirm_expired = confirmed;
}

abbrev lost_resolved : AttemptRow
lost_resolved = resolved 9 (resolve_request 9 (verdict_of true) lost) lost

verdict_recorded :
    (resolve_manually 9 (verdict_of true) one_lost one_lost).1 ≡ recorded lost_resolved
unfolding resolve_manually
verdict_recorded = refl

verdict_refused :
    resolve_manually 9 (verdict_of false) one_lost one_lost
    ≡ (one_lost, refused expiry_unknown lost)
unfolding resolve_manually
verdict_refused = refl

recorded_sound_example : IsBased 9 (verdict_of true) one_lost one_lost
recorded_sound_example =
    recorded_sound 9 (verdict_of true) one_lost one_lost lost_resolved verdict_recorded

unrefused_iff_example :
    (refusal_of 9 (verdict_of true) lost none ≡ none) ↔ IsResolvable 9 (verdict_of true) lost none
unrefused_iff_example = unrefused_iff 9 (verdict_of true) lost none
