-- ===== src/Reconcile/Verdicts.antt =====
-- The part of `runReconcile` of src/core/execution/reconcile.ts that asks the payment providers and
-- records what they find. What a provider answers and whether a write throws are arguments.
pub mod Written
pub mod Recorded
use agent_commerce.Prelude.{
  Bool, List, Option, String, [], false, if◌then◌else◌, none, not, some, true, ℕ, ◌&&◌, ◌==◌, ◌∷◌,
}
use agent_commerce.Json.{Json}
use agent_commerce.Core.Attempt.{AttemptStatus, rejected, settled}
use agent_commerce.Store.Journal.{AttemptRow, Db, reconcile}
use agent_commerce.Store.Journal.Writes.{ResolveRequest, resolve_payment_attempt}
use agent_commerce.Reconcile.Candidates.{Candidate}

-- `PaymentReconciliationResult['outcome']`
pub data Outcome : Type 0 where
  found_settled not_settled unknown : Outcome

-- `PaymentReconciliationResult`
pub record Verdict : Type 0 where
  pub outcome : Outcome
  pub reason : String
  pub external_reference : Option String
  pub evidence : Option Json
  pub retry_after : Option String

-- What a call of `provider.reconcile` gives: a verdict, a value with another outcome or no reason, or
-- a throw.
pub data Reply : Type 0 where
  finds : Verdict → Reply
  malformed : Reply
  breaks : Reply

-- `PaymentProvider`, as this file uses it
pub record Provider : Type 0 where
  pub name : String
  pub reconcile : Option (AttemptRow → Option Json → Reply)

abbrev pub unknown_for : String → Verdict
unknown_for reason = record {
  outcome = unknown;
  reason = reason;
  external_reference = none;
  evidence = none;
  retry_after = none;
}

abbrev pub reply_verdict : Reply → Verdict
reply_verdict (finds v) = v
reply_verdict malformed = unknown_for "invalid_provider_result"
reply_verdict breaks = unknown_for "provider_error"

abbrev pub ask_provider : Option (AttemptRow → Option Json → Reply) → Candidate → Verdict
ask_provider none c = unknown_for "reconcile_unsupported"
ask_provider (some call) c = reply_verdict (call c.attempt c.locator)

-- `ask`, of the first provider with the attempt's name
unfoldable pub ask : List Provider → Candidate → Verdict
ask [] c = unknown_for "provider_not_enabled"
ask (p ∷ ps) c =
    let others = ask ps c in
    if p.name == c.attempt.provider then ask_provider p.reconcile c else others

abbrev pub is_known : Outcome → Bool
is_known unknown = false
is_known _ = true

abbrev pub status_for : Outcome → AttemptStatus
status_for found_settled = settled
status_for _ = rejected

abbrev pub rejection_for : Outcome → Option String
rejection_for not_settled = some "not_settled"
rejection_for _ = none

-- The argument of `resolvePaymentAttempt`
abbrev pub verdict_request : ℕ → String → AttemptRow → Verdict → ResolveRequest
verdict_request now actor a v = record {
  attempt_id = a.id;
  expected_status = a.status;
  status = status_for v.outcome;
  rejection_reason = rejection_for v.outcome;
  resolution = record {
    method = reconcile;
    actor = actor;
    reason = v.reason;
    at = now;
    external_reference = v.external_reference;
    evidence = v.evidence;
  };
}

-- `ReconcileEntry`, with the verdict that it reports
pub record Entry : Type 0 where
  pub candidate : Candidate
  pub verdict : Verdict
  pub written : Bool
  pub failed : Bool

-- What a run is given.
pub record RunOptions : Type 0 where
  pub providers : List Provider
  pub actor : String
  pub dry_run : Bool
  pub write_throws : AttemptRow → Bool

abbrev pub entry_of : Candidate → Verdict → Bool → Bool → Entry
entry_of c v written failed = record {
  candidate = c;
  verdict = v;
  written = written;
  failed = failed;
}

-- The `try` of the loop, given whether the write throws
unfoldable pub write_verdict : ℕ → String → Candidate → Verdict → Bool → Db → Db × Entry
unfolding resolve_payment_attempt
write_verdict now actor c v true db = (db, entry_of c v false true)
write_verdict now actor c v false db =
    let (db', written) = resolve_payment_attempt now (verdict_request now actor c.attempt v) db in
    (db', entry_of c v written false)

-- The rest of a turn, given whether there is something to write
unfoldable pub report_verdict : ℕ → RunOptions → Candidate → Verdict → Bool → Db → Db × Entry
unfolding write_verdict
report_verdict now o c v false db = (db, entry_of c v false false)
report_verdict now o c v true db = write_verdict now o.actor c v (o.write_throws c.attempt) db

-- One turn of the loop over the candidates
unfoldable pub settle_candidate : ℕ → RunOptions → Candidate → Db → Db × Entry
unfolding ask report_verdict
settle_candidate now o c db =
    let v = ask o.providers c in report_verdict now o c v (not o.dry_run && is_known v.outcome) db

-- The loop over the candidates
unfoldable pub settle_candidates : ℕ → RunOptions → List Candidate → Db → Db × List Entry
unfolding settle_candidate
settle_candidates now o [] db = (db, [])
settle_candidates now o (c ∷ cs) db =
    let (db', entry) = settle_candidate now o c db in
    let (db'', entries) = settle_candidates now o cs db' in (db'', entry ∷ entries)
