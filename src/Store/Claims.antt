-- ===== src/Store/Claims.antt =====
-- src/storage/receipts/idempotency.ts: idempotency claims, one row for each scope.
mod Tests
pub mod Exclusive
pub mod Replay
pub mod Stored
pub mod Kept
use agent_commerce.Prelude.{
  Bool, List, Option, String, [], false, get_or, if◌then◌else◌, leb, none, not, some, true, ℕ, ◌&&◌,
  ◌*◌, ◌++◌, ◌==◌, ◌∷◌,
}
use agent_commerce.Json.{Json, null}
use agent_commerce.Sql.{count_rows, delete_rows, find_row, update_rows}
use agent_commerce.Core.Errors.{Result, ok, err, ◌>>=◌}
use agent_commerce.Core.Time.{IsoTimestamp}
use agent_commerce.Store.Params.{stored_iso}

pub record Scope : Type 0 where
  pub deployment : String
  pub endpoint : String
  pub key : String

pub data ClaimState : Type 0 where
  in_flight completed unresolved : ClaimState

pub record ClaimRow : Type 0 where
  pub scope : Scope
  pub open scope use *
  pub fingerprint : String
  pub state : ClaimState
  pub status : Option ℕ
  pub body_json : Option Json
  pub created_at : ℕ
  pub expires_at : ℕ

pub data ClaimResult : Type 0 where
  reserved : ClaimResult
  still_in_flight : ClaimResult
  outcome_unknown : ClaimResult
  conflict : ClaimResult
  replay : ℕ → Json → ClaimResult

abbrev pub scope_eq : Scope → Scope → Bool
scope_eq a b = a.deployment == b.deployment && (a.endpoint == b.endpoint && a.key == b.key)

abbrev pub in_scope : Scope → ClaimRow → Bool
in_scope s row = scope_eq row.scope s

abbrev pub claim_eq : ClaimState → ClaimState → Bool
claim_eq in_flight in_flight = true
claim_eq completed completed = true
claim_eq unresolved unresolved = true
claim_eq _ _ = false

-- `expireCompleted`: `expires_at <= ? AND state = 'completed'`
abbrev pub is_expired : ℕ → ClaimRow → Bool
is_expired now row = leb row.expires_at now && claim_eq row.state completed

-- `insertClaim`
abbrev pub new_claim : ℕ → Scope → String → ℕ → ClaimRow
new_claim now s fingerprint expires_at = record {
  scope = s;
  fingerprint = fingerprint;
  state = in_flight;
  status = none;
  body_json = none;
  created_at = now;
  expires_at = expires_at;
}

-- What an existing row answers. The fingerprint is compared first.
unfoldable pub answer : String → ClaimRow → ClaimResult
answer fingerprint row =
    if not (row.fingerprint == fingerprint)
    then conflict
    else if claim_eq row.state unresolved
    then outcome_unknown
    else if not (claim_eq row.state completed)
    then still_in_flight
    else replay (get_or row.status 500) (get_or row.body_json null)

-- The transaction `claim`
unfoldable pub claim : ℕ → Scope → String → ℕ → List ClaimRow → List ClaimRow × ClaimResult
unfolding answer
claim now s fingerprint expires_at t =
    let t' = delete_rows (is_expired now) t in
    elim (find_row (in_scope s) t') [
      | none ↦ (t' ++ new_claim now s fingerprint expires_at ∷ [], reserved)
      | some row ↦ (t', answer fingerprint row)
    ]

-- `claimIdempotencyKey`; an unreadable expiry is refused before the table is touched.
unfoldable pub claim_idempotency_key :
    ℕ → Scope → String → IsoTimestamp → List ClaimRow → Result (List ClaimRow × ClaimResult)
unfolding stored_iso claim
claim_idempotency_key now s fingerprint expires_at t = do
  at ← stored_iso expires_at
  ok (claim now s fingerprint at t)

-- `IdempotencyUpdate`; the body is `update.body ?? null`.
pub data Update : Type 0 where
  completes : ℕ → Option Json → Update
  unresolves : Update
  releases : Update

abbrev pub completed_row : ℕ → Option Json → ClaimRow → ClaimRow
completed_row status body row = record row {
  state = completed;
  status = some status;
  body_json = some (get_or body null);
}

abbrev pub unresolved_row : ClaimRow → ClaimRow
unresolved_row row = record row { state = unresolved }

-- `updateIdempotencyKey`
unfoldable pub update_idempotency_key : Scope → Update → List ClaimRow → List ClaimRow
update_idempotency_key s (completes status body) t =
    update_rows (in_scope s) (completed_row status body) t
update_idempotency_key s unresolves t = update_rows (in_scope s) unresolved_row t
update_idempotency_key s releases t = delete_rows (in_scope s) t

abbrev pub is_in_flight : ClaimRow → Bool
is_in_flight row = claim_eq row.state in_flight

-- `recoverIdempotencyKeys`, with the number of rows changed
unfoldable pub recover_idempotency_keys : Bool → List ClaimRow → List ClaimRow × ℕ
recover_idempotency_keys release t = (
  if release then delete_rows is_in_flight t else update_rows is_in_flight unresolved_row t,
  count_rows is_in_flight t,
)

pub data Call : Type 0 where
  claims : Scope → String → ℕ → Call
  updates : Scope → Update → Call
  recovers : Bool → Call

unfoldable pub apply : ℕ → Call → List ClaimRow → List ClaimRow
apply now (claims s fingerprint expires_at) t = (claim now s fingerprint expires_at t).0
apply now (updates s u) t = update_idempotency_key s u t
apply now (recovers release) t = (recover_idempotency_keys release t).0

unfoldable pub run : List (ℕ × Call) → List ClaimRow → List ClaimRow
run [] t = t
run ((now, c) ∷ cs) t = run cs (apply now c t)

-- The row of a scope.
unfoldable pub claim_of : Scope → List ClaimRow → Option ClaimRow
claim_of s t = find_row (in_scope s) t
