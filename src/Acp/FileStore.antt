-- ===== src/Acp/FileStore.antt =====
-- src/protocols/acp/idempotency/store.ts: the claims of a legacy file, whose table has the columns
-- of the receipt store's. `db.transaction` runs `claim` as one step; the clock is an argument.
use agent_commerce.Prelude.{
  Bool, List, String, [], false, get_or, if◌then◌else◌, leb, none, not, some, true, ℕ, ◌&&◌, ◌*◌,
  ◌++◌, ◌+◌, ◌==◌, ◌∷◌,
}
use agent_commerce.Json.{Json, null}
use agent_commerce.Sql.{delete_rows, find_row, update_rows}
use agent_commerce.Store.Claims.{
  ClaimRow, ClaimResult, Scope, claim_eq, in_flight, completed, unresolved, reserved,
  still_in_flight, outcome_unknown, conflict, replay,
}

-- `retentionMs`
abbrev pub retention_ms : ℕ → ℕ
retention_ms hours = hours * 60 * 60 * 1000

-- WHERE deployment = ? AND endpoint = ? AND idempotency_key = ?
abbrev pub at_scope : Scope → ClaimRow → Bool
at_scope s row = row.deployment == s.deployment && (row.endpoint == s.endpoint && row.key == s.key)

-- `expireStmt`
abbrev pub is_over : ℕ → ClaimRow → Bool
is_over at row = leb row.expires_at at && claim_eq row.state completed

-- What `claimTx` answers of an existing row
unfoldable pub existing_claim : String → ClaimRow → ClaimResult
existing_claim fingerprint existing =
    if not (existing.fingerprint == fingerprint)
    then conflict
    else if claim_eq existing.state unresolved
    then outcome_unknown
    else if not (claim_eq existing.state completed)
    then still_in_flight
    else replay (get_or existing.status 500) (get_or existing.body_json null)

-- `insertStmt`
abbrev pub inserted : ℕ → ℕ → Scope → String → ClaimRow
inserted hours at s fingerprint = record {
  scope = s;
  fingerprint = fingerprint;
  state = in_flight;
  status = none;
  body_json = none;
  created_at = at;
  expires_at = at + retention_ms hours;
}

-- `claimTx`
unfoldable pub claim_file : ℕ → ℕ → Scope → String → List ClaimRow → List ClaimRow × ClaimResult
unfolding existing_claim
claim_file hours at s fingerprint t =
    let kept = delete_rows (is_over at) t in
    elim (find_row (at_scope s) kept) [
      | none ↦ (kept ++ inserted hours at s fingerprint ∷ [], reserved)
      | some existing ↦ (kept, existing_claim fingerprint existing)
    ]

-- `complete`, `markUnresolved` and `release`
abbrev answered_row : ℕ → Json → ClaimRow → ClaimRow
answered_row status body row = record row {
  state = completed;
  status = some status;
  body_json = some body;
}

abbrev marked_row : ClaimRow → ClaimRow
marked_row row = record row { state = unresolved }

unfoldable pub complete_file : Scope → ℕ → Json → List ClaimRow → List ClaimRow
complete_file s status body t = update_rows (at_scope s) (answered_row status body) t

unfoldable pub mark_unresolved_file : Scope → List ClaimRow → List ClaimRow
mark_unresolved_file s t = update_rows (at_scope s) marked_row t

unfoldable pub release_file : Scope → List ClaimRow → List ClaimRow
release_file s t = delete_rows (at_scope s) t

abbrev is_orphaned : ClaimRow → Bool
is_orphaned row = claim_eq row.state in_flight

-- `resolveOrphanedClaims`, as the store opens
unfoldable pub resolve_orphaned_claims : Bool → List ClaimRow → List ClaimRow
resolve_orphaned_claims true t = delete_rows is_orphaned t
resolve_orphaned_claims false t = update_rows is_orphaned marked_row t
