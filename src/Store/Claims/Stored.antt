-- ===== src/Store/Claims/Stored.antt =====
-- The response that `updateIdempotencyKey` of src/storage/receipts/idempotency.ts stores, and its retries.
use agent_commerce.Store.Claims.Replay.{claim-kept, claim_of-claim, claim_of-scope, update-other}
use agent_commerce.Prelude.{
  Bool, List, Option, String, arith, false, some, true, ℕ, ◌≡◌, ap, refl, ◌∙◌, All, [], ◌∷◌, eq_iff,
  get_or, if◌then◌else◌, ◌<◌, ◌==◌,
}
use agent_commerce.Sql.{update_rows}
use agent_commerce.Json.{Json, null}
use agent_commerce.Store.Claims.{
  ClaimRow, Scope, answer, claim, claim_of, completed, is_expired, Call, apply, claims,
  completed_row, completes, in_scope, recovers, scope_eq, unresolved_row, update_idempotency_key,
  updates, is_in_flight, recover_idempotency_keys, run, conflict, replay,
}
use agent_commerce.Store.Claims.Exclusive.{
  IsKeyed, claim_of-delete_rows, claim_of-update_rows, scope-eq_iff, apply-IsKeyed, run-IsKeyed,
  update-IsKeyed,
}

-- The calls that leave a completed row alone: claims before it expires, updates of other scopes, and
-- recoveries.
abbrev pub IsQuiet : Scope → ℕ → ℕ × Call → Type 0
IsQuiet s expires_at (now, claims s' fingerprint e) = now < expires_at
IsQuiet s expires_at (now, updates s' u) = scope_eq s s' ≡ false
IsQuiet s expires_at (now, recovers release) = Unit

recover-completed :
    (release : Bool) (s : Scope) (t : List ClaimRow) (row : ClaimRow)
    → IsKeyed t
    → claim_of s t ≡ some row
    → row.state ≡ completed
    → claim_of s (recover_idempotency_keys release t).0 ≡ some row
unfolding recover_idempotency_keys
recover-completed true s t row v e c =
    let d = claim_of-delete_rows s t v is_in_flight in ground arith
recover-completed false s t row v e c =
    let d = claim_of-update_rows s is_in_flight unresolved_row t (λ x. refl) in ground arith

apply-completed :
    (now : ℕ) (c : Call) (s : Scope) (t : List ClaimRow) (row : ClaimRow)
    → IsKeyed t
    → claim_of s t ≡ some row
    → row.state ≡ completed
    → IsQuiet s row.expires_at (now, c)
    → claim_of s (apply now c t) ≡ some row
unfolding apply
apply-completed now (claims s' fingerprint expires_at) s t row v e c q =
    claim-kept now s s' fingerprint expires_at t row v e (ground arith)
apply-completed now (updates s' u) s t row v e c q =
    update-other s s' u t row v e (ap (λ x. scope_eq x s') (claim_of-scope s t row e) ∙ q)
apply-completed now (recovers release) s t row v e c q = recover-completed release s t row v e c

run-completed :
    (cs : List (ℕ × Call)) (s : Scope) (t : List ClaimRow) (row : ClaimRow)
    → IsKeyed t
    → claim_of s t ≡ some row
    → row.state ≡ completed
    → All (IsQuiet s row.expires_at) cs
    → claim_of s (run cs t) ≡ some row
unfolding run
run-completed [] s t row v e c q = e
run-completed ((now, call) ∷ cs) s t row v e c (q, qs) =
    run-completed cs s (apply now call t) row (apply-IsKeyed now call t v)
      (apply-completed now call s t row v e c q) c qs

claim-completed :
    (now : ℕ) (s : Scope) (fingerprint : String) (expires_at : ℕ) (t : List ClaimRow)
    (row : ClaimRow)
    → IsKeyed t
    → claim_of s t ≡ some row
    → row.state ≡ completed
    → now < row.expires_at
    → (claim now s fingerprint expires_at t).1 ≡ (
        if fingerprint == row.fingerprint
        then replay (get_or row.status 500) (get_or row.body_json null)
        else conflict)
unfolding answer
claim-completed now s fingerprint expires_at t row v e c q =
    let a = claim_of-claim now s fingerprint expires_at t in
    let d = claim_of-delete_rows s t v (is_expired now) in
    ground (arith, eq_iff row.fingerprint fingerprint, eq_iff fingerprint row.fingerprint)

-- In a table with one row for a scope: after a claimed scope is completed with a response, every
-- claim of it before its expiry is answered with that status and body, or with a conflict under
-- another fingerprint, whatever claims made before the expiry, updates of other scopes and
-- recoveries come between.
pub replay_stored :
    (s : Scope) (status : ℕ) (body : Option Json) (t : List ClaimRow) (row : ClaimRow)
    (cs : List (ℕ × Call)) (now : ℕ) (fingerprint : String) (expires_at : ℕ)
    → IsKeyed t
    → claim_of s t ≡ some row
    → All (IsQuiet s row.expires_at) cs
    → now < row.expires_at
    → (claim now s fingerprint expires_at
        (run cs (update_idempotency_key s (completes status body) t))).1
      ≡ (if fingerprint == row.fingerprint then replay status (get_or body null) else conflict)
unfolding update_idempotency_key
replay_stored s status body t row cs now fingerprint expires_at v e q p =
    let t' = update_rows (in_scope s) (completed_row status body) t in
    let v' = update-IsKeyed s (completes status body) t v in
    let row' = completed_row status body row in
    let here = (scope-eq_iff row.scope s).1 (claim_of-scope s t row e) in
    let d = claim_of-update_rows s (in_scope s) (completed_row status body) t (λ x. refl) in
    let e' : claim_of s t' ≡ some row' = ground arith in
    claim-completed now s fingerprint expires_at (run cs t') row' (run-IsKeyed cs t' v')
      (run-completed cs s t' row' v' e' refl q) refl p
