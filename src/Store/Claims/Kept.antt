-- ===== src/Store/Claims/Kept.antt =====
-- A row of src/storage/receipts/idempotency.ts that nothing releases, up to its expiry.
use agent_commerce.Prelude.{
  All, Bool, List, String, [], ap, arith, false, refl, some, true, ℕ, ◌<◌, ◌∙◌, ◌∷◌, ◌≡◌, ◌≢◌,
}
use agent_commerce.Sql.{delete_rows, on_match, update_rows}
use agent_commerce.Sql.Laws.{find_row-append}
use agent_commerce.Store.Claims.{
  Call, ClaimRow, Scope, apply, claim, claim_of, claims, completed_row, completes, in_scope,
  is_expired, is_in_flight, new_claim, recover_idempotency_keys, recovers, releases, reserved, run,
  scope_eq, unresolved_row, unresolves, update_idempotency_key, updates,
}
use agent_commerce.Store.Claims.Exclusive.{
  IsKeyed, apply-IsKeyed, claim_of-update_rows, scope-eq_iff,
}
use agent_commerce.Store.Claims.Replay.{
  answer-ne-reserved, claim-kept, claim_of-scope, claim_reserved_iff, update-other,
}

-- The scope has a row, with this expiry.
abbrev pub HasRow : Scope → ℕ → List ClaimRow → Type 0
HasRow s expires_at t = (row : ClaimRow) × (claim_of s t ≡ some row) × (row.expires_at ≡ expires_at)

-- The calls that leave the scope a row: claims before its expiry, updates that do not release it,
-- and recoveries that release nothing.
abbrev pub IsKind : Scope → ℕ → ℕ × Call → Type 0
IsKind s expires_at (now, claims s' fingerprint e) = now < expires_at
IsKind s expires_at (now, updates s' (completes status body)) = Unit
IsKind s expires_at (now, updates s' unresolves) = Unit
IsKind s expires_at (now, updates s' releases) = scope_eq s s' ≡ false
IsKind s expires_at (now, recovers release) = release ≡ false

update_rows-HasRow :
    (s : Scope) (expires_at : ℕ) (p : ClaimRow → Bool) (f : ClaimRow → ClaimRow) (t : List ClaimRow)
    → ((x : ClaimRow) → (f x).scope ≡ x.scope)
    → ((x : ClaimRow) → (f x).expires_at ≡ x.expires_at)
    → HasRow s expires_at t
    → HasRow s expires_at (update_rows p f t)
update_rows-HasRow s expires_at p f t same_scope same_expiry (row, e, q) = (
  on_match p f row,
  claim_of-update_rows s p f t same_scope ∙ rw e refl,
  ground (arith, same_expiry row),
)

apply-HasRow :
    (now : ℕ) (c : Call) (s : Scope) (expires_at : ℕ) (t : List ClaimRow)
    → IsKeyed t
    → HasRow s expires_at t
    → IsKind s expires_at (now, c)
    → HasRow s expires_at (apply now c t)
unfolding apply update_idempotency_key recover_idempotency_keys
apply-HasRow now (claims s' fingerprint e) s expires_at t v (row, found, q) k =
    (row, claim-kept now s s' fingerprint e t row v found (ground arith), q)
apply-HasRow now (updates s' (completes status body)) s expires_at t v h k =
    update_rows-HasRow s expires_at (in_scope s') (completed_row status body) t (λ x. refl)
      (λ x. refl) h
apply-HasRow now (updates s' unresolves) s expires_at t v h k =
    update_rows-HasRow s expires_at (in_scope s') unresolved_row t (λ x. refl) (λ x. refl) h
apply-HasRow now (updates s' releases) s expires_at t v (row, found, q) k = (
  row,
  update-other s s' releases t row v found
      (ap (λ x. scope_eq x s') (claim_of-scope s t row found) ∙ k),
  q,
)
apply-HasRow now (recovers true) s expires_at t v h k = cc
apply-HasRow now (recovers false) s expires_at t v h k =
    update_rows-HasRow s expires_at is_in_flight unresolved_row t (λ x. refl) (λ x. refl) h

pub run-HasRow :
    (cs : List (ℕ × Call)) (s : Scope) (expires_at : ℕ) (t : List ClaimRow)
    → IsKeyed t
    → HasRow s expires_at t
    → All (IsKind s expires_at) cs
    → HasRow s expires_at (run cs t)
unfolding run
run-HasRow [] s expires_at t v h k = h
run-HasRow ((now, c) ∷ cs) s expires_at t v h (k, ks) =
    run-HasRow cs s expires_at (apply now c t) (apply-IsKeyed now c t v)
      (apply-HasRow now c s expires_at t v h k) ks

-- The row that a granted claim leaves.
pub claim-row :
    (now : ℕ) (s : Scope) (fingerprint : String) (expires_at : ℕ) (t : List ClaimRow)
    → (claim now s fingerprint expires_at t).1 ≡ reserved
    → claim_of s (claim now s fingerprint expires_at t).0
      ≡ some (new_claim now s fingerprint expires_at)
unfolding claim claim_of
claim-row now s fingerprint expires_at t e =
    let t' = delete_rows (is_expired now) t in
    let n = new_claim now s fingerprint expires_at in
    ground (
      arith,
      find_row-append (in_scope s) t' n,
      (scope-eq_iff s s).1 refl,
      λ (row : ClaimRow). answer-ne-reserved fingerprint row,
    )

pub claim-HasRow :
    (now : ℕ) (s : Scope) (fingerprint : String) (expires_at e : ℕ) (t : List ClaimRow)
    → IsKeyed t
    → HasRow s expires_at t
    → now < expires_at
    → (claim now s fingerprint e t).1 ≢ reserved
claim-HasRow now s fingerprint expires_at e t v (row, found, q) k granted =
    let spent = (claim_reserved_iff now s fingerprint e t v).0 granted in ground arith
