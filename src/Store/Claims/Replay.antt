-- ===== src/Store/Claims/Replay.antt =====
-- What `claimIdempotencyKey` of src/storage/receipts/idempotency.ts answers after other calls.
use agent_commerce.Prelude.{
  Bool, List, Option, Option-cases, String, arith, false, inl, inr, none, not, some, true, ℕ, ◌↔◌,
  ◌≡◌, ◌≢◌, ap, refl, ◌∙◌, All, [], ◌∷◌,
}
use agent_commerce.Sql.{delete_rows}
use agent_commerce.Sql.Laws.{find_row-append_found, find_row-match, find_row-append}
use agent_commerce.Store.Claims.{
  ClaimRow, Scope, answer, claim, claim_eq, claim_of, completed, is_expired, reserved, Call, Update,
  apply, claims, completed_row, completes, in_scope, new_claim, recovers, releases, scope_eq,
  unresolved_row, unresolves, update_idempotency_key, updates, is_in_flight,
  recover_idempotency_keys, run,
}
use agent_commerce.Store.Claims.Exclusive.{
  IsKeyed, claim_of-delete_rows, claim_of-update_rows, scope-eq_iff, apply-IsKeyed, claim-IsKeyed,
  run-IsKeyed,
}

-- A row that has no response to expire.
abbrev pub is_pending : Option ClaimRow → Bool
is_pending none = false
is_pending (some row) = not (claim_eq row.state completed)

abbrev pub is_spent : ℕ → Option ClaimRow → Bool
is_spent now none = true
is_spent now (some row) = is_expired now row

pub claim_of-claim :
    (now : ℕ) (s : Scope) (fingerprint : String) (expires_at : ℕ) (t : List ClaimRow)
    → (claim now s fingerprint expires_at t).1
      ≡ elim (claim_of s (delete_rows (is_expired now) t)) [
        | none ↦ reserved
        | some row ↦ answer fingerprint row
      ]
unfolding claim claim_of
claim_of-claim now s fingerprint expires_at t = ground arith

pub answer-ne-reserved : (fingerprint : String) (row : ClaimRow) → answer fingerprint row ≢ reserved
unfolding answer
answer-ne-reserved fingerprint row = ground arith

-- In a table with one row for a scope, a claim is granted exactly when its scope has no row, or a
-- completed one that has expired.
pub claim_reserved_iff :
    (now : ℕ) (s : Scope) (fingerprint : String) (expires_at : ℕ) (t : List ClaimRow)
    → IsKeyed t
    → ((claim now s fingerprint expires_at t).1 ≡ reserved) ↔ (is_spent now (claim_of s t) ≡ true)
claim_reserved_iff now s fingerprint expires_at t v =
    let c = claim_of-claim now s fingerprint expires_at t in
    let d = claim_of-delete_rows s t v (is_expired now) in
    elim (Option-cases (claim_of s t)) [
      | inl missing ↦ (ground arith, ground arith)
      | inr (row, found) ↦ (ground (arith, answer-ne-reserved fingerprint row), ground arith)
    ]

-- A row that has not expired survives every claim.
pub claim-kept :
    (now : ℕ) (s s' : Scope) (fingerprint : String) (expires_at : ℕ) (t : List ClaimRow)
    (row : ClaimRow)
    → IsKeyed t
    → claim_of s t ≡ some row
    → is_expired now row ≡ false
    → claim_of s (claim now s' fingerprint expires_at t).0 ≡ some row
unfolding claim claim_of
claim-kept now s s' fingerprint expires_at t row v e live =
    let d = claim_of-delete_rows s t v (is_expired now) in
    let n = new_claim now s' fingerprint expires_at in
    ground (arith, find_row-append_found (in_scope s) (delete_rows (is_expired now) t) row n)

-- An update of another scope.
pub update-other :
    (s s' : Scope) (u : Update) (t : List ClaimRow) (row : ClaimRow)
    → IsKeyed t
    → claim_of s t ≡ some row
    → in_scope s' row ≡ false
    → claim_of s (update_idempotency_key s' u t) ≡ some row
unfolding update_idempotency_key
update-other s s' (completes status body) t row v e ne =
    let d = claim_of-update_rows s (in_scope s') (completed_row status body) t (λ x. refl) in
    ground arith
update-other s s' unresolves t row v e ne =
    let d = claim_of-update_rows s (in_scope s') unresolved_row t (λ x. refl) in ground arith
update-other s s' releases t row v e ne =
    let d = claim_of-delete_rows s t v (in_scope s') in ground arith

pub claim_of-scope :
    (s : Scope) (t : List ClaimRow) (row : ClaimRow) → claim_of s t ≡ some row → row.scope ≡ s
unfolding claim_of
claim_of-scope s t row e = (scope-eq_iff row.scope s).0 (find_row-match (in_scope s) t row e)

-- A call that could let the operation of a scope run again: its completion, its release, and a
-- recovery that frees every claim in flight.
abbrev pub reopens : Scope → Call → Bool
reopens s (claims s' fingerprint expires_at) = false
reopens s (updates s' (completes status body)) = scope_eq s s'
reopens s (updates s' unresolves) = false
reopens s (updates s' releases) = scope_eq s s'
reopens s (recovers release) = release

is_expired-pending :
    (now : ℕ) (row : ClaimRow) → is_pending (some row) ≡ true → is_expired now row ≡ false
is_expired-pending now row h = ground arith

unresolved-pending :
    (s s' : Scope) (t : List ClaimRow) (row : ClaimRow)
    → claim_of s t ≡ some row
    → is_pending (some row) ≡ true
    → is_pending (claim_of s (update_idempotency_key s' unresolves t)) ≡ true
unfolding update_idempotency_key
unresolved-pending s s' t row e h =
    let d = claim_of-update_rows s (in_scope s') unresolved_row t (λ x. refl) in ground arith

recovered-pending :
    (s : Scope) (t : List ClaimRow) (row : ClaimRow)
    → claim_of s t ≡ some row
    → is_pending (some row) ≡ true
    → is_pending (claim_of s (recover_idempotency_keys false t).0) ≡ true
unfolding recover_idempotency_keys
recovered-pending s t row e h =
    let d = claim_of-update_rows s is_in_flight unresolved_row t (λ x. refl) in ground arith

apply-pending :
    (now : ℕ) (c : Call) (s : Scope) (t : List ClaimRow)
    → IsKeyed t
    → is_pending (claim_of s t) ≡ true
    → reopens s c ≡ false
    → is_pending (claim_of s (apply now c t)) ≡ true
unfolding apply
apply-pending now c s t v h k = elim (Option-cases (claim_of s t)) [
  | inl missing ↦ cc (rw missing at h)
  | inr (row, e) ↦ step c row e (rw e at h) k
]
  where
    step :
        (c : Call) (row : ClaimRow)
        → claim_of s t ≡ some row
        → is_pending (some row) ≡ true
        → reopens s c ≡ false
        → is_pending (claim_of s (apply now c t)) ≡ true
    step (claims s' fingerprint expires_at) row e h k =
        ap is_pending
          (claim-kept now s s' fingerprint expires_at t row v e (is_expired-pending now row h))
        ∙ h
    step (updates s' (completes status body)) row e h k =
        ap is_pending (
          update-other s s' (completes status body) t row v e
            (ap (λ x. scope_eq x s') (claim_of-scope s t row e) ∙ k))
        ∙ h
    step (updates s' unresolves) row e h k = unresolved-pending s s' t row e h
    step (updates s' releases) row e h k =
        ap is_pending (
          update-other s s' releases t row v e
            (ap (λ x. scope_eq x s') (claim_of-scope s t row e) ∙ k))
        ∙ h
    step (recovers true) row e h k = cc
    step (recovers false) row e h k = recovered-pending s t row e h

abbrev pub NoReopening : Scope → List (ℕ × Call) → Type 0
NoReopening s cs = All (λ (x : ℕ × Call). reopens s x.1 ≡ false) cs

run-pending :
    (cs : List (ℕ × Call)) (s : Scope) (t : List ClaimRow)
    → IsKeyed t
    → is_pending (claim_of s t) ≡ true
    → NoReopening s cs
    → is_pending (claim_of s (run cs t)) ≡ true
unfolding run
run-pending [] s t v h k = h
run-pending ((now, c) ∷ cs) s t v h (k, ks) =
    run-pending cs s (apply now c t) (apply-IsKeyed now c t v) (apply-pending now c s t v h k) ks

claim-pending :
    (now : ℕ) (s : Scope) (fingerprint : String) (expires_at : ℕ) (t : List ClaimRow)
    → (claim now s fingerprint expires_at t).1 ≡ reserved
    → is_pending (claim_of s (claim now s fingerprint expires_at t).0) ≡ true
unfolding claim claim_of
claim-pending now s fingerprint expires_at t e =
    let t' = delete_rows (is_expired now) t in
    let n = new_claim now s fingerprint expires_at in
    ground (
      arith,
      find_row-append (in_scope s) t' n,
      (scope-eq_iff s s).1 refl,
      λ (row : ClaimRow). answer-ne-reserved fingerprint row,
    )

pending-ne-spent : (now : ℕ) (o : Option ClaimRow) → is_pending o ≡ true → is_spent now o ≡ true → ⊥
pending-ne-spent now none h k = cc
pending-ne-spent now (some row) h k = ground arith

-- In a table with one row for a scope: once a claim is granted, no further claim of its scope is
-- granted, at any time and under any fingerprint, after any calls of which none completes or
-- releases the scope and none is a recovery that frees claims.
pub claim_once :
    (now later : ℕ) (s : Scope) (fingerprint fingerprint' : String) (expires_at expires_at' : ℕ)
    (cs : List (ℕ × Call)) (t : List ClaimRow)
    → IsKeyed t
    → (claim now s fingerprint expires_at t).1 ≡ reserved
    → NoReopening s cs
    → (claim later s fingerprint' expires_at' (run cs (claim now s fingerprint expires_at t).0)).1
      ≢ reserved
claim_once now later s fingerprint fingerprint' expires_at expires_at' cs t v e k again =
    let t1 = (claim now s fingerprint expires_at t).0 in
    let v1 = claim-IsKeyed now s fingerprint expires_at t v in
    let pending = run-pending cs s t1 v1 (claim-pending now s fingerprint expires_at t e) k in
    let spent =
      (claim_reserved_iff later s fingerprint' expires_at' (run cs t1) (run-IsKeyed cs t1 v1)).0
        again in
    pending-ne-spent later (claim_of s (run cs t1)) pending spent
