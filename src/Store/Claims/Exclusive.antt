-- ===== src/Store/Claims/Exclusive.antt =====
-- The primary key of the table of src/storage/receipts/idempotency.ts under each of its calls.
use mathlib.Core.Option
use agent_commerce.Prelude.{
  All, All-map, Bool, List, Option-cases, String, [], ap, arith, eq_iff, false, if◌then◌else◌, inl,
  inr, none, refl, some, sym, true, ℕ, ◌↔◌, ◌∙◌, ◌∷◌, ◌≡◌, All-tt,
}
use agent_commerce.Sql.{delete_rows, find_row, on_match, update_rows}
use agent_commerce.Sql.Laws.{
  Apart, Apart-append, Apart-delete_rows, Apart-update_rows, find_row-delete_rows, find_row-none,
  find_row-update_rows,
}
use agent_commerce.Store.Claims.{
  Call, ClaimRow, Scope, Update, apply, claim, claim_of, claims, completes, in_scope, is_expired,
  is_in_flight, recover_idempotency_keys, recovers, releases, run, scope_eq, unresolves,
  update_idempotency_key, updates, new_claim,
}

abbrev pub clash : ClaimRow → ClaimRow → Bool
clash a b = scope_eq a.scope b.scope

abbrev pub IsKeyed : List ClaimRow → Type 0
IsKeyed t = Apart clash t

pub scope-eq_iff : (a b : Scope) → (scope_eq a b ≡ true) ↔ (a ≡ b)
scope-eq_iff a b = (
  λ h.
      ground
        (arith, eq_iff a.deployment b.deployment, eq_iff a.endpoint b.endpoint, eq_iff a.key b.key),
  λ h.
      ground
        (arith, eq_iff a.deployment b.deployment, eq_iff a.endpoint b.endpoint, eq_iff a.key b.key),
)

same_scope :
    (s : Scope) (x y : ClaimRow) → in_scope s x ≡ true → in_scope s y ≡ true → clash x y ≡ true
same_scope s x y a b =
    let p : x.scope ≡ s = (scope-eq_iff x.scope s).0 a in
    let q : y.scope ≡ s = (scope-eq_iff y.scope s).0 b in
    (scope-eq_iff x.scope y.scope).1 (p ∙ sym q)

clash_new : (s : Scope) (x n : ClaimRow) → n.scope ≡ s → in_scope s x ≡ false → clash x n ≡ false
clash_new s x n e h = rw e h

All-clash_new :
    (s : Scope) (n : ClaimRow) (t : List ClaimRow)
    → n.scope ≡ s
    → All (λ x. in_scope s x ≡ false) t
    → All (λ x. clash x n ≡ false) t
All-clash_new s n t e h = All-map t (λ x. clash_new s x n e) h

pub claim-IsKeyed :
    (now : ℕ) (s : Scope) (fingerprint : String) (expires_at : ℕ) (t : List ClaimRow)
    → IsKeyed t
    → IsKeyed (claim now s fingerprint expires_at t).0
unfolding claim
claim-IsKeyed now s fingerprint expires_at t v =
    let t' = delete_rows (is_expired now) t in
    let v' = Apart-delete_rows clash (is_expired now) t v in
    elim (Option-cases (find_row (in_scope s) t')) [
      | inl fresh ↦
          rw (fresh, claim)
            (let n = new_claim now s fingerprint expires_at in
              Apart-append clash n t'
                (All-clash_new s n t' refl (find_row-none (in_scope s) t' fresh)) v')
      | inr (row, found) ↦ rw (found, claim) v'
    ]

-- An UPDATE that keeps the scope keeps the constraint.
update_rows-IsKeyed :
    (p : ClaimRow → Bool) (f : ClaimRow → ClaimRow) (t : List ClaimRow)
    → ((x : ClaimRow) → (f x).scope ≡ x.scope)
    → IsKeyed t
    → IsKeyed (update_rows p f t)
update_rows-IsKeyed p f t same v =
    Apart-update_rows clash p f (λ _. Unit {0})
      (λ x y _ _ c. rw (scope-on_match x, scope-on_match y) c) t (All-tt t) v
  where
    scope-on_match : (x : ClaimRow) → (on_match p f x).scope ≡ x.scope
    scope-on_match x = ground (arith, same x)

pub update-IsKeyed :
    (s : Scope) (u : Update) (t : List ClaimRow)
    → IsKeyed t
    → IsKeyed (update_idempotency_key s u t)
unfolding update_idempotency_key
update-IsKeyed s (completes status body) t v = update_rows-IsKeyed _ _ t (λ x. refl) v
update-IsKeyed s unresolves t v = update_rows-IsKeyed _ _ t (λ x. refl) v
update-IsKeyed s releases t v = Apart-delete_rows clash (in_scope s) t v

recover-IsKeyed :
    (release : Bool) (t : List ClaimRow)
    → IsKeyed t
    → IsKeyed (recover_idempotency_keys release t).0
unfolding recover_idempotency_keys
recover-IsKeyed true t v = Apart-delete_rows clash is_in_flight t v
recover-IsKeyed false t v = update_rows-IsKeyed _ _ t (λ x. refl) v

pub apply-IsKeyed : (now : ℕ) (c : Call) (t : List ClaimRow) → IsKeyed t → IsKeyed (apply now c t)
unfolding apply
apply-IsKeyed now (claims s fingerprint expires_at) t v =
    claim-IsKeyed now s fingerprint expires_at t v
apply-IsKeyed now (updates s u) t v = update-IsKeyed s u t v
apply-IsKeyed now (recovers release) t v = recover-IsKeyed release t v

-- In a table in which no scope has two rows, any history of calls keeps it so.
pub run-IsKeyed : (cs : List (ℕ × Call)) (t : List ClaimRow) → IsKeyed t → IsKeyed (run cs t)
unfolding run
run-IsKeyed [] t v = v
run-IsKeyed ((now, c) ∷ cs) t v = run-IsKeyed cs (apply now c t) (apply-IsKeyed now c t v)

-- The row of a scope after each statement, in terms of the row before it.
module _ (s : Scope) (t : List ClaimRow) (v : IsKeyed t) where
  pub claim_of-delete_rows :
      (p : ClaimRow → Bool)
      → claim_of s (delete_rows p t)
        ≡ elim (claim_of s t) [ none ↦ none | some r ↦ if p r then none else some r ]
  unfolding claim_of
  claim_of-delete_rows p = find_row-delete_rows clash (in_scope s) (same_scope s) p t v

pub claim_of-update_rows :
    (s : Scope) (p : ClaimRow → Bool) (f : ClaimRow → ClaimRow) (t : List ClaimRow)
    → ((x : ClaimRow) → (f x).scope ≡ x.scope)
    → claim_of s (update_rows p f t) ≡ Option.map (on_match p f) (claim_of s t)
unfolding claim_of
claim_of-update_rows s p f t same =
    find_row-update_rows (in_scope s) p f t (λ r. ap (λ x. scope_eq x s) (same r))
