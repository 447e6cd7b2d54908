-- ===== src/Acp/Once.antt =====
-- Requests of src/protocols/acp/adapter.ts under one idempotency key, in any order with other
-- requests: a request's claim, its end, and a restart of the adapter are steps of a history.
use agent_commerce.Prelude.{
  All, Bool, List, Option, String, [], ap, false, inl, inr, none, refl, some, ℕ, ◌+◌, ◌<◌, ◌∙◌, ◌∷◌,
  ◌≡◌, ◌≢◌, ◌⊎◌, ltb, not, sym, ◌&&◌, ◌||◌, eq_refl, true,
}
use agent_commerce.Acp.FileStore.{retention_ms}
use agent_commerce.Acp.Dispatch.{
  Backend, Begun, Checkout, begin_dispatch, claim_answer, finish_dispatch, open_idempotency, runs,
  is_unreached, answered,
}
use agent_commerce.Acp.Freed.{
  claim-same, finish-same, open-same, claim_update, is_release, is_release-claim_update,
  claim_update-answer,
}
use agent_commerce.Store.Claims.{
  ClaimRow, ClaimResult, Scope, Call, Update, claim, claim_of, claims, completes, new_claim,
  recover_idempotency_keys, recovers, releases, reserved, run, scope_eq, unresolves,
  update_idempotency_key, updates, apply, reserved,
}
use agent_commerce.Store.Claims.Exclusive.{IsKeyed, claim-IsKeyed, run-IsKeyed}
use agent_commerce.Store.Claims.Kept.{IsKind, claim-HasRow, claim-row, run-HasRow}
use agent_commerce.Store.Claims.Stored.{IsQuiet, replay_stored}

-- A step of the adapter: a request claims its key, a request that ran ends, the adapter starts.
pub data Step : Type 0 where
  begins : Option Scope → String → Step
  ends : Scope → Option Checkout → Step
  starts : Step

-- An ended request whose response is no answer, and that did not reach the merchant or may be
-- repeated there.
abbrev pub frees_claim : Bool → Option Checkout → Bool
frees_claim merchant_idempotent none = false
frees_claim merchant_idempotent (some o) =
    not (ltb o.response.status 500) && (is_unreached o.reached || merchant_idempotent)

is_release-frees_claim :
    (merchant_idempotent : Bool) (o : Option Checkout)
    → is_release (claim_update merchant_idempotent o) ≡ frees_claim merchant_idempotent o
unfolding claim_update
is_release-frees_claim merchant_idempotent none = refl
is_release-frees_claim merchant_idempotent (some o) = is_release-claim_update merchant_idempotent o

module _ (b : Backend) (hours : ℕ) (merchant_idempotent : Bool) where
  abbrev pub take_step : ℕ → Step → List ClaimRow → List ClaimRow
  take_step now (begins s fingerprint) t = (begin_dispatch b hours now s fingerprint t).0
  take_step now (ends s o) t = finish_dispatch b merchant_idempotent s o t
  take_step now starts t = open_idempotency b merchant_idempotent t

  unfoldable pub history : List (ℕ × Step) → List ClaimRow → List ClaimRow
  history [] t = t
  history ((now, step) ∷ steps) t = history steps (take_step now step t)

  -- The calls of the receipt store that do the same.
  abbrev pub calls : List (ℕ × Step) → List (ℕ × Call)
  calls [] = []
  calls ((now, begins none fingerprint) ∷ steps) = calls steps
  calls ((now, begins (some s) fingerprint) ∷ steps) =
      (now, claims s fingerprint (now + retention_ms hours)) ∷ calls steps
  calls ((now, ends s o) ∷ steps) =
      (now, updates s (claim_update merchant_idempotent o)) ∷ calls steps
  calls ((now, starts) ∷ steps) = (now, recovers merchant_idempotent) ∷ calls steps

  begin-same :
      (now : ℕ) (s : Scope) (fingerprint : String) (t : List ClaimRow)
      → begin_dispatch b hours now (some s) fingerprint t ≡ (
        (claim now s fingerprint (now + retention_ms hours) t).0,
        claim_answer (claim now s fingerprint (now + retention_ms hours) t).1,
      )
  unfolding begin_dispatch
  begin-same now s fingerprint t = rw (claim-same b hours now s fingerprint t) refl

  pub history-run :
      (steps : List (ℕ × Step)) (t : List ClaimRow) → history steps t ≡ run (calls steps) t
  unfolding history run begin_dispatch apply
  history-run [] t = refl
  history-run ((now, begins none fingerprint) ∷ steps) t = history-run steps t
  history-run ((now, begins (some s) fingerprint) ∷ steps) t =
      ap (λ (x : List ClaimRow × Begun). history steps x.0) (begin-same now s fingerprint t)
      ∙ history-run steps (claim now s fingerprint (now + retention_ms hours) t).0
  history-run ((now, ends s o) ∷ steps) t =
      ap (history steps) (finish-same b merchant_idempotent s o t)
      ∙ history-run steps (update_idempotency_key s (claim_update merchant_idempotent o) t)
  history-run ((now, starts) ∷ steps) t =
      ap (history steps) (open-same b merchant_idempotent t)
      ∙ history-run steps (recover_idempotency_keys merchant_idempotent t).0

  -- The steps that leave the claim of a scope, up to a time: requests before that time, ends that do
  -- not free the claim, and starts that free none.
  abbrev pub IsCalm : Scope → ℕ → ℕ × Step → Type 0
  IsCalm s until (now, begins s' fingerprint) = now < until
  IsCalm s until (now, ends s' o) =
      (scope_eq s s' ≡ false) ⊎ (frees_claim merchant_idempotent o ≡ false)
  IsCalm s until (now, starts) = merchant_idempotent ≡ false

  updates-IsKind :
      (s s' : Scope) (until now : ℕ) (u : Update)
      → (scope_eq s s' ≡ false) ⊎ (is_release u ≡ false)
      → IsKind s until (now, updates s' u)
  updates-IsKind s s' until now (completes status body) h = tt
  updates-IsKind s s' until now unresolves h = tt
  updates-IsKind s s' until now releases (inl other) = other
  updates-IsKind s s' until now releases (inr kept) = cc

  calls-IsKind :
      (steps : List (ℕ × Step)) (s : Scope) (until : ℕ)
      → All (IsCalm s until) steps
      → All (IsKind s until) (calls steps)
  calls-IsKind [] s until h = tt
  calls-IsKind ((now, begins none fingerprint) ∷ steps) s until (h, hs) =
      calls-IsKind steps s until hs
  calls-IsKind ((now, begins (some s') fingerprint) ∷ steps) s until (h, hs) =
      (h, calls-IsKind steps s until hs)
  calls-IsKind ((now, ends s' o) ∷ steps) s until (h, hs) = (
    updates-IsKind s s' until now (claim_update merchant_idempotent o)
        (rw (is_release-frees_claim merchant_idempotent o) h),
    calls-IsKind steps s until hs,
  )
  calls-IsKind ((now, starts) ∷ steps) s until (h, hs) = (h, calls-IsKind steps s until hs)

  claim_answer-runs : (r : ClaimResult) → claim_answer r ≡ runs → r ≡ reserved
  unfolding claim_answer
  claim_answer-runs reserved e = refl
  claim_answer-runs _ e = cc

  -- In a table with one row for a scope: once a request with a key runs, no other request with that
  -- key runs before the claim expires, whatever its body, unless an ended request freed the claim or
  -- the adapter started for a merchant that deduplicates.
  pub checkout_once :
      (now later : ℕ) (s : Scope) (fingerprint fingerprint' : String) (steps : List (ℕ × Step))
      (t : List ClaimRow)
      → IsKeyed t
      → (begin_dispatch b hours now (some s) fingerprint t).1 ≡ runs
      → All (IsCalm s (now + retention_ms hours)) steps
      → later < now + retention_ms hours
      → (begin_dispatch b hours later
          (some s)
          fingerprint'
          (history steps (begin_dispatch b hours now (some s) fingerprint t).0)).1
        ≢ runs
  checkout_once now later s fingerprint fingerprint' steps t v ran calm early again =
      let until = now + retention_ms hours in
      let first = claim now s fingerprint until t in
      let granted : first.1 ≡ reserved =
        claim_answer-runs first.1
          (sym (ap (λ (x : List ClaimRow × Begun). x.1) (begin-same now s fingerprint t)) ∙ ran) in
      let kept =
        run-HasRow (calls steps) s until first.0 (claim-IsKeyed now s fingerprint until t v)
          (new_claim now s fingerprint until, claim-row now s fingerprint until t granted, refl)
          (calls-IsKind steps s until calm) in
      let t' : List ClaimRow = run (calls steps) first.0 in
      let same : history steps (begin_dispatch b hours now (some s) fingerprint t).0 ≡ t' =
        ap (λ (x : List ClaimRow × Begun). history steps x.0) (begin-same now s fingerprint t)
        ∙ history-run steps first.0 in
      claim-HasRow later s fingerprint' until (later + retention_ms hours) t'
        (run-IsKeyed (calls steps) first.0 (claim-IsKeyed now s fingerprint until t v)) kept early
        (claim_answer-runs _ (
          sym (ap (λ (x : List ClaimRow × Begun). x.1) (begin-same later s fingerprint' t'))
          ∙ rw same at again))

  -- The steps that leave a stored response: requests before its expiry, and ends of requests with
  -- another key.
  abbrev pub IsApart : Scope → ℕ → ℕ × Step → Type 0
  IsApart s until (now, begins s' fingerprint) = now < until
  IsApart s until (now, ends s' o) = scope_eq s s' ≡ false
  IsApart s until (now, starts) = Unit

  calls-IsQuiet :
      (steps : List (ℕ × Step)) (s : Scope) (until : ℕ)
      → All (IsApart s until) steps
      → All (IsQuiet s until) (calls steps)
  calls-IsQuiet [] s until h = tt
  calls-IsQuiet ((now, begins none fingerprint) ∷ steps) s until (h, hs) =
      calls-IsQuiet steps s until hs
  calls-IsQuiet ((now, begins (some s') fingerprint) ∷ steps) s until (h, hs) =
      (h, calls-IsQuiet steps s until hs)
  calls-IsQuiet ((now, ends s' o) ∷ steps) s until (h, hs) = (h, calls-IsQuiet steps s until hs)
  calls-IsQuiet ((now, starts) ∷ steps) s until (h, hs) = (tt, calls-IsQuiet steps s until hs)

  -- In a table with one row for a scope: after a request with a key ends with a status below 500,
  -- each request with that key and body before the claim expires, if no other run of the key ends in
  -- between, is answered with the same status and body, marked as replayed, and does not run.
  pub response_replayed :
      (now : ℕ) (s : Scope) (o : Checkout) (steps : List (ℕ × Step)) (t : List ClaimRow)
      (row : ClaimRow)
      → IsKeyed t
      → claim_of s t ≡ some row
      → o.response.status < 500
      → All (IsApart s row.expires_at) steps
      → now < row.expires_at
      → (begin_dispatch b hours now
          (some s)
          row.fingerprint
          (history steps (finish_dispatch b merchant_idempotent s (some o) t))).1
        ≡ answered (record {
          status = o.response.status;
          body = o.response.body;
          replayed = true;
          retry_after_seconds = none;
        })
  unfolding claim_answer
  response_replayed now s o steps t row v e answer_status apart early =
      let u : Update = completes o.response.status (some o.response.body) in
      let ended : finish_dispatch b merchant_idempotent s (some o) t
          ≡ update_idempotency_key s u t =
        finish-same b merchant_idempotent s (some o) t
        ∙ ap (λ x. update_idempotency_key s x t)
            (claim_update-answer merchant_idempotent o answer_status) in
      let t' = run (calls steps) (update_idempotency_key s u t) in
      let same = ap (history steps) ended ∙ history-run steps (update_idempotency_key s u t) in
      let stored =
        replay_stored s o.response.status (some o.response.body) t row (calls steps) now
          row.fingerprint (now + retention_ms hours) v e
          (calls-IsQuiet steps s row.expires_at apart) early in
      rw (same, begin-same now s row.fingerprint t', stored, eq_refl row.fingerprint) refl
