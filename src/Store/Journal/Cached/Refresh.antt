-- ===== src/Store/Journal/Cached/Refresh.antt =====
-- `refreshTransactionState` of src/storage/receipts/store.ts after updates, resolutions and steps.
use mathlib.Core.Option
use agent_commerce.Prelude.{
  Bool, List, Option-cases, [], ap, arith, eq_iff, false, inl, inr, some, true, ◌&&◌, ◌==◌, ◌∷◌,
  ◌≡◌, All, Bool-cases, String, refl, sym, ℕ, ◌∙◌,
}
use agent_commerce.Sql.{any_row, find_row, on_match, update_rows}
use agent_commerce.Sql.Laws.{find_row-match, find_row-update_rows}
use agent_commerce.Core.Time.{IsoTimestamp, instant}
use agent_commerce.Core.Transaction.{transaction_state}
use agent_commerce.Store.Journal.{
  archived_status, ArchivedRow, AttemptRow, TransactionRow, has_attempt_id, payment_status, Db,
  facts_of, has_replay_key, has_transaction_id, state_at,
}
use agent_commerce.Store.Journal.Writes.{
  is_joined, AttemptUpdate, ResolveRequest, StepKind, accepts_step, is_resolvable, is_updatable,
  record_transaction_step, resolve_payment_attempt, resolved, set_step, update_attempt, updated,
  backend_dispatched, backend_result, completed, hold, receipt, settling, update_payment_attempt,
}
use agent_commerce.Store.Journal.Calls.{Call, reserves, updates, resolves, steps, apply, run}
use agent_commerce.Store.Journal.Cached.{is_linked, IsCached, IsGood}

any_row-found :
    (q c : AttemptRow → Bool) (t : List AttemptRow) (a : AttemptRow)
    → find_row q t ≡ some a
    → c a ≡ true
    → any_row c t ≡ true
any_row-found q c [] a e h = cc
any_row-found q c (x ∷ t) a e h = ground (arith, any_row-found q c t a)

-- An UPDATE of attempts that keeps ids and replay keys, and the refresh of the transactions of all
-- attempts that it may have changed.
module _ (p : AttemptRow → Bool) (f : AttemptRow → AttemptRow) (selected : AttemptRow → Bool)
    (same_id : (a : AttemptRow) → (f a).id ≡ a.id)
    (same_key : (a : AttemptRow) → (f a).replay_key ≡ a.replay_key)
    (covers : (a : AttemptRow) → p a ≡ true → selected (f a) ≡ true) (attempts : List AttemptRow)
    (history : List ArchivedRow) (now : IsoTimestamp) where
  abbrev pub attempts' : List AttemptRow
  attempts' = update_rows p f attempts

  find-updated :
      (t : TransactionRow)
      → find_row (has_attempt_id t.attempt_id) attempts'
        ≡ Option.map (on_match p f) (find_row (has_attempt_id t.attempt_id) attempts)
  find-updated t =
      find_row-update_rows (has_attempt_id t.attempt_id) p f attempts
        (λ a. ap (λ x. x == t.attempt_id) (same_id a))

  -- A transaction that the refresh passes over has the payment status that it had.
  status-kept :
      (t : TransactionRow)
      → is_linked attempts t ≡ true
      → is_joined selected attempts' t ≡ false
      → payment_status t attempts' history ≡ payment_status t attempts history
  unfolding payment_status is_joined
  status-kept t link out = elim (Option-cases (find_row (has_attempt_id t.attempt_id) attempts)) [
    | inl missing ↦ let d = find-updated t in ground arith
    | inr (a, found) ↦
        let d = find-updated t in
        let a' = on_match p f a in
        let c = λ (b : AttemptRow).
          selected b && (t.replay_key == b.replay_key && t.attempt_id == b.id) in
        ground (
          arith,
          any_row-found (has_attempt_id t.attempt_id) c attempts' a',
          find_row-match (has_attempt_id t.attempt_id) attempts a found,
          same_id a,
          same_key a,
          covers a,
          eq_iff a.id t.attempt_id,
          eq_iff t.attempt_id a.id,
        )
  ]

  link-kept : (t : TransactionRow) → is_linked attempts t ≡ true → is_linked attempts' t ≡ true
  link-kept t link = elim (Option-cases (find_row (has_attempt_id t.attempt_id) attempts)) [
    | inl missing ↦ let d = find-updated t in ground arith
    | inr (a, found) ↦ let d = find-updated t in ground (arith, same_key a)
  ]

  refreshed-IsGood :
      (t : TransactionRow)
      → IsGood attempts history t
      → IsGood attempts' history (
          on_match
            (is_joined selected attempts')
            (λ t. record t { state = state_at attempts' history t now })
            t)
  unfolding state_at payment_status archived_status
  refreshed-IsGood t ((at, current), link) = elim (Bool-cases (is_joined selected attempts' t)) [
    | inl refreshed ↦ rw refreshed ((now, refl), link-kept t link)
    | inr passed ↦
        let same = status-kept t link passed in
        rw passed (
          (at, current ∙ ap (λ s. transaction_state (facts_of s t) at) (sym same)),
          link-kept t link,
        )
  ]

  pub refresh-IsGood :
      (ts : List TransactionRow)
      → All (IsGood attempts history) ts
      → All (IsGood attempts' history) (
          update_rows
            (is_joined selected attempts')
            (λ t. record t { state = state_at attempts' history t now })
            ts)
  refresh-IsGood [] h = tt
  refresh-IsGood (t ∷ ts) (ht, h) = (refreshed-IsGood t ht, refresh-IsGood ts h)

-- If every cached state of a transaction is one that `rowToTransaction` derives at some time, and
-- every transaction has the replay key of its attempt, then this still holds after `updateAttempt`.
pub update-IsCached :
    (now : ℕ) (u : AttemptUpdate) (db : Db) → IsCached db → IsCached (update_attempt now u db)
unfolding update_attempt
update-IsCached now u db h =
    refresh-IsGood (is_updatable u.replay_key) (updated now u) (has_replay_key u.replay_key)
      (λ a. refl) (λ a. refl) (λ a e. ground arith) db.attempts db.history (instant now)
      db.transactions h

-- If every cached state of a transaction is one that `rowToTransaction` derives at some time, and
-- every transaction has the replay key of its attempt, then this still holds after
-- `resolvePaymentAttempt`, whether or not it resolves.
pub resolve-IsCached :
    (now : ℕ) (q : ResolveRequest) (db : Db)
    → IsCached db
    → IsCached (resolve_payment_attempt now q db).0
unfolding resolve_payment_attempt
resolve-IsCached now q db h = elim (Bool-cases (any_row (is_resolvable q) db.attempts)) [
  | inr no_row ↦ rw no_row h
  | inl some_row ↦ rw some_row (
      refresh-IsGood (is_resolvable q) (resolved now q) (has_attempt_id q.attempt_id) (λ a. refl)
        (λ a. refl) (λ a e. ground arith) db.attempts db.history (instant now) db.transactions h)
]

set_step-keeps :
    (at : IsoTimestamp) (kind : StepKind) (t : TransactionRow)
    → ((set_step at kind t).id ≡ t.id)
      × ((set_step at kind t).attempt_id ≡ t.attempt_id)
      × ((set_step at kind t).replay_key ≡ t.replay_key)
unfolding set_step
set_step-keeps at settling t = (refl, refl, refl)
set_step-keeps at (hold state) t = (refl, refl, refl)
set_step-keeps at (backend_dispatched deadline) t = (refl, refl, refl)
set_step-keeps at (backend_result status error_code) t = (refl, refl, refl)
set_step-keeps at (receipt receipt_id) t = (refl, refl, refl)
set_step-keeps at (completed failures) t = (refl, refl, refl)

accepts_step-other :
    (id : String) (kind : StepKind) (t : TransactionRow)
    → has_transaction_id id t ≡ false
    → accepts_step id kind t ≡ false
unfolding accepts_step
accepts_step-other id (hold state) t h = ground arith
accepts_step-other id _ t h = h

abbrev stepped : String → IsoTimestamp → StepKind → TransactionRow → TransactionRow
stepped id at kind t = on_match (accepts_step id kind) (set_step at kind) t

-- A step changes the rows of one transaction id, and refreshes them.
step-IsGood :
    (id : String) (at : IsoTimestamp) (kind : StepKind) (attempts : List AttemptRow)
    (history : List ArchivedRow) (t : TransactionRow)
    → IsGood attempts history t
    → IsGood attempts history (
        on_match
          (has_transaction_id id)
          (λ t. record t { state = state_at attempts history t at })
          (stepped id at kind t))
unfolding state_at accepts_step payment_status archived_status
step-IsGood id at kind attempts history t (current, link) =
    elim (Bool-cases (has_transaction_id id t)) [
      | inr other ↦ rw (accepts_step-other id kind t other) (rw other (current, link))
      | inl here ↦
          let t' = stepped id at kind t in
          let keeps = set_step-keeps at kind t in
          let same_id : t'.id ≡ t.id = ground (arith, keeps) in
          let same_attempt : t'.attempt_id ≡ t.attempt_id = ground (arith, keeps) in
          let same_key : t'.replay_key ≡ t.replay_key = ground (arith, keeps) in
          let here' : has_transaction_id id t' ≡ true = ap (λ x. x == id) same_id ∙ here in
          rw here' ((at, refl), ground arith)
    ]

steps-IsGood :
    (id : String) (at : IsoTimestamp) (kind : StepKind) (attempts : List AttemptRow)
    (history : List ArchivedRow) (ts : List TransactionRow)
    → All (IsGood attempts history) ts
    → All (IsGood attempts history) (
        update_rows
          (has_transaction_id id)
          (λ t. record t { state = state_at attempts history t at })
          (update_rows (accepts_step id kind) (set_step at kind) ts))
steps-IsGood id at kind attempts history [] h = tt
steps-IsGood id at kind attempts history (t ∷ ts) (ht, h) =
    (step-IsGood id at kind attempts history t ht, steps-IsGood id at kind attempts history ts h)

-- If every cached state of a transaction is one that `rowToTransaction` derives at some time, and
-- every transaction has the replay key of its attempt, then this still holds after
-- `recordTransactionStep`, whether or not it accepts the step.
pub step-IsCached :
    (id : String) (at : IsoTimestamp) (kind : StepKind) (db : Db)
    → IsCached db
    → IsCached (record_transaction_step id at kind db).0
unfolding record_transaction_step
step-IsCached id at kind db h = elim (Bool-cases (any_row (accepts_step id kind) db.transactions)) [
  | inr no_row ↦ rw no_row h
  | inl some_row ↦ rw some_row (steps-IsGood id at kind db.attempts db.history db.transactions h)
]

-- The calls that write to existing rows.
abbrev pub IsWrite : ℕ × Call → Type 0
IsWrite (now, reserves id r) = ⊥
IsWrite (now, _) = Unit

-- If each transaction's cached state was right at some time and it shares its attempt's replay key,
-- then any history of updates, resolutions and steps keeps it so.
pub run-IsCached :
    (cs : List (ℕ × Call)) (db : Db) → All IsWrite cs → IsCached db → IsCached (run cs db)
unfolding run apply update_payment_attempt
run-IsCached [] db w h = h
run-IsCached ((now, reserves id r) ∷ cs) db (w, ws) h = elim w [ ]
run-IsCached ((now, updates u) ∷ cs) db (w, ws) h =
    run-IsCached cs (update_attempt now u db) ws (update-IsCached now u db h)
run-IsCached ((now, resolves q) ∷ cs) db (w, ws) h =
    run-IsCached cs (resolve_payment_attempt now q db).0 ws (resolve-IsCached now q db h)
run-IsCached ((now, steps id at kind) ∷ cs) db (w, ws) h =
    run-IsCached cs (record_transaction_step id at kind db).0 ws (step-IsCached id at kind db h)
