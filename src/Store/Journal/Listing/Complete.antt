-- ===== src/Store/Journal/Listing/Complete.antt =====
-- The loop over `listTransactions` of src/storage/receipts/store.ts, against the rows it asks for.
use agent_commerce.Prelude.{
  Bool, List, false, not, refl, suc, zero, ℕ, ◌&&◌, ◌||◌, ◌≡◌, IsSome, Option-cases, inl, inr, none,
  some, sym, true, ◌∙◌, ◌⊎◌, All, Bool-cases, arith, length, ◌<◌, All-map, Option, ap,
}
use agent_commerce.Sql.{select_rows}
use agent_commerce.Sql.Pages.{
  collect, next_cursor, page, IsNewestFirst, IsNewestFirst-select_rows, collect-all,
  length-select_rows, select_rows-same, select_rows-select_rows,
}
use agent_commerce.Core.Time.{IsoTimestamp}
use agent_commerce.Core.Transaction.{TransactionState, state_eq}
use agent_commerce.Core.Transaction.States.{resolved_at_all_times, state_at_all_times}
use agent_commerce.Store.Params.{clamp_list_limit}
use agent_commerce.Store.Params.Bounds.{clamp_list_limit_bounds}
use agent_commerce.Store.Journal.{
  ArchivedRow, AttemptRow, TransactionRow, backend_of, facts_of, state_at, payment_status,
}
use agent_commerce.Store.Journal.Cached.{IsCurrent}
use agent_commerce.Store.Journal.Listing.{
  ListQuery, asks, has_open_hold, is_resolved, is_state, is_time_dependent, list_transactions,
  of_request, passes, read_pages, may_have_state,
}

-- A row with a deadline and no end is the only one that waits.
settled_facts :
    (t : TransactionRow)
    → is_time_dependent t ≡ false
    → (backend_of t ≡ none) ⊎ IsSome t.completed_at
unfolding backend_of
settled_facts t h = elim (Option-cases t.backend_deadline_at) [
  | inl missing ↦ inl (ground (arith, missing))
  | inr (deadline, given) ↦ inr (ground (arith, given))
]

and_absorb :
    (a a' b b' r p : Bool)
    → (a && a') ≡ a
    → (b && b') ≡ b
    → ((a && b) && (r && (a' && (p && b')))) ≡ (r && (a && (p && b)))
and_absorb a a' b b' r p h k = ground arith

and_or : (a b : Bool) → (a && (b || true)) ≡ a
and_or a b = ground arith

and_self : (a b : Bool) → (a && (a || b)) ≡ a
and_self a b = ground arith

and_same : (a : Bool) → (a && a) ≡ a
and_same a = ground arith

module _ (attempts : List AttemptRow) (history : List ArchivedRow) (now : IsoTimestamp) where
  -- What a caller asks for, by the states at the time of the read alone.
  abbrev pub wanted : ListQuery → TransactionRow → Bool
  wanted q t =
      let s = state_at attempts history t now in
      of_request q.request_id t
      && (is_state q.state s
          && ((not q.pending_hold || has_open_hold t.authorization_json)
              && (not q.unresolved || not (is_resolved s))))

  read_pages-collect :
      (fuel : ℕ) (q : ListQuery) (rows : List (ℕ × TransactionRow))
      → read_pages attempts history now fuel q rows
        ≡ collect
            (λ (r : ℕ × TransactionRow). asks q r.1)
            (λ (r : ℕ × TransactionRow). passes attempts history now q r.1)
            (clamp_list_limit q.limit)
            fuel
            q.cursor
            rows
  unfolding read_pages list_transactions collect asks passes
  read_pages-collect zero q rows = refl
  read_pages-collect (suc fuel) q rows =
      let candidates =
        page (λ (r : ℕ × TransactionRow). asks q r.1) (clamp_list_limit q.limit) q.cursor rows in
      elim (Option-cases (next_cursor (clamp_list_limit q.limit) candidates)) [
        | inl stop ↦ rw (read_pages, list_transactions, collect, stop) refl
        | inr (c, more) ↦
            rw
              (
                read_pages,
                list_transactions,
                collect,
                more,
                read_pages-collect fuel (record q { cursor = some c }) rows,
              )
              refl
      ]

  -- A row that time cannot change has its present state in the table.
  IsCurrent-stays :
      (t : TransactionRow)
      → IsCurrent attempts history t
      → is_time_dependent t ≡ false
      → state_at attempts history t now ≡ t.state
  unfolding state_at facts_of
  IsCurrent-stays t (then, e) h =
      state_at_all_times (facts_of (payment_status t attempts history) t) then now
        (settled_facts t h)
      ∙ sym e

  IsCurrent-resolved :
      (t : TransactionRow)
      → IsCurrent attempts history t
      → is_resolved t.state ≡ true
      → state_at attempts history t now ≡ t.state
  unfolding state_at
  IsCurrent-resolved t (then, e) h =
      resolved_at_all_times (facts_of (payment_status t attempts history) t) then now (rw e at h)
      ∙ sym e

  state_cases :
      (t : TransactionRow)
      → IsCurrent attempts history t
      → (is_time_dependent t ≡ true) ⊎ (state_at attempts history t now ≡ t.state)
  state_cases t c = elim (Bool-cases (is_time_dependent t)) [
    | inl depends ↦ inl depends
    | inr settled ↦ inr (IsCurrent-stays t c settled)
  ]

  unresolved_cases :
      (t : TransactionRow)
      → IsCurrent attempts history t
      → (is_resolved t.state ≡ false) ⊎ (state_at attempts history t now ≡ t.state)
  unresolved_cases t c = elim (Bool-cases (is_resolved t.state)) [
    | inl resolved ↦ inr (IsCurrent-resolved t c resolved)
    | inr open_state ↦ inl open_state
  ]

  may-have-state :
      (wish : Option TransactionState) (t : TransactionRow)
      → IsCurrent attempts history t
      → (is_state wish (state_at attempts history t now) && may_have_state wish t)
        ≡ is_state wish (state_at attempts history t now)
  may-have-state none t c = refl
  may-have-state (some s) t c = elim (state_cases t c) [
    | inl depends ↦
        rw depends (and_or (state_eq (state_at attempts history t now) s) (state_eq t.state s))
    | inr same ↦ rw same (and_self (state_eq t.state s) (is_time_dependent t))
  ]

  may-be-unresolved :
      (asked : Bool) (t : TransactionRow)
      → IsCurrent attempts history t
      → ((not asked || not (is_resolved (state_at attempts history t now)))
          && (not asked || not (is_resolved t.state)))
        ≡ (not asked || not (is_resolved (state_at attempts history t now)))
  may-be-unresolved asked t c = elim (unresolved_cases t c) [
    | inl open_state ↦
        rw open_state
          (and_or (not asked || not (is_resolved (state_at attempts history t now))) (not asked))
    | inr same ↦ rw same (and_same (not asked || not (is_resolved t.state)))
  ]

  -- No row that is wanted is missed by the WHERE clause.
  row-wanted :
      (q : ListQuery) (t : TransactionRow)
      → IsCurrent attempts history t
      → (passes attempts history now q t && asks q t) ≡ wanted q t
  unfolding passes asks
  row-wanted q t c =
      let s = state_at attempts history t now in
      and_absorb (is_state q.state s) (may_have_state q.state t)
        (not q.unresolved || not (is_resolved s)) (not q.unresolved || not (is_resolved t.state))
        (of_request q.request_id t) (not q.pending_hold || has_open_hold t.authorization_json)
        (may-have-state q.state t c) (may-be-unresolved q.unresolved t c)

  -- If the states in the table were right when they were written, then a client that reads
  -- `listTransactions` page after page, whatever the page size, reaches a last page, and has then
  -- read, newest first and each once, exactly the transactions that match the request and the hold
  -- filter and whose state at the time of the reads matches the state filters.
  pub read_pages_complete :
      (fuel : ℕ) (q : ListQuery) (rows : List (ℕ × TransactionRow))
      → q.cursor ≡ none
      → IsNewestFirst rows
      → All (λ (r : ℕ × TransactionRow). IsCurrent attempts history r.1) rows
      → length rows < fuel
      → read_pages attempts history now fuel q rows
        ≡ some (select_rows (λ (r : ℕ × TransactionRow). wanted q r.1) rows)
  read_pages_complete fuel q rows start v current enough =
      let asked = λ (r : ℕ × TransactionRow). asks q r.1 in
      let passed = λ (r : ℕ × TransactionRow). passes attempts history now q r.1 in
      let limit = clamp_list_limit q.limit in
      let all =
        collect-all asked passed limit rows ((clamp_list_limit_bounds q.limit).0)
          (IsNewestFirst-select_rows asked rows v) fuel
          (omega (arith, length-select_rows asked rows, enough)) in
      let same =
        select_rows-select_rows asked passed rows
        ∙ select_rows-same (λ r. passed r && asked r) (λ (r : ℕ × TransactionRow). wanted q r.1)
            rows (All-map rows (λ r c. row-wanted q r.1 c) current) in
      read_pages-collect fuel q rows
      ∙ (ap (λ c. collect asked passed limit fuel c rows) start ∙ (all ∙ ap some same))
