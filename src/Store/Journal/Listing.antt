-- ===== src/Store/Journal/Listing.antt =====
-- The reads of transactions in src/storage/receipts/store.ts. A row stands beside its `seq`, and the
-- rows stand newest first; the attempts are those that TRANSACTION_SELECT joins.
mod Tests
pub mod Complete
use mathlib.Core.Option
use agent_commerce.Prelude.{
  Bool, List, Option, String, false, is_some, map, none, not, some, suc, true, zero, ℕ, ◌&&◌, ◌++◌,
  ◌==◌, ◌||◌,
}
use agent_commerce.Sql.{count_rows, select_rows}
use agent_commerce.Sql.Pages.{next_cursor, page}
use agent_commerce.Core.Time.{IsoTimestamp}
use agent_commerce.Core.Transaction.{TransactionState, state_eq}
use agent_commerce.Core.Transaction.States.{is_resolved}
use agent_commerce.Store.Params.{ListLimit, clamp_list_limit}
use agent_commerce.Store.Holds.{is_open}
use agent_commerce.Store.Journal.{
  ArchivedRow, AttemptRow, StoredAuthorization, TransactionRow, state_at,
}

-- `TransactionListOptions`, with a cursor that matches CURSOR_PATTERN
pub record ListQuery : Type 0 where
  pub cursor : Option ℕ
  pub limit : Option ListLimit
  pub state : Option TransactionState
  pub unresolved : Bool
  pub pending_hold : Bool
  pub request_id : Option String

-- `TransactionPage`
pub record Page : Type 0 where
  pub transactions : List (ℕ × TransactionRow)
  pub next : Option ℕ

-- TIME_DEPENDENT
abbrev pub is_time_dependent : TransactionRow → Bool
is_time_dependent t = is_some t.backend_deadline_at && not (is_some t.completed_at)

-- `t.request_id = ?`
abbrev pub of_request : Option String → TransactionRow → Bool
of_request none t = true
of_request (some id) t = t.request_id == id

-- `(t.state = ? OR (TIME_DEPENDENT))`
abbrev pub may_have_state : Option TransactionState → TransactionRow → Bool
may_have_state none t = true
may_have_state (some s) t = state_eq t.state s || is_time_dependent t

abbrev pub has_open_hold : Option StoredAuthorization → Bool
has_open_hold none = false
has_open_hold (some a) = is_open a.hold

-- The WHERE clause, without its cursor
unfoldable pub asks : ListQuery → TransactionRow → Bool
asks q t =
    of_request q.request_id t
    && (may_have_state q.state t
        && ((not q.pending_hold || has_open_hold t.authorization_json)
            && (not q.unresolved || not (is_resolved t.state))))

abbrev pub is_state : Option TransactionState → TransactionState → Bool
is_state none s = true
is_state (some x) s = state_eq s x

-- The filter on the states at the time of the read
unfoldable pub passes :
    List AttemptRow → List ArchivedRow → IsoTimestamp → ListQuery → TransactionRow → Bool
passes attempts history now q t =
    let s = state_at attempts history t now in
    is_state q.state s && (not q.unresolved || not (is_resolved s))

module _ (attempts : List AttemptRow) (history : List ArchivedRow) (now : IsoTimestamp) where
  -- `listTransactions`; the state of each row that it returns is its state at `now`.
  unfoldable pub list_transactions : ListQuery → List (ℕ × TransactionRow) → Page
  unfolding asks passes
  list_transactions q rows =
      let limit = clamp_list_limit q.limit in
      let candidates = page (λ (r : ℕ × TransactionRow). asks q r.1) limit q.cursor rows in
      record {
        transactions =
            select_rows (λ (r : ℕ × TransactionRow). passes attempts history now q r.1) candidates;
        next = next_cursor limit candidates;
      }

  -- A client's loop: page after page, until there is no cursor; `none` when the fuel ends first.
  unfoldable pub read_pages :
      ℕ → ListQuery → List (ℕ × TransactionRow) → Option (List (ℕ × TransactionRow))
  unfolding list_transactions
  read_pages zero q rows = none
  read_pages (suc fuel) q rows =
      let p = list_transactions q rows in
      elim p.next [
        | none ↦ some p.transactions
        | some c ↦
            Option.map (λ later. p.transactions ++ later)
              (read_pages fuel (record q { cursor = some c }) rows)
      ]

-- `unresolvedTransactions` of `summary`: how many unresolved transactions have a state at `now`.
unfoldable pub count_unresolved :
    List AttemptRow
    → List ArchivedRow
    → IsoTimestamp
    → TransactionState
    → List (ℕ × TransactionRow)
    → ℕ
count_unresolved attempts history now s rows =
    count_rows (λ (r : ℕ × TransactionRow). state_eq (state_at attempts history r.1 now) s)
      (select_rows (λ (r : ℕ × TransactionRow). not (is_resolved r.1.state)) rows)
