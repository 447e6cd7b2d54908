-- ===== src/Reconcile/Candidates.antt =====
-- `collectCandidates` of src/core/execution/reconcile.ts. The pages of the three scans are given as
-- one list of transactions, and the attempts that `listPaymentAttempts` returns as another.
pub mod Sound
use agent_commerce.Prelude.{
  Bool, List, Option, String, [], false, if◌then◌else◌, is_some, leb, length, none, not, some, true,
  ℕ, ◌&&◌, ◌++◌, ◌+◌, ◌==◌, ◌||◌, ◌∷◌,
}
use agent_commerce.Json.{Json}
use agent_commerce.Core.Attempt.{AttemptStatus, failed, reserved, settlement_uncertain, status_eq}
use agent_commerce.Store.Journal.{AttemptRow, TransactionRow}

pub record Candidate : Type 0 where
  pub attempt : AttemptRow
  pub transaction_id : Option String
  pub locator : Option Json

-- A transaction of a scan: its id, its payment's attempt, status and locator
pub record Scanned : Type 0 where
  pub id : String
  pub attempt_id : String
  pub payment_status : AttemptStatus
  pub locator : Option Json

-- `status !== 'settlement-uncertain' && status !== 'failed' && status !== 'reserved'`
abbrev pub is_unresolved : AttemptStatus → Bool
is_unresolved settlement_uncertain = true
is_unresolved failed = true
is_unresolved reserved = true
is_unresolved _ = false

-- The status part of `eligible`
abbrev pub is_eligible_status : ℕ → ℕ → AttemptRow → Bool
is_eligible_status now min_age a =
    status_eq a.status settlement_uncertain
    || (status_eq a.status failed
        || (status_eq a.status reserved && leb (a.created_at + min_age) now))

-- `eligible`
abbrev pub is_eligible : ℕ → ℕ → AttemptRow → Bool
is_eligible now min_age a = not (is_some a.resolution_json) && is_eligible_status now min_age a

abbrev pub has_seen : String → List Candidate → Bool
has_seen id [] = false
has_seen id (c ∷ cs) = c.attempt.id == id || has_seen id cs

-- `candidates.length >= limit`, where `none` is POSITIVE_INFINITY
abbrev pub is_full : Option ℕ → List Candidate → Bool
is_full none cs = false
is_full (some n) cs = leb n (length cs)

module _ (now min_age : ℕ) where
  -- What an attempt that was looked up adds; the candidates' ids are the set `seen`.
  unfoldable pub add_attempt :
      Option String → Option Json → Option AttemptRow → List Candidate → List Candidate
  add_attempt transaction_id locator none cs = cs
  add_attempt transaction_id locator (some a) cs =
      if not (is_eligible now min_age a) || has_seen a.id cs
      then cs
      else cs ++ (record { attempt = a; transaction_id = transaction_id; locator = locator }) ∷ []

module _ (now min_age : ℕ) (limit : Option ℕ) (get_attempt : String → Option AttemptRow) where
  -- The loop over the scanned transactions
  unfoldable pub scan_transactions : List Scanned → List Candidate → List Candidate
  unfolding add_attempt
  scan_transactions [] cs = cs
  scan_transactions (t ∷ ts) cs =
      let added =
        if is_unresolved t.payment_status
        then add_attempt now min_age (some t.id) t.locator (get_attempt t.attempt_id) cs
        else cs in
      let later = scan_transactions ts added in if is_full limit cs then cs else later

  -- The loop over the attempts without journal entries
  unfoldable pub scan_attempts : List AttemptRow → List Candidate → List Candidate
  unfolding add_attempt
  scan_attempts [] cs = cs
  scan_attempts (a ∷ attempts) cs =
      let added =
        if is_some a.transaction_id then cs else add_attempt now min_age none none (some a) cs in
      let later = scan_attempts attempts added in if is_full limit cs then cs else later

  -- `collectCandidates`; a full list ends the scan of transactions without the second loop.
  unfoldable pub collect_candidates : List Scanned → List AttemptRow → List Candidate
  unfolding scan_transactions scan_attempts
  collect_candidates scanned attempts = scan_attempts attempts (scan_transactions scanned [])
