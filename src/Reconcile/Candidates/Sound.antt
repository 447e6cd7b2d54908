-- ===== src/Reconcile/Candidates/Sound.antt =====
-- The candidates that `collectCandidates` of src/core/execution/reconcile.ts returns.
use agent_commerce.Prelude.{
  All, Bool, List, Option, String, false, length, none, not, some, true, ℕ, ◌==◌, ◌||◌, ◌≡◌, ◌≤◌,
  All-append, [], arith, is_some, length-append, refl, ◌++◌, ◌∷◌, if-cases, if◌then◌else◌,
}
use agent_commerce.Json.{Json}
use agent_commerce.Sql.Laws.{Apart, Apart-append}
use agent_commerce.Store.Journal.{AttemptRow}
use agent_commerce.Reconcile.Candidates.{
  Candidate, add_attempt, has_seen, is_eligible, is_full, Scanned, collect_candidates,
  is_unresolved, scan_attempts, scan_transactions,
}

abbrev pub same_attempt : Candidate → Candidate → Bool
same_attempt c d = c.attempt.id == d.attempt.id

-- Up to the limit, where one is given
abbrev pub IsWithin : Option ℕ → List Candidate → Type 0
IsWithin none cs = Unit
IsWithin (some n) cs = length cs ≤ n

unseen :
    (id : String) (cs : List Candidate) (n : Candidate)
    → n.attempt.id ≡ id
    → has_seen id cs ≡ false
    → All (λ c. same_attempt c n ≡ false) cs
unseen id [] n e h = tt
unseen id (c ∷ cs) n e h = (rw e (ground arith), unseen id cs n e (ground arith))

IsWithin-append :
    (limit : Option ℕ) (cs : List Candidate) (n : Candidate)
    → is_full limit cs ≡ false
    → IsWithin limit (cs ++ n ∷ [])
IsWithin-append none cs n h = tt
IsWithin-append (some k) cs n h = rw (length-append cs (n ∷ [])) (ground arith)

-- What a list of candidates has to be.
pub record IsSelection (now min_age : ℕ) (limit : Option ℕ) (cs : List Candidate) : Type 0 where
  pub eligible : All (λ c. is_eligible now min_age c.attempt ≡ true) cs
  pub distinct : Apart same_attempt cs
  pub within : IsWithin limit cs

module _ (now min_age : ℕ) (limit : Option ℕ) where
  append-IsSelection :
      (c : Candidate) (cs : List Candidate)
      → is_eligible now min_age c.attempt ≡ true
      → has_seen c.attempt.id cs ≡ false
      → is_full limit cs ≡ false
      → IsSelection now min_age limit cs
      → IsSelection now min_age limit (cs ++ c ∷ [])
  append-IsSelection c cs fit new room s = record {
    eligible =
        All-append (λ d. is_eligible now min_age d.attempt ≡ true) cs (c ∷ []) s.eligible (fit, tt);
    distinct = Apart-append same_attempt c cs (unseen c.attempt.id cs c refl new) s.distinct;
    within = IsWithin-append limit cs c room;
  }

  add-IsSelection :
      (transaction_id : Option String) (locator : Option Json) (found : Option AttemptRow)
      (cs : List Candidate)
      → is_full limit cs ≡ false
      → IsSelection now min_age limit cs
      → IsSelection now min_age limit (add_attempt now min_age transaction_id locator found cs)
  unfolding add_attempt
  add-IsSelection transaction_id locator none cs room s = s
  add-IsSelection transaction_id locator (some a) cs room s =
      let c : Candidate = record {
        attempt = a;
        transaction_id = transaction_id;
        locator = locator;
      } in
      if-cases (IsSelection now min_age limit) (not (is_eligible now min_age a) || has_seen a.id cs)
        cs (cs ++ c ∷ []) (λ _. s)
        (λ new. append-IsSelection c cs (ground arith) (ground arith) room s)

module _ (now min_age : ℕ) (limit : Option ℕ) (get_attempt : String → Option AttemptRow) where
  transactions-IsSelection :
      (ts : List Scanned) (cs : List Candidate)
      → IsSelection now min_age limit cs
      → IsSelection now min_age limit (scan_transactions now min_age limit get_attempt ts cs)
  unfolding scan_transactions
  transactions-IsSelection [] cs s = s
  transactions-IsSelection (t ∷ ts) cs s =
      let found = add_attempt now min_age (some t.id) t.locator (get_attempt t.attempt_id) cs in
      let added = if is_unresolved t.payment_status then found else cs in
      if-cases (IsSelection now min_age limit) (is_full limit cs) cs
        (scan_transactions now min_age limit get_attempt ts added) (λ _. s)
        (λ room. transactions-IsSelection ts added (
          if-cases (IsSelection now min_age limit) (is_unresolved t.payment_status) found cs
            (λ _.
              add-IsSelection now min_age limit (some t.id) t.locator (get_attempt t.attempt_id) cs
                room s)
            (λ _. s)))

  attempts-IsSelection :
      (attempts : List AttemptRow) (cs : List Candidate)
      → IsSelection now min_age limit cs
      → IsSelection now min_age limit (scan_attempts now min_age limit get_attempt attempts cs)
  unfolding scan_attempts
  attempts-IsSelection [] cs s = s
  attempts-IsSelection (a ∷ attempts) cs s =
      let found = add_attempt now min_age none none (some a) cs in
      let added = if is_some a.transaction_id then cs else found in
      if-cases (IsSelection now min_age limit) (is_full limit cs) cs
        (scan_attempts now min_age limit get_attempt attempts added) (λ _. s)
        (λ room. attempts-IsSelection attempts added (
          if-cases (IsSelection now min_age limit) (is_some a.transaction_id) cs found (λ _. s)
            (λ _. add-IsSelection now min_age limit none none (some a) cs room s)))

  IsWithin-nil : (limit : Option ℕ) → IsWithin limit []
  IsWithin-nil none = tt
  IsWithin-nil (some n) = omega arith

  -- The candidates of a reconciliation are unresolved attempts that are uncertain, failed, or reserved
  -- for at least the minimum age; no attempt is a candidate twice, and there are no more candidates
  -- than the limit.
  pub candidates-IsSelection :
      (scanned : List Scanned) (attempts : List AttemptRow)
      → IsSelection now min_age limit
          (collect_candidates now min_age limit get_attempt scanned attempts)
  unfolding collect_candidates
  candidates-IsSelection scanned attempts =
      attempts-IsSelection attempts (scan_transactions now min_age limit get_attempt scanned []) (
        transactions-IsSelection scanned []
          (record { eligible = tt; distinct = tt; within = IsWithin-nil limit }))
