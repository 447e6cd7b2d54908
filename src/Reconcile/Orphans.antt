-- ===== src/Reconcile/Orphans.antt =====
-- `releaseOrphanHolds` of src/core/execution/reconcile.ts, with `listOrphanAuthorizationHolds` of
-- src/storage/receipts/holds.ts. The providers' releases and the order of references in the database
-- are arguments; `none` is the result when the fuel ends before the loop does.
pub mod Lists
pub mod Ends
use mathlib.Core.Option
use agent_commerce.Prelude.{
  Bool, List, Option, String, [], eqb, false, if◌then◌else◌, length, ltb, map, none, not, some, suc,
  true, zero, ℕ, ◌&&◌, ◌++◌, ◌+◌, ◌-◌, ◌==◌, ◌||◌, ◌∷◌,
}
use agent_commerce.Sql.{any_row, select_rows}
use agent_commerce.Sql.Pages.{first, page}
use agent_commerce.Core.Transaction.{HoldState, reserved}
use agent_commerce.Store.Holds.{HoldRow, hold_eq}
use agent_commerce.Store.Params.{ListLimit, whole, clamp_list_limit}
use agent_commerce.Store.Journal.{ArchivedRow, AttemptRow}

-- `OrphanHoldEntry['reason']`
pub data OrphanReason : Type 0 where
  no_provider provider_broke : OrphanReason

-- `OrphanHoldEntry`; its fields are those of the hold.
pub record OrphanEntry : Type 0 where
  pub hold : HoldRow
  pub released : Bool
  pub reason : Option OrphanReason

-- What the loop is given. `release` is what a provider's call does to the holds, and whether it throws.
pub record OrphanOptions : Type 0 where
  pub dry_run : Bool
  pub limit : Option ℕ
  pub updated_before : ℕ
  pub is_enabled : String → Bool
  pub release : HoldRow → List HoldRow → List HoldRow × Bool
  pub attempts : List AttemptRow
  pub history : List ArchivedRow
  pub reference_le : String → String → Bool

-- PAGE
abbrev pub page_size : ℕ
page_size = 200

-- `seen.has(…)`
abbrev pub is_in : List String → String → Bool
is_in [] reference = false
is_in (s ∷ seen) reference = s == reference || is_in seen reference

abbrev pub entry_for : HoldRow → Bool → Option OrphanReason → OrphanEntry
entry_for h released reason = record { hold = h; released = released; reason = reason }

abbrev pub released_entry : HoldRow → Bool → OrphanEntry
released_entry h true = entry_for h false (some provider_broke)
released_entry h false = entry_for h true none

abbrev pub references : List HoldRow → List String
references hs = map (λ (h : HoldRow). h.reference) hs

-- `entries.length < limit`, and the size of the next page
abbrev pub has_room : Option ℕ → ℕ → Bool
has_room none n = true
has_room (some k) n = ltb n k

abbrev pub next_size : Option ℕ → ℕ → ℕ
next_size none n = page_size
next_size (some k) n = if ltb page_size (k - n) then page_size else k - n

-- `page.filter((hold) => !seen.has(hold.reference))`
abbrev pub unseen : List String → List HoldRow → List HoldRow
unseen seen page = select_rows (λ h. not (is_in seen h.reference)) page

-- What follows the filtered page; `again` is the rest of the outer loop.
abbrev pub go_on :
    List HoldRow
    → List OrphanEntry
    → Option (List HoldRow × List OrphanEntry)
    → Option (List HoldRow × List OrphanEntry)
go_on t [] again = some (t, [])
go_on t (e ∷ es) again =
    Option.map (λ (x : List HoldRow × List OrphanEntry). (x.0, (e ∷ es) ++ x.1)) again

module _ (o : OrphanOptions) where
  -- ORPHAN_HOLD_WHERE
  abbrev pub is_orphan : HoldRow → Bool
  is_orphan h =
      hold_eq h.state reserved
      && (ltb h.updated_at o.updated_before
          && (not (any_row (λ (a : AttemptRow). a.request_id == h.request_id) o.attempts)
              && not
                  (any_row (λ (p : ArchivedRow). p.attempt.request_id == h.request_id) o.history)))

  -- ORDER BY h.updated_at, h.reference
  abbrev pub precedes : HoldRow → HoldRow → Bool
  precedes h g =
      ltb h.updated_at g.updated_at
      || (eqb h.updated_at g.updated_at && o.reference_le h.reference g.reference)

  abbrev pub insert_hold : HoldRow → List HoldRow → List HoldRow
  insert_hold h [] = h ∷ []
  insert_hold h (g ∷ gs) =
      let later = insert_hold h gs in if precedes h g then h ∷ g ∷ gs else g ∷ later

  abbrev pub sort_holds : List HoldRow → List HoldRow
  sort_holds [] = []
  sort_holds (h ∷ hs) = insert_hold h (sort_holds hs)

  -- `listOrphanAuthorizationHolds`
  unfoldable pub list_orphans : ℕ → List HoldRow → List HoldRow
  list_orphans n t =
      first (clamp_list_limit (some (whole n))) (sort_holds (select_rows is_orphan t))

  -- One turn of the inner loop
  unfoldable pub release_one : HoldRow → List HoldRow → List HoldRow × OrphanEntry
  release_one h t =
      let (t', throws) = o.release h t in
      if not (o.is_enabled h.method)
      then (t, entry_for h false (some no_provider))
      else if o.dry_run
      then (t, entry_for h false none)
      else (t', released_entry h throws)

  -- The inner loop
  unfoldable pub release_page : List HoldRow → List HoldRow → List HoldRow × List OrphanEntry
  unfolding release_one
  release_page [] t = (t, [])
  release_page (h ∷ hs) t =
      let (t', entry) = release_one h t in
      let (t'', entries) = release_page hs t' in (t'', entry ∷ entries)

  -- The outer loop, after `n` entries
  unfoldable pub release_orphans :
      ℕ → List String → ℕ → List HoldRow → Option (List HoldRow × List OrphanEntry)
  unfolding list_orphans release_page
  release_orphans zero seen n t = none
  release_orphans (suc fuel) seen n t =
      let fresh = unseen seen (list_orphans (next_size o.limit n) t) in
      let (t', entries) = release_page fresh t in
      let again = release_orphans fuel (references fresh ++ seen) (n + length entries) t' in
      if has_room o.limit n then go_on t' entries again else some (t, [])
