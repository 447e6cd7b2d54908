-- ===== src/Reconcile/Orphans/Ends.antt =====
-- The loop of `releaseOrphanHolds` in src/core/execution/reconcile.ts: that it ends, and with what.
use agent_commerce.Reconcile.Orphans.Lists.{All-sort_holds}
use agent_commerce.Reconcile.Orphans.Lists.{All-first, count-lt}
use agent_commerce.Reconcile.Orphans.Lists.{is_in-append, not_or, or_true, released_entry-hold}
use agent_commerce.Prelude.{
  All, List, String, [], arith, false, refl, suc, true, zero, ℕ, ◌++◌, ◌<◌, ◌==◌, ◌∷◌, ◌≡◌, ◌≤◌, ap,
  if-cases, length, none, not, some, subst, sym, ◌∙◌, All-map, eq_refl, ◌+◌, All-append, Option,
  ltb→lt, not_below, length-append,
}
use agent_commerce.Sql.{count_rows, select_rows}
use agent_commerce.Sql.Pages.{length-first, length-select_rows, select_rows-match, rest}
use agent_commerce.Store.Holds.{HoldRow}
use agent_commerce.Store.Params.{clamp_list_limit, whole}
use agent_commerce.Reconcile.Orphans.{
  OrphanOptions, sort_holds, OrphanEntry, entry_for, is_in, no_provider, references, release_one,
  release_page, released_entry, is_orphan, list_orphans, next_size, unseen, go_on, has_room,
  release_orphans,
}

-- The references of the table are a key that no release adds to.
abbrev pub KeepsReferences : OrphanOptions → Type 0
KeepsReferences o = (h : HoldRow) (t : List HoldRow) → references (o.release h t).0 ≡ references t

self-is_in : (t : List HoldRow) → All (λ h. is_in (references t) h.reference ≡ true) t
self-is_in [] = tt
self-is_in (h ∷ t) = (
  rw (eq_refl h.reference) refl,
  All-map t (λ g k. or_true (h.reference == g.reference) _ k) (self-is_in t),
)

next_size-bounds : (k n : ℕ) → n < k → (1 ≤ next_size (some k) n) × (n + next_size (some k) n ≤ k)
next_size-bounds k n h = (ground arith, ground arith)

clamped_le : (m : ℕ) → 1 ≤ m → clamp_list_limit (some (whole m)) ≤ m
unfolding clamp_list_limit
clamped_le m h = omega (arith, h)

sizes : (n : ℕ) (xs ys : List OrphanEntry) → (n + length xs) + length ys ≡ n + length (xs ++ ys)
sizes n xs ys = omega (arith, length-append xs ys)

no_more : (n : ℕ) → n ≡ n + length {A = OrphanEntry} []
no_more n = omega arith

module _ (o : OrphanOptions) (keeps : KeepsReferences o) where
  release_one-references :
      (h : HoldRow) (t : List HoldRow) → references (release_one o h t).0 ≡ references t
  unfolding release_one
  release_one-references h t =
      if-cases (λ (x : List HoldRow × OrphanEntry). references x.0 ≡ references t)
        (not (o.is_enabled h.method)) (t, entry_for h false (some no_provider)) _ (λ _. refl)
        (λ _.
          if-cases (λ (x : List HoldRow × OrphanEntry). references x.0 ≡ references t) o.dry_run
            (t, entry_for h false none) ((o.release h t).0, released_entry h (o.release h t).1)
            (λ _. refl) (λ _. keeps h t))

  release_page-references :
      (hs t : List HoldRow) → references (release_page o hs t).0 ≡ references t
  unfolding release_page
  release_page-references [] t = refl
  release_page-references (h ∷ hs) t =
      release_page-references hs (release_one o h t).0 ∙ release_one-references h t

  release_one-hold : (h : HoldRow) (t : List HoldRow) → (release_one o h t).1.hold ≡ h
  unfolding release_one
  release_one-hold h t =
      if-cases (λ (x : List HoldRow × OrphanEntry). x.1.hold ≡ h) (not (o.is_enabled h.method))
        (t, entry_for h false (some no_provider)) _ (λ _. refl)
        (λ _.
          if-cases (λ (x : List HoldRow × OrphanEntry). x.1.hold ≡ h) o.dry_run
            (t, entry_for h false none) ((o.release h t).0, released_entry h (o.release h t).1)
            (λ _. refl) (λ _. released_entry-hold h (o.release h t).1))

  release_page-All :
      (P : HoldRow → Type 0) (hs t : List HoldRow)
      → All P hs
      → All (λ (e : OrphanEntry). P e.hold) (release_page o hs t).1
  unfolding release_page
  release_page-All P [] t a = tt
  release_page-All P (h ∷ hs) t (ph, a) =
      (subst P (sym (release_one-hold h t)) ph, release_page-All P hs (release_one o h t).0 a)

  release_page-length : (hs t : List HoldRow) → length (release_page o hs t).1 ≡ length hs
  unfolding release_page
  release_page-length [] t = refl
  release_page-length (h ∷ hs) t = ap suc (release_page-length hs (release_one o h t).0)

  abbrev IsFresh : List String → List HoldRow → HoldRow → Type 0
  IsFresh seen t h =
      (is_orphan o h ≡ true)
      × (is_in (references t) h.reference ≡ true)
      × (not (is_in seen h.reference) ≡ true)

  list_orphans-All :
      (P : HoldRow → Type 0) (n : ℕ) (t : List HoldRow)
      → All P (select_rows (is_orphan o) t)
      → All P (list_orphans o n t)
  unfolding list_orphans
  list_orphans-All P n t a = All-first o P _ _ (All-sort_holds o P _ a)

  unseen-IsFresh :
      (seen : List String) (n : ℕ) (t : List HoldRow)
      → All (IsFresh seen t) (unseen seen (list_orphans o n t))
  unseen-IsFresh seen n t =
      All-map (unseen seen (list_orphans o n t)) (λ h ((here, orphan), new). (orphan, here, new))
        (select_rows-match (λ h. (is_in (references t) h.reference ≡ true) × (is_orphan o h ≡ true))
          (λ h. not (is_in seen h.reference)) (list_orphans o n t)
          (list_orphans-All _ n t (
            select_rows-match (λ h. is_in (references t) h.reference ≡ true) (is_orphan o) t
              (self-is_in t))))

  -- How many holds the loop may still meet
  abbrev left : List String → List HoldRow → ℕ
  left seen t = count_rows (λ r. not (is_in seen r)) (references t)

  left-less :
      (seen : List String) (t t' fs : List HoldRow) (f : HoldRow)
      → references t' ≡ references t
      → IsFresh seen t f
      → left (references (f ∷ fs) ++ seen) t' < left seen t
  left-less seen t t' fs f same (orphan, here, new) = rw same (
      count-lt (λ r. not (is_in seen r)) (λ r. not (is_in (references (f ∷ fs) ++ seen) r))
        (λ r q.
          not_or (is_in (references (f ∷ fs)) r) (is_in seen r)
            (sym (ap not (is_in-append (references (f ∷ fs)) seen r)) ∙ q))
        f.reference (references t) here new (rw (eq_refl f.reference) refl))

  length-unseen :
      (seen : List String) (k n : ℕ) (t : List HoldRow)
      → n < k
      → n + length (unseen seen (list_orphans o (next_size (some k) n) t)) ≤ k
  unfolding list_orphans
  length-unseen seen k n t room =
      let size = next_size (some k) n in
      let kept =
        length-select_rows (λ (h : HoldRow). not (is_in seen h.reference))
          (list_orphans o size t) in
      let read =
        length-first (clamp_list_limit (some (whole size)))
          (sort_holds o (select_rows (is_orphan o) t)) in
      let asked = next_size-bounds k n room in
      let clamped = clamped_le size asked.0 in omega (arith, kept, read, asked.1, clamped, room)

  abbrev pub IsUpTo : Option ℕ → ℕ → Type 0
  IsUpTo none n = Unit
  IsUpTo (some k) n = n ≤ k

  -- The loop has ended, with entries for orphan holds, up to the limit.
  abbrev pub Ends : ℕ → Option (List HoldRow × List OrphanEntry) → Type 0
  Ends n r =
      (out : List HoldRow × List OrphanEntry) × (r ≡ some out)
      × All (λ (e : OrphanEntry). is_orphan o e.hold ≡ true) out.1
      × IsUpTo o.limit (n + length out.1)

  fits :
      (limit : Option ℕ) (seen : List String) (n : ℕ) (t : List HoldRow)
      → has_room limit n ≡ true
      → IsUpTo limit (n + length (unseen seen (list_orphans o (next_size limit n) t)))
  fits none seen n t room = tt
  fits (some k) seen n t room = length-unseen seen k n t (ltb→lt n k room)

  -- One turn of the outer loop, given what the rest of it does.
  turn-Ends :
      (seen : List String) (n : ℕ) (t fs : List HoldRow)
      (again : Option (List HoldRow × List OrphanEntry))
      → All (IsFresh seen t) fs
      → IsUpTo o.limit (n + length fs)
      → (left (references fs ++ seen) (release_page o fs t).0 < left seen t
          → Ends (n + length (release_page o fs t).1) again)
      → Ends n (go_on (release_page o fs t).0 (release_page o fs t).1 again)
  unfolding release_page
  turn-Ends seen n t [] again fresh fit rest = ((t, []), refl, tt, fit)
  turn-Ends seen n t (f ∷ fs) again (ff, fresh) fit rest =
      let page = release_page o (f ∷ fs) t in
      let (out, ended, orphans, within) =
        rest (left-less seen t page.0 fs f (release_page-references (f ∷ fs) t) ff) in
      (
        (out.0, page.1 ++ out.1),
        rw ended refl,
        All-append (λ (e : OrphanEntry). is_orphan o e.hold ≡ true) page.1 out.1
            (release_page-All (λ h. is_orphan o h ≡ true) (f ∷ fs) t
              (All-map (f ∷ fs) (λ h x. x.0) (ff, fresh)))
            orphans,
        subst (IsUpTo o.limit) (sizes n page.1 out.1) within,
      )

  loop-Ends :
      (fuel : ℕ) (seen : List String) (n : ℕ) (t : List HoldRow)
      → left seen t < fuel
      → IsUpTo o.limit n
      → Ends n (release_orphans o fuel seen n t)
  unfolding release_orphans
  loop-Ends zero seen n t enough fit = elim (not_below enough) [ ]
  loop-Ends (suc fuel) seen n t enough fit =
      let fs = unseen seen (list_orphans o (next_size o.limit n) t) in
      let page = release_page o fs t in
      let seen' = references fs ++ seen in
      let n' = n + length page.1 in
      let again = release_orphans o fuel seen' n' page.0 in
      if-cases (Ends n) (has_room o.limit n) (go_on page.0 page.1 again) (some (t, []))
        (λ room.
          let fit' = fits o.limit seen n t room in
          turn-Ends seen n t fs again (unseen-IsFresh seen (next_size o.limit n) t) fit' (λ less.
            loop-Ends fuel seen' n' page.0 (omega (arith, less, enough))
              (subst (λ m. IsUpTo o.limit (n + m)) (sym (release_page-length fs t)) fit')))
        (λ full. ((t, []), refl, tt, subst (IsUpTo o.limit) (no_more n) fit))

  -- If a release adds no hold to the table, then the loop over the orphan holds ends within one turn
  -- more than there are holds. Each hold that it then reports was an orphan when it was read: reserved,
  -- last updated before the threshold, and without an attempt of its request; and there are no more
  -- entries than the limit.
  pub release_orphans-Ends :
      (fuel : ℕ) (t : List HoldRow) → length t < fuel → Ends 0 (release_orphans o fuel [] 0 t)
  release_orphans-Ends fuel t enough =
      loop-Ends fuel [] 0 t (omega (arith, enough, left-all t)) (IsUpTo-zero o.limit)
    where
      left-all : (t : List HoldRow) → left [] t ≤ length t
      left-all [] = omega arith
      left-all (h ∷ t) = omega (arith, left-all t)

      IsUpTo-zero : (limit : Option ℕ) → IsUpTo limit 0
      IsUpTo-zero none = tt
      IsUpTo-zero (some k) = omega arith
