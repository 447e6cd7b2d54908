-- ===== src/Reconcile/Alignment/Aligned.antt =====
-- What `alignPendingHolds` of src/core/execution/reconcile.ts asks of the providers and the journal.
use agent_commerce.Prelude.{Bool-cases, ◌⊎◌}
use agent_commerce.Core.Attempt.{AttemptStatus, settled, rejected}
use agent_commerce.Core.Transaction.{HoldState, reserved, uncertain, consumed, released}
use agent_commerce.Store.Holds.{is_open}
use agent_commerce.Reconcile.Alignment.{target_of, to_consumed, to_released}
use agent_commerce.Prelude.{arith, subst}
use agent_commerce.Prelude.{
  List, [], false, ◌++◌, ◌∷◌, ◌≡◌, All, Bool, Option, none, refl, some, true, ℕ, All-append,
  Option-cases, if-cases, inl, inr,
}
use agent_commerce.Reconcile.Alignment.{
  AlignDeps, Effect, calls, recorded_hold, records, Authorization, HeldTransaction, HoldEntry,
  Target, align_authorized, align_hold, align_one, align_pending, align_with, call_provider,
  hold_target, record_hold, is_spent,
}

-- What a transaction's hold is to become: consumed if its payment is settled, released if it is
-- rejected, and only a reserved or uncertain hold is to change.
abbrev pub IsDue : AttemptStatus → HoldState → Target → Type 0
IsDue status hold target =
    (((status ≡ settled) × (target ≡ to_consumed)) ⊎ ((status ≡ rejected) × (target ≡ to_released)))
    × ((hold ≡ reserved) ⊎ (hold ≡ uncertain))

-- The state that the journal has for each end
abbrev pub IsEnd : Target → HoldState → Type 0
IsEnd to_consumed consumed = Unit
IsEnd to_released released = Unit
IsEnd _ _ = ⊥

-- A call is of the transaction's own authorization, at an enabled provider, and due.
abbrev pub IsCall : AlignDeps → Target → Authorization → HeldTransaction → Type 0
IsCall deps target a t =
    (t.authorization ≡ some a)
    × (deps.is_enabled a.method ≡ true)
    × IsDue t.payment_status a.hold target

-- Each journal step directly follows a call of the provider that did not throw, on the same
-- transaction and to the same end.
abbrev pub IsOrdered : AlignDeps → List Effect → Type 0
IsOrdered deps [] = Unit
IsOrdered deps (calls target a t ∷ records id hold ∷ es) =
    IsCall deps target a t
    × (id ≡ t.id)
    × IsEnd target hold
    × (deps.provider_throws target a t ≡ false)
    × IsOrdered deps es
IsOrdered deps (calls target a t ∷ es) = IsCall deps target a t × IsOrdered deps es
IsOrdered deps (records id hold ∷ es) = ⊥

IsOrdered-append :
    (deps : AlignDeps) (xs ys : List Effect)
    → IsOrdered deps xs
    → IsOrdered deps ys
    → IsOrdered deps (xs ++ ys)
IsOrdered-append deps [] ys h k = k
IsOrdered-append deps (records id hold ∷ xs) ys h k = elim h [ ]
IsOrdered-append deps (calls target a t ∷ []) [] h k = h
IsOrdered-append deps (calls target a t ∷ []) (calls target' a' t' ∷ ys) h k = (h.0, k)
IsOrdered-append deps (calls target a t ∷ []) (records id hold ∷ ys) h k = elim k [ ]
IsOrdered-append deps (calls target a t ∷ calls target' a' t' ∷ xs) ys h k =
    (h.0, IsOrdered-append deps (calls target' a' t' ∷ xs) ys h.1 k)
IsOrdered-append deps (calls target a t ∷ records id hold ∷ xs) ys (c, i, o, n, h) k =
    (c, i, o, n, IsOrdered-append deps xs ys h k)

-- An entry's target is the one that its payment asks for, and a written one had a provider and no
-- throw.
abbrev pub IsAligned : AlignDeps → HoldEntry → Type 0
IsAligned deps e =
    ((a : Authorization) × (e.transaction.authorization ≡ some a)
      × IsDue e.transaction.payment_status a.hold e.hold)
    × (e.written ≡ true
        → (a : Authorization) × (e.transaction.authorization ≡ some a)
          × (deps.is_enabled a.method ≡ true)
          × (deps.provider_throws e.hold a e.transaction ≡ false)
          × (deps.journal_throws e.transaction.id ≡ false))

-- One alignment
abbrev IsStep : AlignDeps → HeldTransaction → Target → List Effect × HoldEntry → Type 0
IsStep deps t target out =
    IsOrdered deps out.0
    × (out.1.transaction ≡ t)
    × (out.1.hold ≡ target)
    × (out.1.written ≡ true
        → (a : Authorization) × (t.authorization ≡ some a)
          × (deps.is_enabled a.method ≡ true)
          × (deps.provider_throws target a t ≡ false)
          × (deps.journal_throws t.id ≡ false))

IsEnd-recorded_hold : (target : Target) → IsEnd target (recorded_hold target)
IsEnd-recorded_hold to_consumed = tt
IsEnd-recorded_hold to_released = tt

is_open-cases : (hold : HoldState) → is_open hold ≡ true → (hold ≡ reserved) ⊎ (hold ≡ uncertain)
is_open-cases reserved h = inl refl
is_open-cases uncertain h = inr refl
is_open-cases consumed h = cc
is_open-cases released h = cc

target_of-cases :
    (status : AttemptStatus) (target : Target)
    → target_of status ≡ some target
    → ((status ≡ settled) × (target ≡ to_consumed)) ⊎ ((status ≡ rejected) × (target ≡ to_released))
target_of-cases settled target e = inl (refl, ground arith)
target_of-cases rejected target e = inr (refl, ground arith)
target_of-cases _ target e = cc

IsDue-hold_target :
    (t : HeldTransaction) (target : Target)
    → hold_target t ≡ some target
    → (a : Authorization) × (t.authorization ≡ some a) × IsDue t.payment_status a.hold target
unfolding hold_target
IsDue-hold_target t target e = elim (Option-cases t.authorization) [
  | inl free ↦ cc (rw free at e)
  | inr (a, held) ↦ elim (Bool-cases (is_open a.hold)) [
    | inl opened ↦ (
      a,
      held,
      (
        target_of-cases t.payment_status target (rw (held, opened) at e),
        is_open-cases a.hold opened,
      ),
    )
    | inr shut ↦ cc (rw (held, shut) at e)
  ]
]

record-IsStep :
    (deps : AlignDeps) (a : Authorization) (t : HeldTransaction) (target : Target) (throws : Bool)
    → t.authorization ≡ some a
    → deps.is_enabled a.method ≡ true
    → deps.provider_throws target a t ≡ false
    → deps.journal_throws t.id ≡ throws
    → IsDue t.payment_status a.hold target
    → IsStep deps t target
        (calls target a t ∷ records t.id (recorded_hold target) ∷ [], record_hold throws t target)
unfolding record_hold
record-IsStep deps a t target true e on calm j due =
    (((e, on, due), refl, IsEnd-recorded_hold target, calm, tt), refl, refl, λ w. cc)
record-IsStep deps a t target false e on calm j due = (
  ((e, on, due), refl, IsEnd-recorded_hold target, calm, tt),
  refl,
  refl,
  λ w. (a, e, on, calm, j),
)

call-IsStep :
    (deps : AlignDeps) (a : Authorization) (t : HeldTransaction) (target : Target) (throws : Bool)
    → t.authorization ≡ some a
    → deps.is_enabled a.method ≡ true
    → deps.provider_throws target a t ≡ throws
    → IsDue t.payment_status a.hold target
    → IsStep deps t target (call_provider deps throws a t target)
unfolding call_provider
call-IsStep deps a t target true e on p due = (((e, on, due), tt), refl, refl, λ w. cc)
call-IsStep deps a t target false e on p due =
    record-IsStep deps a t target (deps.journal_throws t.id) e on p refl due

authorized-IsStep :
    (deps : AlignDeps) (a : Authorization) (t : HeldTransaction) (target : Target) (enabled : Bool)
    → t.authorization ≡ some a
    → deps.is_enabled a.method ≡ enabled
    → IsDue t.payment_status a.hold target
    → IsStep deps t target (align_authorized deps enabled a t target)
unfolding align_authorized
authorized-IsStep deps a t target false e on due = (tt, refl, refl, λ w. cc)
authorized-IsStep deps a t target true e on due =
    call-IsStep deps a t target (deps.provider_throws target a t) e on refl due

with-IsStep :
    (deps : AlignDeps) (o : Option Authorization) (t : HeldTransaction) (target : Target)
    → t.authorization ≡ o
    → ((a : Authorization) → t.authorization ≡ some a → IsDue t.payment_status a.hold target)
    → IsStep deps t target (align_with deps o t target)
with-IsStep deps none t target e due = (tt, refl, refl, λ w. cc)
with-IsStep deps (some a) t target e due =
    authorized-IsStep deps a t target (deps.is_enabled a.method) e refl (due a e)

one-IsStep :
    (deps : AlignDeps) (dry_run : Bool) (t : HeldTransaction) (target : Target)
    → ((a : Authorization) → t.authorization ≡ some a → IsDue t.payment_status a.hold target)
    → IsStep deps t target (align_one deps dry_run t target)
unfolding align_one align_hold
one-IsStep deps true t target due = (tt, refl, refl, λ w. cc)
one-IsStep deps false t target due = with-IsStep deps t.authorization t target refl due

step-IsAligned :
    (deps : AlignDeps) (t : HeldTransaction) (target : Target) (out : List Effect × HoldEntry)
    → (a : Authorization) × (t.authorization ≡ some a) × IsDue t.payment_status a.hold target
    → IsStep deps t target out
    → IsAligned deps out.1
step-IsAligned deps t target out e (o, same, to, w) = (rw (same, to) e, rw (same, to) w)

-- What a run of alignments is: its calls are ordered, its entries aligned, and a dry run makes no call.
pub record IsRun (deps : AlignDeps) (dry_run : Bool) (out : List Effect × List HoldEntry)
    : Type 0 where
  pub ordered : IsOrdered deps out.0
  pub aligned : All (IsAligned deps) out.1
  pub silent : dry_run ≡ true → out.0 ≡ []

one-silent :
    (deps : AlignDeps) (dry_run : Bool) (t : HeldTransaction) (target : Target)
    → dry_run ≡ true
    → (align_one deps dry_run t target).0 ≡ []
unfolding align_one
one-silent deps true t target d = refl
one-silent deps false t target d = cc

-- A run over pending holds makes no call in a dry run. Each call is of a transaction's own
-- authorization at its enabled provider, where the hold is reserved or uncertain, and consumes it if
-- the payment is settled and releases it if the payment is rejected. A hold is recorded in the
-- journal only directly after a call on that transaction that did not throw, as consumed or as
-- released as the call was. Each entry has the target of its payment, and a written entry had an
-- enabled provider and neither call threw.
pub align_pending-IsRun :
    (deps : AlignDeps) (limit : Option ℕ) (dry_run : Bool) (ts : List HeldTransaction)
    (holds : List HoldEntry)
    → All (IsAligned deps) holds
    → IsRun deps dry_run (align_pending deps limit dry_run ts holds)
unfolding align_pending
align_pending-IsRun deps limit dry_run [] holds h = record {
  ordered = tt;
  aligned = h;
  silent = λ d. refl;
}
align_pending-IsRun deps limit dry_run (t ∷ ts) holds h = elim (Option-cases (hold_target t)) [
  | inl free ↦ rw (align_pending, free) (align_pending-IsRun deps limit dry_run ts holds h)
  | inr (target, due) ↦
      let one : List Effect × HoldEntry = align_one deps dry_run t target in
      let (held, is_held, change) = IsDue-hold_target t target due in
      let step =
        one-IsStep deps dry_run t target (λ a e.
          subst (λ h. IsDue t.payment_status h target) (ground (arith, is_held, e)) change) in
      let rest = align_pending-IsRun deps limit dry_run ts (holds ++ one.1 ∷ []) (
        All-append (IsAligned deps) holds (one.1 ∷ []) h
          (step-IsAligned deps t target one (held, is_held, change) step, tt)) in
      let later : List Effect × List HoldEntry =
        align_pending deps limit dry_run ts (holds ++ one.1 ∷ []) in
      rw (align_pending, due)
        (if-cases (IsRun deps dry_run) (is_spent limit holds) ([], holds)
          (one.0 ++ later.0, later.1)
          (λ _. record { ordered = tt; aligned = h; silent = λ d. refl })
          (λ _. record {
            ordered = IsOrdered-append deps one.0 later.0 step.0 rest.ordered;
            aligned = rest.aligned;
            silent = λ d. rw (one-silent deps dry_run t target d, rest.silent d) refl;
          }))
]
