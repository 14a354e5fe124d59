-- ===== src/Store/Transactions/Abort/Own.antt =====
-- The transaction of a thread after `trans_abort` and after `trans_commit`.
use mathlib.Core.Option.{Option, none, some}
use audible.Base.{
  Bool, true, false, ◌==◌, Bool-cases, inl, inr, ℕ, zero, suc, ◌≤◌, ◌<◌, ◌≡◌, ◌≢◌, refl, ◌∙◌, sym,
  List, [], ◌∷◌, length, arith,
}
use audible.Store.Transactions.{
  TransStatus, Transaction, Outcome, Walk, find, update, status_at, depends_at, trans_abort,
  abort_at, abort_end, abort_depends, set_status, trans_unref, release_dependents, commit_step,
  check_depend, recheck_depend, wait_depend, commit_end, sem_at, sem_post, entered, abort_pending,
  begin_commit,
}
use audible.Store.Transactions.Lookup.{status-update}
use audible.Store.Transactions.Abort.{
  Ended, one_if_pending, pending_count, entered_status, entered_count, abort_depends-Ended,
  trans_abort-Ended,
}

-- A transaction that is not pending.
abbrev pub IsDecided : ℕ → List Transaction → Type 0
IsDecided tp list = status_at tp list ≢ some TransStatus.trans_pending

-- `trans_abort` does not return with the transaction pending.
abbrev pub Decides : ℕ → Outcome → Type 0
Decides tp (Outcome.returned list) = IsDecided tp list
Decides tp Outcome.fatal = Unit
Decides tp Outcome.blocked = Unit
Decides tp Outcome.out_of_fuel = Unit

one_if_pending_le : (st : TransStatus) → one_if_pending st ≤ 1
one_if_pending_le TransStatus.trans_pending = omega arith
one_if_pending_le TransStatus.trans_committed = omega arith
one_if_pending_le TransStatus.trans_aborted = omega arith

pending_count-length : (list : List Transaction) → pending_count list ≤ length list
pending_count-length [] = omega arith
pending_count-length (t ∷ list) =
    omega (arith, pending_count-length list, one_if_pending_le t.status)

-- With one call for each transaction and one more, `trans_abort` does not run out of fuel.
pub trans_abort-enough :
    (tp : ℕ) (list : List Transaction) → Ended list (trans_abort (suc (length list)) tp list)
trans_abort-enough tp list =
    trans_abort-Ended (suc (length list)) tp list (omega (arith, pending_count-length list))

status-after_end :
    (tp : ℕ) (l : List Transaction)
    → status_at tp (sem_post tp (release_dependents tp (trans_unref tp l))) ≡ status_at tp l
unfolding trans_unref release_dependents sem_post
status-after_end tp l =
    status-update tp tp _ _ (λ t. refl)
    ∙ status-update tp tp _ _ (λ t. refl)
    ∙ status-update tp tp _ l (λ t. refl)

abort_end-Decides :
    (tp : ℕ) (marked : List Transaction) (o : Outcome)
    → status_at tp marked ≡ some TransStatus.trans_aborted
    → Ended marked o
    → Decides tp (abort_end tp o)
unfolding abort_end
abort_end-Decides tp marked (Outcome.returned l) e h =
    λ e'. cc (h.1 tp TransStatus.trans_aborted (λ x. cc x) e, e', status-after_end tp l)
abort_end-Decides tp marked Outcome.fatal e h = tt
abort_end-Decides tp marked Outcome.blocked e h = tt
abort_end-Decides tp marked Outcome.out_of_fuel e h = tt

abort_pending-Decides :
    (fuel tp : ℕ) (list : List Transaction) (held : Bool)
    → pending_count list < suc fuel
    → status_at tp list ≡ some TransStatus.trans_pending
    → Decides tp (abort_pending (trans_abort fuel) tp list held)
unfolding abort_pending
abort_pending-Decides fuel tp list true enough e = tt
abort_pending-Decides fuel tp list false enough e =
    let marked = entered tp list in
    abort_end-Decides tp marked (abort_depends (trans_abort fuel) (depends_at tp list) marked)
      (entered_status tp list e)
      (abort_depends-Ended (trans_abort fuel) fuel (λ d l. trans_abort-Ended fuel d l)
        (depends_at tp list) marked (omega (arith, enough, entered_count tp list e)))

abort_at-Decides :
    (fuel tp : ℕ) (list : List Transaction) (read : Option TransStatus)
    → pending_count list < suc fuel
    → status_at tp list ≡ read
    → Decides tp (abort_at (trans_abort fuel) tp list read)
unfolding abort_at
abort_at-Decides fuel tp list none enough e = λ e'. cc (e, e')
abort_at-Decides fuel tp list (some TransStatus.trans_committed) enough e = tt
abort_at-Decides fuel tp list (some TransStatus.trans_aborted) enough e = λ e'. cc (e, e')
abort_at-Decides fuel tp list (some TransStatus.trans_pending) enough e =
    abort_pending-Decides fuel tp list (sem_at tp list == 0) enough e

pub trans_abort-Decides :
    (tp : ℕ) (list : List Transaction) → Decides tp (trans_abort (suc (length list)) tp list)
unfolding trans_abort
trans_abort-Decides tp list =
    abort_at-Decides (length list) tp list (status_at tp list)
      (omega (arith, pending_count-length list)) refl

set_status-IsDecided :
    (tp : ℕ) (st : TransStatus) (list : List Transaction)
    → st ≢ TransStatus.trans_pending
    → IsDecided tp (set_status st tp list)
unfolding find update set_status
set_status-IsDecided tp st [] decided = λ e. cc e
set_status-IsDecided zero st (t ∷ list) decided = λ e. decided (cc e)
set_status-IsDecided (suc tp) st (t ∷ list) decided = set_status-IsDecided tp st list decided

-- After `trans_commit` with a status that is not pending.
pub commit_end-IsDecided :
    (tp : ℕ) (st : TransStatus) (list : List Transaction)
    → st ≢ TransStatus.trans_pending
    → IsDecided tp (commit_end tp st list)
unfolding commit_end release_dependents trans_unref sem_post
commit_end-IsDecided tp st list decided = λ e. set_status-IsDecided tp st list decided (
    sym (status-update tp tp _ (set_status st tp list) (λ t. refl))
    ∙ sym (status-update tp tp _ _ (λ t. refl))
    ∙ sym (status-update tp tp _ _ (λ t. refl))
    ∙ e)

-- What `trans_commit` has found so far is not that its transaction is pending.
abbrev pub HasVerdict : Walk → Type 0
HasVerdict (Walk.checking ds st) = st ≢ TransStatus.trans_pending
HasVerdict (Walk.rechecking d ds st) = st ≢ TransStatus.trans_pending
HasVerdict (Walk.waiting d ds st) = st ≢ TransStatus.trans_pending
HasVerdict (Walk.finished st) = st ≢ TransStatus.trans_pending

abbrev pub HasVerdictAfter : Option (List Transaction × Walk) → Type 0
HasVerdictAfter none = Unit
HasVerdictAfter (some (list, walk)) = HasVerdict walk

check_depend-HasVerdict :
    (d : ℕ) (ds : List ℕ) (st : TransStatus) (read : Option TransStatus) (list : List Transaction)
    → st ≢ TransStatus.trans_pending
    → HasVerdictAfter (check_depend d ds st read list)
unfolding check_depend
check_depend-HasVerdict d ds st none list h = tt
check_depend-HasVerdict d ds st (some TransStatus.trans_pending) list h = h
check_depend-HasVerdict d ds st (some TransStatus.trans_committed) list h = h
check_depend-HasVerdict d ds st (some TransStatus.trans_aborted) list h = λ e. cc e

recheck_depend-HasVerdict :
    (d : ℕ) (ds : List ℕ) (st : TransStatus) (read : Option TransStatus) (list : List Transaction)
    → st ≢ TransStatus.trans_pending
    → HasVerdictAfter (recheck_depend d ds st read list)
unfolding recheck_depend
recheck_depend-HasVerdict d ds st none list h = tt
recheck_depend-HasVerdict d ds st (some TransStatus.trans_pending) list h = h
recheck_depend-HasVerdict d ds st (some TransStatus.trans_committed) list h = h
recheck_depend-HasVerdict d ds st (some TransStatus.trans_aborted) list h = h

wait_depend-HasVerdict :
    (ds : List ℕ) (st : TransStatus) (read : Option TransStatus) (list : List Transaction)
    → st ≢ TransStatus.trans_pending
    → HasVerdictAfter (wait_depend ds st read list)
unfolding wait_depend
wait_depend-HasVerdict ds st none list h = tt
wait_depend-HasVerdict ds st (some TransStatus.trans_pending) list h = tt
wait_depend-HasVerdict ds st (some TransStatus.trans_committed) list h = h
wait_depend-HasVerdict ds st (some TransStatus.trans_aborted) list h = λ e. cc e

pub commit_step-HasVerdict :
    (walk : Walk) (list : List Transaction)
    → HasVerdict walk
    → HasVerdictAfter (commit_step walk list)
unfolding commit_step
commit_step-HasVerdict (Walk.checking [] st) list h = h
commit_step-HasVerdict (Walk.checking (d ∷ ds) st) list h =
    check_depend-HasVerdict d ds st (status_at d list) list h
commit_step-HasVerdict (Walk.rechecking d ds st) list h =
    recheck_depend-HasVerdict d ds st (status_at d list) list h
commit_step-HasVerdict (Walk.waiting d ds st) list h =
    wait_depend-HasVerdict ds st (status_at d list) list h
commit_step-HasVerdict (Walk.finished st) list h = tt

pub begin_commit-HasVerdict :
    (tp : ℕ) (list : List Transaction) → HasVerdictAfter (begin_commit tp list)
unfolding begin_commit
begin_commit-HasVerdict tp list = elim (Bool-cases (sem_at tp list == 0)) [
  | inl e ↦ rw e tt
  | inr e ↦ rw e (λ x. cc x)
]
