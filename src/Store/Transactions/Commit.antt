-- ===== src/Store/Transactions/Commit.antt =====
-- A thread in `trans_commit` of Server Store/src/transaction.c, among other threads and on its own.
pub mod Verdict
use mathlib.Core.Option.{Option, none, some}
use mathlib.Core.Path.{subst}
use audible.Base.{ℕ, zero, suc, ◌≡◌, ◌≢◌, refl, ◌∙◌, sym, ◌⊎◌, inl, inr, List, [], ◌∷◌, arith}
use audible.Store.Transactions.{
  TransStatus, Transaction, Walk, status_at, add_waiter, check_depend, recheck_depend, wait_depend,
  commit_step,
}

-- What is committed or aborted in the first list is so in the second.
abbrev pub Later : List Transaction → List Transaction → Type 0
Later list list' =
    (p : ℕ) (st : TransStatus)
    → st ≢ TransStatus.trans_pending
    → status_at p list ≡ some st
    → status_at p list' ≡ some st

-- From a list and a place in the loop, a run of this thread among others, which may do anything to the
-- list between its steps, ends the loop with the list `final` and the status `st`.
pub data Run (final : List Transaction) (st : TransStatus) : List Transaction → Walk → Type 0 where
  done : Run final st final (Walk.finished st)
  own :
      (list : List Transaction) (w : Walk) (list' : List Transaction) (w' : Walk)
      → commit_step w list ≡ some (list', w')
      → Run final st list' w'
      → Run final st list w
  other : (list list' : List Transaction) (w : Walk) → Run final st list' w → Run final st list w

-- The calls of `trans_get_status` on a dependency: the first and the second test, and the inner loop.
pub data Test : Type 0 where
  first_test : Test
  second_test : Test
  inner_loop : Test

-- At the place in the loop, the test is the next call, on `d`.
abbrev pub Tests : Walk → Test → ℕ → Type 0
Tests (Walk.checking (d' ∷ ds) st) Test.first_test d = d' ≡ d
Tests (Walk.rechecking d' ds st) Test.second_test d = d' ≡ d
Tests (Walk.waiting d' ds st) Test.inner_loop d = d' ≡ d
Tests w test d = ⊥

-- The test found the dependency `d` with the status `x` in the run.
abbrev pub Saw :
    {final : List Transaction} {st : TransStatus} {list : List Transaction} {w : Walk}
    → Run final st list w
    → Test
    → ℕ
    → TransStatus
    → Type 0
Saw (Run.done) test d x = ⊥
Saw (Run.own list w _ _ _ run) test d x =
    (Tests w test d × (status_at d list ≡ some x)) ⊎ Saw run test d x
Saw (Run.other _ _ _ run) test d x = Saw run test d x

-- The second test or the inner loop found the dependency committed, or the second test found it aborted
-- after the first had not.
abbrev pub Passed : (Test → ℕ → TransStatus → Type 0) → ℕ → Type 0
Passed S d =
    S Test.second_test d TransStatus.trans_committed
    ⊎ (S Test.inner_loop d TransStatus.trans_committed
        ⊎ (S Test.second_test d TransStatus.trans_aborted
            × (S Test.first_test d TransStatus.trans_pending
                ⊎ S Test.first_test d TransStatus.trans_committed)))

abbrev pub AllPassed : (Test → ℕ → TransStatus → Type 0) → List ℕ → Type 0
AllPassed S [] = Unit
AllPassed S (d ∷ ds) = Passed S d × AllPassed S ds

-- The first test or the inner loop found a dependency aborted.
abbrev pub SomeFailed : (Test → ℕ → TransStatus → Type 0) → List ℕ → Type 0
SomeFailed S [] = ⊥
SomeFailed S (d ∷ ds) =
    (S Test.first_test d TransStatus.trans_aborted ⊎ S Test.inner_loop d TransStatus.trans_aborted)
    ⊎ SomeFailed S ds

abbrev pub AllCommitted : List ℕ → List Transaction → Type 0
AllCommitted [] list = Unit
AllCommitted (d ∷ ds) list =
    (status_at d list ≡ some TransStatus.trans_committed) × AllCommitted ds list

abbrev pub SomeAborted : List ℕ → List Transaction → Type 0
SomeAborted [] list = ⊥
SomeAborted (d ∷ ds) list =
    (status_at d list ≡ some TransStatus.trans_aborted) ⊎ SomeAborted ds list

-- Each dependency is there, and is committed or aborted.
abbrev pub AllFinal : List ℕ → List Transaction → Type 0
AllFinal [] list = Unit
AllFinal (d ∷ ds) list =
    ((status_at d list ≡ some TransStatus.trans_committed)
      ⊎ (status_at d list ≡ some TransStatus.trans_aborted))
    × AllFinal ds list

-- At most `n` steps of the loop, with no other thread between them.
pub commit_steps : ℕ → Walk → List Transaction → List Transaction × Walk
commit_steps zero w list = (list, w)
commit_steps (suc n) w list = elim (commit_step w list) [
  | none ↦ (list, w)
  | some (list', w') ↦ commit_steps n w' list'
]

-- The steps of the loop: two tests for each dependency, and the end.
abbrev pub tests_of : List ℕ → ℕ
tests_of [] = 1
tests_of (d ∷ ds) = suc (suc (tests_of ds))

commit_steps_committed :
    (n d : ℕ) (ds : List ℕ) (so_far : TransStatus) (list : List Transaction)
    → status_at d list ≡ some TransStatus.trans_committed
    → commit_steps (suc (suc n)) (Walk.checking (d ∷ ds) so_far) list
      ≡ commit_steps n (Walk.checking ds so_far) list
unfolding commit_steps commit_step check_depend recheck_depend
commit_steps_committed n d ds so_far list c = ground (arith, c)

commit_steps_aborted :
    (n d : ℕ) (ds : List ℕ) (so_far : TransStatus) (list : List Transaction)
    → status_at d list ≡ some TransStatus.trans_aborted
    → commit_steps (suc (suc n)) (Walk.checking (d ∷ ds) so_far) list
      ≡ (list, Walk.finished TransStatus.trans_aborted)
unfolding commit_steps commit_step check_depend
commit_steps_aborted n d ds so_far list c = ground (arith, c)

-- Where no dependency is pending any more and no other thread changes the list, the loop ends within
-- two steps for each dependency and one more, and leaves the list as it is. It ends with the status
-- so far if all the dependencies are committed, and with `TRANS_ABORTED` if one is aborted.
pub commit_ends :
    (ds : List ℕ) (so_far : TransStatus) (list : List Transaction)
    → AllFinal ds list
    → let reached = commit_steps (tests_of ds) (Walk.checking ds so_far) list in
      (AllCommitted ds list × (reached ≡ (list, Walk.finished so_far)))
      ⊎ (SomeAborted ds list × (reached ≡ (list, Walk.finished TransStatus.trans_aborted)))
commit_ends [] so_far list h = inl (tt, unfold commit_steps commit_step in refl)
commit_ends (d ∷ ds) so_far list h = elim h.0 [
  | inl c ↦ elim (commit_ends ds so_far list h.1) [
    | inl v ↦ inl ((c, v.0), commit_steps_committed (tests_of ds) d ds so_far list c ∙ v.1)
    | inr v ↦ inr (inr v.0, commit_steps_committed (tests_of ds) d ds so_far list c ∙ v.1)
  ]
  | inr a ↦ inr (inl a, commit_steps_aborted (tests_of ds) d ds so_far list a)
]
