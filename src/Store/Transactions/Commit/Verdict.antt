-- ===== src/Store/Transactions/Commit/Verdict.antt =====
-- The verdict of `trans_commit` on the dependencies, in Server Store/src/transaction.c.
use mathlib.Core.Option.{Option, none, some}
use mathlib.Core.Path.{subst}
use audible.Base.{ℕ, ◌≡◌, refl, ◌∙◌, sym, ◌⊎◌, inl, inr, List, [], ◌∷◌}
use audible.Store.Transactions.{
  TransStatus, Transaction, Walk, status_at, add_waiter, check_depend, recheck_depend, wait_depend,
  commit_step,
}
use audible.Store.Transactions.Commit.{Run, Test, Tests, Saw, Passed, AllPassed, SomeFailed}

-- What the thread saw of the first dependency, and of those behind it, decides `st`.
abbrev Verdict :
    (Test → ℕ → TransStatus → Type 0)
    → Type 0
    → List ℕ
    → List ℕ
    → TransStatus
    → TransStatus
    → Type 0
Verdict S First ds all so_far st =
    ((so_far ≡ TransStatus.trans_committed)
      × First
      × AllPassed S ds
      × (st ≡ TransStatus.trans_committed))
    ⊎ (((so_far ≡ TransStatus.trans_aborted) ⊎ SomeFailed S all) × (st ≡ TransStatus.trans_aborted))

abbrev Says : (Test → ℕ → TransStatus → Type 0) → Walk → TransStatus → Type 0
Says S (Walk.checking ds so_far) st = Verdict S Unit ds ds so_far st
Says S (Walk.rechecking d ds so_far) st =
    Verdict S
      (S Test.second_test d TransStatus.trans_committed
        ⊎ (S Test.inner_loop d TransStatus.trans_committed
            ⊎ S Test.second_test d TransStatus.trans_aborted))
      ds (d ∷ ds) so_far st
Says S (Walk.waiting d ds so_far) st =
    Verdict S (S Test.inner_loop d TransStatus.trans_committed) ds (d ∷ ds) so_far st
Says S (Walk.finished so_far) st = st ≡ so_far

abbrev IsFinal : TransStatus → Type 0
IsFinal st = (st ≡ TransStatus.trans_committed) ⊎ (st ≡ TransStatus.trans_aborted)

abbrev so_far_of : Walk → TransStatus
so_far_of (Walk.checking ds so_far) = so_far
so_far_of (Walk.rechecking d ds so_far) = so_far
so_far_of (Walk.waiting d ds so_far) = so_far
so_far_of (Walk.finished so_far) = so_far

-- The walk of a step is the one that it leads to.
same_walk :
    (list list' : List Transaction) (w w' : Walk)
    → ◌≡◌ {A = Option (List Transaction × Walk)} (some (list, w)) (some (list', w'))
    → w ≡ w'
same_walk list list' w w' e = cc e

-- What is seen from a step on, `S`, is seen from the step before on, `S'`.
module _ (S S' : Test → ℕ → TransStatus → Type 0) (st : TransStatus)
    (later : (test : Test) (d : ℕ) (x : TransStatus) → S test d x → S' test d x) where
  Passed-later : (d : ℕ) → Passed S d → Passed S' d
  Passed-later d (inl c) = inl (later _ d _ c)
  Passed-later d (inr (inl c)) = inr (inl (later _ d _ c))
  Passed-later d (inr (inr (a, inl e))) = inr (inr (later _ d _ a, inl (later _ d _ e)))
  Passed-later d (inr (inr (a, inr e))) = inr (inr (later _ d _ a, inr (later _ d _ e)))

  AllPassed-later : (ds : List ℕ) → AllPassed S ds → AllPassed S' ds
  AllPassed-later [] h = tt
  AllPassed-later (d ∷ ds) h = (Passed-later d h.0, AllPassed-later ds h.1)

  SomeFailed-later : (ds : List ℕ) → SomeFailed S ds → SomeFailed S' ds
  SomeFailed-later [] h = h
  SomeFailed-later (d ∷ ds) (inl (inl a)) = inl (inl (later _ d _ a))
  SomeFailed-later (d ∷ ds) (inl (inr a)) = inl (inr (later _ d _ a))
  SomeFailed-later (d ∷ ds) (inr h) = inr (SomeFailed-later ds h)

  aborted-later :
      (ds : List ℕ) (so_far : TransStatus)
      → (so_far ≡ TransStatus.trans_aborted) ⊎ SomeFailed S ds
      → (so_far ≡ TransStatus.trans_aborted) ⊎ SomeFailed S' ds
  aborted-later ds so_far (inl e) = inl e
  aborted-later ds so_far (inr h) = inr (SomeFailed-later ds h)

  -- The same place in the loop, with no dependency in hand.
  later_ones :
      (ds : List ℕ) (so_far : TransStatus) (First : Type 0) (d : ℕ)
      → First
      → Verdict S Unit ds ds so_far st
      → Verdict S' First ds (d ∷ ds) so_far st
  later_ones ds so_far First d first (inl v) = inl (v.0, first, AllPassed-later ds v.2, v.3)
  later_ones ds so_far First d first (inr v) =
      inr (elim (aborted-later ds so_far v.0) [ inl e ↦ inl e | inr h ↦ inr (inr h) ], v.1)

  -- The dependency in hand goes on to its next test.
  same_one :
      (ds : List ℕ) (so_far : TransStatus) (First First' : Type 0) (d : ℕ)
      → (First → First')
      → Verdict S First ds (d ∷ ds) so_far st
      → Verdict S' First' ds (d ∷ ds) so_far st
  same_one ds so_far First First' d first (inl v) =
      inl (v.0, first v.1, AllPassed-later ds v.2, v.3)
  same_one ds so_far First First' d first (inr v) = inr (aborted-later (d ∷ ds) so_far v.0, v.1)

  -- Out of the second test, back to the first.
  first_one :
      (ds : List ℕ) (so_far : TransStatus) (First : Type 0) (d : ℕ)
      → (First → Passed S' d)
      → Verdict S First ds (d ∷ ds) so_far st
      → Verdict S' Unit (d ∷ ds) (d ∷ ds) so_far st
  first_one ds so_far First d first (inl v) =
      inl (v.0, tt, (first v.1, AllPassed-later ds v.2), v.3)
  first_one ds so_far First d first (inr v) = inr (aborted-later (d ∷ ds) so_far v.0, v.1)

  -- What the first test found, and what the tests behind it did.
  second_found :
      (d : ℕ)
      → S' Test.first_test d TransStatus.trans_pending
        ⊎ S' Test.first_test d TransStatus.trans_committed
      → S Test.second_test d TransStatus.trans_committed
        ⊎ (S Test.inner_loop d TransStatus.trans_committed
            ⊎ S Test.second_test d TransStatus.trans_aborted)
      → Passed S' d
  second_found d before (inl c) = inl (later _ d _ c)
  second_found d before (inr (inl c)) = inr (inl (later _ d _ c))
  second_found d before (inr (inr a)) = inr (inr (later _ d _ a, before))

  module _ (list list' : List Transaction) (w' : Walk)
      (next : IsFinal (so_far_of w') → Says S w' st) where
    -- What is said of the place `w` that the step leads to.
    said :
        (l : List Transaction) (w : Walk)
        → ◌≡◌ {A = Option (List Transaction × Walk)} (some (l, w)) (some (list', w'))
        → IsFinal (so_far_of w)
        → Says S w st
    said l w e =
        subst (λ v. IsFinal (so_far_of v) → Says S v st) (sym (same_walk l list' w w' e)) next

    check-Says :
        (d : ℕ) (ds : List ℕ) (so_far : TransStatus) (read : Option TransStatus)
        → ((x : TransStatus) → status_at d list ≡ some x → S' Test.first_test d x)
        → status_at d list ≡ read
        → check_depend d ds so_far read list ≡ some (list', w')
        → IsFinal so_far
        → Verdict S' Unit (d ∷ ds) (d ∷ ds) so_far st
    unfolding check_depend
    check-Says d ds so_far none now r e f = absurd (cc e)
    check-Says d ds so_far (some TransStatus.trans_pending) now r e f =
        first_one ds so_far _ d (second_found d (inl (now _ r)))
          (said list (Walk.rechecking d ds so_far) e f)
    check-Says d ds so_far (some TransStatus.trans_committed) now r e f =
        first_one ds so_far _ d (second_found d (inr (now _ r)))
          (said list (Walk.rechecking d ds so_far) e f)
    check-Says d ds so_far (some TransStatus.trans_aborted) now r e f = inr (
      inr (inl (inl (now _ r))),
      said list (Walk.finished TransStatus.trans_aborted) e (inr refl),
    )

    recheck-Says :
        (d : ℕ) (ds : List ℕ) (so_far : TransStatus) (read : Option TransStatus)
        → ((x : TransStatus) → status_at d list ≡ some x → S' Test.second_test d x)
        → status_at d list ≡ read
        → recheck_depend d ds so_far read list ≡ some (list', w')
        → IsFinal so_far
        → Says S' (Walk.rechecking d ds so_far) st
    unfolding recheck_depend
    recheck-Says d ds so_far none now r e f = absurd (cc e)
    recheck-Says d ds so_far (some TransStatus.trans_pending) now r e f =
        same_one ds so_far _ _ d (λ c. inr (inl (later _ d _ c)))
          (said (add_waiter d list) (Walk.waiting d ds so_far) e f)
    recheck-Says d ds so_far (some TransStatus.trans_committed) now r e f =
        later_ones ds so_far _ d (inl (now _ r)) (said list (Walk.checking ds so_far) e f)
    recheck-Says d ds so_far (some TransStatus.trans_aborted) now r e f =
        later_ones ds so_far _ d (inr (inr (now _ r))) (said list (Walk.checking ds so_far) e f)

    wait-Says :
        (d : ℕ) (ds : List ℕ) (so_far : TransStatus) (read : Option TransStatus)
        → ((x : TransStatus) → status_at d list ≡ some x → S' Test.inner_loop d x)
        → status_at d list ≡ read
        → wait_depend ds so_far read list ≡ some (list', w')
        → IsFinal so_far
        → Says S' (Walk.waiting d ds so_far) st
    unfolding wait_depend
    wait-Says d ds so_far none now r e f = absurd (cc e)
    wait-Says d ds so_far (some TransStatus.trans_pending) now r e f = absurd (cc e)
    wait-Says d ds so_far (some TransStatus.trans_committed) now r e f =
        later_ones ds so_far _ d (now _ r) (said list (Walk.checking ds so_far) e f)
    wait-Says d ds so_far (some TransStatus.trans_aborted) now r e f =
        elim (said list (Walk.checking ds TransStatus.trans_aborted) e (inr refl)) [
          | inl v ↦ absurd (cc (v.0))
          | inr v ↦ inr (inr (inl (inr (now _ r))), v.1)
        ]

    step-Says :
        (w : Walk)
        → ((test : Test) (d : ℕ) (x : TransStatus)
            → Tests w test d
            → status_at d list ≡ some x
            → S' test d x)
        → commit_step w list ≡ some (list', w')
        → IsFinal (so_far_of w)
        → Says S' w st
    unfolding commit_step
    step-Says (Walk.checking [] so_far) now e (inl c) =
        inl (c, tt, tt, said list (Walk.finished so_far) e (inl c) ∙ c)
    step-Says (Walk.checking [] so_far) now e (inr a) =
        inr (inl a, said list (Walk.finished so_far) e (inr a) ∙ a)
    step-Says (Walk.checking (d ∷ ds) so_far) now e f =
        check-Says d ds so_far (status_at d list) (λ x. now Test.first_test d x refl) refl e f
    step-Says (Walk.rechecking d ds so_far) now e f =
        recheck-Says d ds so_far (status_at d list) (λ x. now Test.second_test d x refl) refl e f
    step-Says (Walk.waiting d ds so_far) now e f =
        wait-Says d ds so_far (status_at d list) (λ x. now Test.inner_loop d x refl) refl e f
    step-Says (Walk.finished so_far) now e f = absurd (cc e)

run-Says :
    {final : List Transaction} {st : TransStatus} {list : List Transaction} {w : Walk}
    (run : Run final st list w)
    → IsFinal (so_far_of w)
    → Says (Saw run) w st
run-Says (Run.done) f = refl
run-Says {st = st} (Run.own list w list' w' e run) f =
    step-Says (Saw run) (Saw (Run.own list w list' w' e run)) st (λ test d x h. inr h) list list' w'
      (run-Says run) w (λ test d x here h. inl (here, h)) e f
run-Says (Run.other list list' w run) f = run-Says run f

-- A run of the loop of `trans_commit`, whatever other threads do between its steps, ends with
-- `TRANS_COMMITTED` or `TRANS_ABORTED`. It commits only if for every dependency the second test or the
-- inner loop found it committed, or the second test found it aborted after the first had found it pending or
-- committed, which the code takes for committed. It aborts only if the first test or the inner loop found a
-- dependency aborted.
pub commit_verdict :
    (final list : List Transaction) (st : TransStatus) (ds : List ℕ)
    (run : Run final st list (Walk.checking ds TransStatus.trans_committed))
    → (AllPassed (Saw run) ds × (st ≡ TransStatus.trans_committed))
      ⊎ (SomeFailed (Saw run) ds × (st ≡ TransStatus.trans_aborted))
commit_verdict final list st ds run = elim (run-Says run (inl refl)) [
  | inl v ↦ inl (v.2, v.3)
  | inr v ↦ inr (elim v.0 [ inl a ↦ absurd (cc a) | inr a ↦ a ], v.1)
]
