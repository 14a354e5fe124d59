-- ===== src/Store/Transactions.antt =====
-- Server Store/src/transaction.c.
--
-- The list of all transactions is a list, oldest first: `add_trans_list` appends, and nothing is taken
-- off it, since the code that would is commented out. A pointer to a transaction is its position.
-- A mutex makes what it protects one step. The semaphore of a transaction is its value: `P` on 0 waits.
-- `trans_add_dependency`, which takes it and gives it back, is one step, and a thread that waits for a
-- transaction goes on when its status is not pending any more.
pub mod Lookup
pub mod Commit
pub mod Create
pub mod Abort
use mathlib.Core.Option.{Option, none, some}
use audible.Base.{
  ℕ, zero, suc, ◌+◌, ◌-◌, ◌≡◌, Bool, true, false, List, [], ◌∷◌, ◌++◌, length, add32, sub32,
  is_negative, if◌then◌else◌, ◌==◌,
}

pub data TransStatus : Type 0 where
  trans_pending : TransStatus
  trans_committed : TransStatus
  trans_aborted : TransStatus

pub record Transaction : Type 0 where
  pub id : ℕ
  pub refcnt : ℕ
  pub status : TransStatus
  pub depends : List ℕ
  pub waitcnt : ℕ
  pub sem : ℕ

-- The list of transactions, and the static `id` of `trans_create`.
pub record TransManager : Type 0 where
  pub trans_list : List Transaction
  pub next_id : ℕ

pub trans_init : TransManager
trans_init = record { trans_list = []; next_id = 0 }

-- The transaction that `tp` points to; past the end there is none.
unfoldable pub find : ℕ → List Transaction → Option Transaction
find tp [] = none
find zero (t ∷ list) = some t
find (suc tp) (t ∷ list) = find tp list

unfoldable pub update : ℕ → (Transaction → Transaction) → List Transaction → List Transaction
update tp f [] = []
update zero f (t ∷ list) = f t ∷ list
update (suc tp) f (t ∷ list) = t ∷ update tp f list

-- The status that `trans_get_status` reads at `tp`.
abbrev pub status_at : ℕ → List Transaction → Option TransStatus
status_at tp list = elim (find tp list) [ none ↦ none | some t ↦ some t.status ]

abbrev pub depends_at : ℕ → List Transaction → List ℕ
depends_at tp list = elim (find tp list) [ none ↦ [] | some t ↦ t.depends ]

-- The value of the semaphore.
abbrev pub sem_at : ℕ → List Transaction → ℕ
sem_at tp list = elim (find tp list) [ none ↦ 0 | some t ↦ t.sem ]

-- `P(&tp->sem)` where it does not wait, and `V(&tp->sem)`.
unfoldable pub sem_wait : ℕ → List Transaction → List Transaction
sem_wait tp list = update tp (λ t. record t { sem = t.sem - 1 }) list

unfoldable pub sem_post : ℕ → List Transaction → List Transaction
sem_post tp list = update tp (λ t. record t { sem = t.sem + 1 }) list

abbrev pub referenced : Transaction → Transaction
referenced t = record t { refcnt = add32 t.refcnt 1 }

abbrev pub unreferenced : Transaction → Transaction
unreferenced t = record t { refcnt = sub32 t.refcnt 1 }

unfoldable pub trans_ref : ℕ → List Transaction → List Transaction
trans_ref tp list = update tp referenced list

unfoldable pub trans_unref : ℕ → List Transaction → List Transaction
trans_unref tp list = update tp unreferenced list

-- `add_trans_list(tp)`
unfoldable pub add_trans_list : Transaction → List Transaction → List Transaction
add_trans_list t list = list ++ t ∷ []

-- The new transaction is the last one of the list.
unfoldable pub trans_create : TransManager → TransManager
unfolding trans_ref add_trans_list
trans_create m =
    let t : Transaction = record {
      id = m.next_id;
      refcnt = 0;
      status = TransStatus.trans_pending;
      depends = [];
      waitcnt = 0;
      sem = 1;
    } in
    record {
      trans_list = trans_ref (length m.trans_list) (add_trans_list t m.trans_list);
      next_id = add32 m.next_id 1;
    }

pub trans_add_dependency : ℕ → ℕ → List Transaction → List Transaction
unfolding trans_ref
trans_add_dependency tp dtp list =
    trans_ref dtp (update tp (λ t. record t { depends = dtp ∷ t.depends }) list)

-- The transaction behind the loop of `releaseDependents`: a `V` for each waiting thread.
abbrev pub released : Transaction → Transaction
released t = record t {
  waitcnt = if is_negative t.waitcnt then t.waitcnt else 0;
  sem = t.sem + (if is_negative t.waitcnt then 0 else t.waitcnt);
}

-- `releaseDependents(tp)`
unfoldable pub release_dependents : ℕ → List Transaction → List Transaction
release_dependents tp list = update tp released list

-- What a call of `trans_abort` comes to: it returns, exits on a committed transaction, or waits for a
-- semaphore.
pub data Outcome : Type 0 where
  returned : List Transaction → Outcome
  fatal : Outcome
  blocked : Outcome
  out_of_fuel : Outcome

-- The calls of `trans_abort` on the dependencies, in order.
unfoldable pub abort_depends :
    (ℕ → List Transaction → Outcome) → List ℕ → List Transaction → Outcome
abort_depends abort [] list = Outcome.returned list
abort_depends abort (d ∷ ds) list = elim (abort d list) [
  | Outcome.returned list' ↦ abort_depends abort ds list'
  | Outcome.fatal ↦ Outcome.fatal
  | Outcome.blocked ↦ Outcome.blocked
  | Outcome.out_of_fuel ↦ Outcome.out_of_fuel
]

unfoldable pub set_status : TransStatus → ℕ → List Transaction → List Transaction
set_status status tp list = update tp (λ t. record t { status = status }) list

-- What `trans_abort` does behind its loop.
unfoldable pub abort_end : ℕ → Outcome → Outcome
unfolding trans_unref release_dependents sem_post
abort_end tp (Outcome.returned list) =
    Outcome.returned (sem_post tp (release_dependents tp (trans_unref tp list)))
abort_end tp Outcome.fatal = Outcome.fatal
abort_end tp Outcome.blocked = Outcome.blocked
abort_end tp Outcome.out_of_fuel = Outcome.out_of_fuel

-- A pending transaction behind `P(&tp->sem)` and the assignment of its status.
unfoldable pub entered : ℕ → List Transaction → List Transaction
unfolding set_status sem_wait
entered tp list = set_status TransStatus.trans_aborted tp (sem_wait tp list)

-- `trans_abort` on a pending transaction; `held` tells that its semaphore is 0.
unfoldable pub abort_pending :
    (ℕ → List Transaction → Outcome) → ℕ → List Transaction → Bool → Outcome
unfolding abort_depends abort_end entered
abort_pending abort tp list true = Outcome.blocked
abort_pending abort tp list false =
    abort_end tp (abort_depends abort (depends_at tp list) (entered tp list))

-- `trans_abort(tp)`, with at most `fuel` calls inside each other; `abort_at` goes by the status read.
unfoldable pub abort_at :
    (ℕ → List Transaction → Outcome) → ℕ → List Transaction → Option TransStatus → Outcome
unfolding abort_pending
abort_at abort tp list none = Outcome.returned list
abort_at abort tp list (some TransStatus.trans_committed) = Outcome.fatal
abort_at abort tp list (some TransStatus.trans_aborted) = Outcome.returned list
abort_at abort tp list (some TransStatus.trans_pending) =
    abort_pending abort tp list (sem_at tp list == 0)

unfoldable pub trans_abort : ℕ → ℕ → List Transaction → Outcome
unfolding abort_at
trans_abort zero tp list = Outcome.out_of_fuel
trans_abort (suc fuel) tp list = abort_at (trans_abort fuel) tp list (status_at tp list)

-- The positions of `n` transactions from `i` on.
pub positions : ℕ → ℕ → List ℕ
positions i zero = []
positions i (suc n) = i ∷ positions (i + 1) n

-- `trans_fini()` aborts every transaction of the list in turn.
unfoldable pub trans_fini : ℕ → List Transaction → Outcome
unfolding abort_depends positions
trans_fini fuel list = abort_depends (trans_abort fuel) (positions 0 (length list)) list

-- Where a thread in the loop of `trans_commit` is: at the first test with the dependencies left, at the
-- second test of the first of them, in the inner loop on it, or out of the loop; with `status` so far.
pub data Walk : Type 0 where
  checking : List ℕ → TransStatus → Walk
  rechecking : ℕ → List ℕ → TransStatus → Walk
  waiting : ℕ → List ℕ → TransStatus → Walk
  finished : TransStatus → Walk

pub add_waiter : ℕ → List Transaction → List Transaction
add_waiter tp list = update tp (λ t. record t { waitcnt = add32 t.waitcnt 1 }) list

-- The start of `trans_commit(tp)`; `none` where `P(&tp->sem)` waits.
unfoldable pub begin_commit : ℕ → List Transaction → Option (List Transaction × Walk)
unfolding sem_wait
begin_commit tp list =
    if sem_at tp list == 0
    then none
    else some (sem_wait tp list, Walk.checking (depends_at tp list) TransStatus.trans_committed)

-- The first test of `trans_commit` at a dependency `d` with the status read, before those in `ds`.
unfoldable pub check_depend :
    ℕ
    → List ℕ
    → TransStatus
    → Option TransStatus
    → List Transaction
    → Option (List Transaction × Walk)
check_depend d ds status none list = none
check_depend d ds status (some TransStatus.trans_aborted) list =
    some (list, Walk.finished TransStatus.trans_aborted)
check_depend d ds status (some TransStatus.trans_pending) list =
    some (list, Walk.rechecking d ds status)
check_depend d ds status (some TransStatus.trans_committed) list =
    some (list, Walk.rechecking d ds status)

-- The second test, which reads the status again.
unfoldable pub recheck_depend :
    ℕ
    → List ℕ
    → TransStatus
    → Option TransStatus
    → List Transaction
    → Option (List Transaction × Walk)
unfolding add_waiter
recheck_depend d ds status none list = none
recheck_depend d ds status (some TransStatus.trans_aborted) list =
    some (list, Walk.checking ds status)
recheck_depend d ds status (some TransStatus.trans_pending) list =
    some (add_waiter d list, Walk.waiting d ds status)
recheck_depend d ds status (some TransStatus.trans_committed) list =
    some (list, Walk.checking ds status)

-- The inner loop: it goes on as long as the dependency is pending.
pub wait_depend :
    List ℕ → TransStatus → Option TransStatus → List Transaction → Option (List Transaction × Walk)
wait_depend ds status none list = none
wait_depend ds status (some TransStatus.trans_pending) list = none
wait_depend ds status (some TransStatus.trans_aborted) list =
    some (list, Walk.checking ds TransStatus.trans_aborted)
wait_depend ds status (some TransStatus.trans_committed) list = some (list, Walk.checking ds status)

-- One step of the loop of `trans_commit`; `none` where the thread is stopped or has to wait.
unfoldable pub commit_step : Walk → List Transaction → Option (List Transaction × Walk)
unfolding check_depend recheck_depend wait_depend
commit_step (Walk.checking [] status) list = some (list, Walk.finished status)
commit_step (Walk.checking (d ∷ ds) status) list = check_depend d ds status (status_at d list) list
commit_step (Walk.rechecking d ds status) list = recheck_depend d ds status (status_at d list) list
commit_step (Walk.waiting d ds status) list = wait_depend ds status (status_at d list) list
commit_step (Walk.finished status) list = none

-- What `trans_commit(tp)` does behind its loop.
pub commit_end : ℕ → TransStatus → List Transaction → List Transaction
unfolding set_status release_dependents trans_unref sem_post
commit_end tp status list =
    sem_post tp (trans_unref tp (release_dependents tp (set_status status tp list)))
