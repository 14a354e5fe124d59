-- ===== src/Store/Transactions/Abort.antt =====
-- What `trans_abort` does: it ends, it leaves what is decided alone, and it aborts what the transaction
-- depends on.
pub mod Closed
pub mod Own
pub mod Clean
use mathlib.Core.Option.{Option, none, some}
use mathlib.Core.Path.{subst}
use audible.Base.{
  Bool, true, false, ◌==◌, ℕ, zero, suc, ◌+◌, ◌≤◌, ◌<◌, ◌≡◌, ◌≢◌, refl, ◌∙◌, ap, sym, ◌⊎◌, inl, inr,
  List, [], ◌∷◌, arith,
}
use audible.Store.Transactions.{
  TransStatus, Transaction, Outcome, find, update, status_at, depends_at, trans_unref,
  release_dependents, set_status, sem_wait, sem_post, sem_at, entered, abort_pending, abort_depends,
  abort_end, abort_at, trans_abort,
}
use audible.Store.Transactions.Lookup.{status-update, status-update_ne, status-update_eq}
use audible.Store.Transactions.Commit.{Later}

abbrev one_if_pending : TransStatus → ℕ
one_if_pending TransStatus.trans_pending = 1
one_if_pending TransStatus.trans_committed = 0
one_if_pending TransStatus.trans_aborted = 0

-- How many transactions are pending.
abbrev pub pending_count : List Transaction → ℕ
pending_count [] = 0
pending_count (t ∷ list) = one_if_pending t.status + pending_count list

pending_count-update :
    (tp : ℕ) (f : Transaction → Transaction) (list : List Transaction)
    → ((t : Transaction) → (f t).status ≡ t.status)
    → pending_count (update tp f list) ≡ pending_count list
unfolding update
pending_count-update tp f [] hf = refl
pending_count-update zero f (t ∷ list) hf = ap (λ s. one_if_pending s + pending_count list) (hf t)
pending_count-update (suc tp) f (t ∷ list) hf =
    ap (λ n. one_if_pending t.status + n) (pending_count-update tp f list hf)

pub pending_count-abort :
    (tp : ℕ) (list : List Transaction)
    → status_at tp list ≡ some TransStatus.trans_pending
    → suc (pending_count (set_status TransStatus.trans_aborted tp list)) ≡ pending_count list
unfolding update find set_status
pending_count-abort tp [] e = absurd (cc e)
pending_count-abort zero (t ∷ list) e =
    let pending : t.status ≡ TransStatus.trans_pending = cc e in
    omega (arith, ap one_if_pending pending)
pending_count-abort (suc tp) (t ∷ list) e = omega (arith, pending_count-abort tp list e)

-- What is pending in the second list was so in the first, with a semaphore of at most that value.
abbrev pub Freer : List Transaction → List Transaction → Type 0
Freer list list' =
    (p : ℕ)
    → status_at p list' ≡ some TransStatus.trans_pending
    → (status_at p list ≡ some TransStatus.trans_pending) × (sem_at p list ≤ sem_at p list')

-- A pending transaction whose semaphore another thread holds.
abbrev pub HasHeld : List Transaction → Type 0
HasHeld list = (p : ℕ) × (status_at p list ≡ some TransStatus.trans_pending) × (sem_at p list ≡ 0)

abbrev pub After : List Transaction → List Transaction → Type 0
After list list' =
    (pending_count list' ≤ pending_count list)
    × Later list list'
    × ((p : ℕ) → status_at p list ≡ none → status_at p list' ≡ none)
    × Freer list list'

-- The call did not run out of fuel; what it returned comes after `list`, and it waits only if a pending
-- transaction of `list` is held.
abbrev pub Ended : List Transaction → Outcome → Type 0
Ended list (Outcome.returned list') = After list list'
Ended list Outcome.fatal = Unit
Ended list Outcome.blocked = HasHeld list
Ended list Outcome.out_of_fuel = ⊥

After-refl : (list : List Transaction) → After list list
After-refl list = (omega arith, λ p st hs e. e, λ p e. e, λ p e. (e, omega arith))

pub After-trans : (a b c : List Transaction) → After a b → After b c → After a c
After-trans a b c h k = (
  omega (arith, h.0, k.0),
  λ p st hs e. k.1 p st hs (h.1 p st hs e),
  λ p e. k.2 p (h.2 p e),
  λ p e. let now = k.3 p e in let first = h.3 p now.0 in (first.0, omega (arith, first.1, now.1)),
)

HasHeld-After : (a b : List Transaction) → After a b → HasHeld b → HasHeld a
HasHeld-After a b h held =
    let first = h.3 held.0 held.1 in (held.0, first.0, omega (arith, first.1, held.2))

pub Ended-After : (a b : List Transaction) (o : Outcome) → After a b → Ended b o → Ended a o
Ended-After a b (Outcome.returned c) h k = After-trans a b c h k
Ended-After a b Outcome.fatal h k = tt
Ended-After a b Outcome.blocked h k = HasHeld-After a b h k
Ended-After a b Outcome.out_of_fuel h k = k

sem-update :
    (tp p : ℕ) (f : Transaction → Transaction) (list : List Transaction)
    → ((t : Transaction) → t.sem ≤ (f t).sem)
    → sem_at p list ≤ sem_at p (update tp f list)
unfolding find update
sem-update tp p f [] hs = omega arith
sem-update zero zero f (t ∷ list) hs = hs t
sem-update zero (suc p) f (t ∷ list) hs = omega arith
sem-update (suc tp) zero f (t ∷ list) hs = omega arith
sem-update (suc tp) (suc p) f (t ∷ list) hs = sem-update tp p f list hs

sem-update_ne :
    (tp p : ℕ) (f : Transaction → Transaction) (list : List Transaction)
    → p ≢ tp
    → sem_at p (update tp f list) ≡ sem_at p list
unfolding find update
sem-update_ne tp p f [] hn = refl
sem-update_ne zero zero f (t ∷ list) hn = absurd (hn refl)
sem-update_ne zero (suc p) f (t ∷ list) hn = refl
sem-update_ne (suc tp) zero f (t ∷ list) hn = refl
sem-update_ne (suc tp) (suc p) f (t ∷ list) hn = sem-update_ne tp p f list (λ e. hn (ap suc e))

pub After-update :
    (tp : ℕ) (f : Transaction → Transaction) (list : List Transaction)
    → ((t : Transaction) → (f t).status ≡ t.status)
    → ((t : Transaction) → t.sem ≤ (f t).sem)
    → After list (update tp f list)
After-update tp f list hf hs = (
  omega (arith, pending_count-update tp f list hf),
  λ p st hs e. status-update tp p f list hf ∙ e,
  λ p e. status-update tp p f list hf ∙ e,
  λ p e. (sym (status-update tp p f list hf) ∙ e, sem-update tp p f list hs),
)

-- What `trans_abort` does to its own transaction behind the loop.
pub After-ended :
    (tp : ℕ) (l : List Transaction)
    → After l (sem_post tp (release_dependents tp (trans_unref tp l)))
unfolding trans_unref release_dependents sem_post
After-ended tp l =
    let unref = trans_unref tp l in
    let released = release_dependents tp unref in
    After-trans l unref _ (After-update tp _ l (λ t. refl) (λ t. omega arith)) (
      After-trans unref released _ (After-update tp _ unref (λ t. refl) (λ t. omega arith))
        (After-update tp _ released (λ t. refl) (λ t. omega arith)))

abort_end-Ended :
    (tp : ℕ) (list : List Transaction) (o : Outcome) → Ended list o → Ended list (abort_end tp o)
unfolding abort_end
abort_end-Ended tp list (Outcome.returned l) h = After-trans list l _ h (After-ended tp l)
abort_end-Ended tp list Outcome.fatal h = tt
abort_end-Ended tp list Outcome.blocked h = h
abort_end-Ended tp list Outcome.out_of_fuel h = h

Ended-call :
    (list : List Transaction) (o : Outcome) (rest : List Transaction → Outcome)
    → Ended list o
    → ((l : List Transaction) → After list l → Ended l (rest l))
    → Ended list (elim o [
      | Outcome.returned list' ↦ rest list'
      | Outcome.fatal ↦ Outcome.fatal
      | Outcome.blocked ↦ Outcome.blocked
      | Outcome.out_of_fuel ↦ Outcome.out_of_fuel
    ])
Ended-call list (Outcome.returned l) rest h k = Ended-After list l (rest l) h (k l h)
Ended-call list Outcome.fatal rest h k = tt
Ended-call list Outcome.blocked rest h k = h
Ended-call list Outcome.out_of_fuel rest h k = h

-- The loop over the dependencies, where each call behaves.
pub abort_depends-Ended :
    (abort : ℕ → List Transaction → Outcome) (fuel : ℕ)
    → ((d : ℕ) (l : List Transaction) → pending_count l < fuel → Ended l (abort d l))
    → (ds : List ℕ) (list : List Transaction) → pending_count list < fuel
    → Ended list (abort_depends abort ds list)
unfolding abort_depends
abort_depends-Ended abort fuel h [] list enough = After-refl list
abort_depends-Ended abort fuel h (d ∷ ds) list enough =
    Ended-call list (abort d list) (abort_depends abort ds) (h d list enough)
      (λ l k. abort_depends-Ended abort fuel h ds l (omega (arith, k.0, enough)))

-- The transaction is aborted once it is entered.
pub entered_status :
    (tp : ℕ) (list : List Transaction)
    → status_at tp list ≡ some TransStatus.trans_pending
    → status_at tp (entered tp list) ≡ some TransStatus.trans_aborted
unfolding entered set_status sem_wait
entered_status tp list e =
    status-update_eq tp TransStatus.trans_aborted TransStatus.trans_pending _ _ (λ t. refl)
      (status-update tp tp _ list (λ t. refl) ∙ e)

pub entered_count :
    (tp : ℕ) (list : List Transaction)
    → status_at tp list ≡ some TransStatus.trans_pending
    → suc (pending_count (entered tp list)) ≡ pending_count list
unfolding entered sem_wait
entered_count tp list e =
    pending_count-abort tp (sem_wait tp list) (status-update tp tp _ list (λ t. refl) ∙ e)
    ∙ pending_count-update tp _ list (λ t. refl)

-- The other transactions are left alone.
entered_ne :
    (tp p : ℕ) (list : List Transaction)
    → p ≢ tp
    → (status_at p (entered tp list) ≡ status_at p list)
      × (sem_at p (entered tp list) ≡ sem_at p list)
unfolding entered set_status sem_wait
entered_ne tp p list hn = (
  status-update_ne tp p _ _ hn ∙ status-update_ne tp p _ list hn,
  sem-update_ne tp p _ _ hn ∙ sem-update_ne tp p _ list hn,
)

pub After-entered :
    (tp : ℕ) (list : List Transaction)
    → status_at tp list ≡ some TransStatus.trans_pending
    → After list (entered tp list)
After-entered tp list e = (
  omega (arith, entered_count tp list e),
  λ p st hs es.
      (entered_ne tp p list (λ same. hs (cc (e, es, ap (λ q. status_at q list) same)))).0 ∙ es,
  λ p es.
      (entered_ne tp p list (λ same. absurd (cc (e, es, ap (λ q. status_at q list) same)))).0 ∙ es,
  λ p es.
      let same = entered_ne tp p list (λ q.
        absurd (cc (es, entered_status tp list e, ap (λ r. status_at r (entered tp list)) q))) in
      (sym same.0 ∙ es, omega (arith, same.1)),
)

abort_pending-Ended :
    (abort : ℕ → List Transaction → Outcome) (fuel tp : ℕ) (list : List Transaction) (held : Bool)
    → ((d : ℕ) (l : List Transaction) → pending_count l < fuel → Ended l (abort d l))
    → pending_count list < suc fuel
    → status_at tp list ≡ some TransStatus.trans_pending
    → (sem_at tp list == 0) ≡ held
    → Ended list (abort_pending abort tp list held)
unfolding abort_pending
abort_pending-Ended abort fuel tp list true h enough e zero_sem = (tp, e, ground arith)
abort_pending-Ended abort fuel tp list false h enough e zero_sem =
    let marked = entered tp list in
    abort_end-Ended tp list (abort_depends abort (depends_at tp list) marked) (
      Ended-After list marked _ (After-entered tp list e) (
        abort_depends-Ended abort fuel h (depends_at tp list) marked
          (omega (arith, entered_count tp list e))))

abort_at-Ended :
    (abort : ℕ → List Transaction → Outcome) (fuel tp : ℕ) (list : List Transaction)
    (read : Option TransStatus)
    → ((d : ℕ) (l : List Transaction) → pending_count l < fuel → Ended l (abort d l))
    → pending_count list < suc fuel
    → status_at tp list ≡ read
    → Ended list (abort_at abort tp list read)
unfolding abort_at
abort_at-Ended abort fuel tp list none h enough e = After-refl list
abort_at-Ended abort fuel tp list (some TransStatus.trans_committed) h enough e = tt
abort_at-Ended abort fuel tp list (some TransStatus.trans_aborted) h enough e = After-refl list
abort_at-Ended abort fuel tp list (some TransStatus.trans_pending) h enough e =
    abort_pending-Ended abort fuel tp list (sem_at tp list == 0) h enough e refl

-- With more fuel than there are pending transactions, however the dependencies run, `trans_abort`
-- returns, exits the program, or waits; and it waits only if a pending transaction has a semaphore that
-- is held, as `trans_commit` holds it, when the call is made. Where it returns, no more transactions are
-- pending than before, each that was committed or aborted is so still, and what is still pending
-- has a semaphore of at least the value it had.
pub trans_abort-Ended :
    (fuel tp : ℕ) (list : List Transaction)
    → pending_count list < fuel
    → Ended list (trans_abort fuel tp list)
unfolding trans_abort
trans_abort-Ended zero tp list enough = absurd (omega arith)
trans_abort-Ended (suc fuel) tp list enough =
    abort_at-Ended (trans_abort fuel) fuel tp list (status_at tp list)
      (λ d l. trans_abort-Ended fuel d l) enough refl
