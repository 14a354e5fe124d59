-- ===== src/Store/Transactions/Abort/Closed.antt =====
-- A transaction takes its dependencies with it when it is aborted.
use mathlib.Core.Option.{Option, none, some}
use audible.Base.{
  Bool, true, false, ℕ, zero, suc, ◌+◌, ◌≤◌, ◌<◌, ◌≡◌, ◌≢◌, refl, ◌∙◌, ap, ◌⊎◌, inl, inr, List, [],
  ◌∷◌, arith, length, Bool-cases, ◌==◌,
}
use audible.Store.Transactions.{
  TransStatus, Transaction, Outcome, status_at, depends_at, sem_at, entered, abort_pending,
  abort_depends, abort_end, abort_at, trans_abort, positions, trans_fini,
}
use audible.Store.Transactions.Abort.{
  pending_count, After, Ended, HasHeld, After-ended, entered_status, entered_count,
  abort_depends-Ended, trans_abort-Ended,
}

-- If `tp` is there, it is aborted.
abbrev pub Gone : ℕ → List Transaction → Type 0
Gone tp list = (st : TransStatus) → status_at tp list ≡ some st → st ≡ TransStatus.trans_aborted

abbrev pub AllGone : List ℕ → List Transaction → Type 0
AllGone [] list = Unit
AllGone (d ∷ ds) list = Gone d list × AllGone ds list

aborted_ne : TransStatus.trans_aborted ≢ TransStatus.trans_pending
aborted_ne e = cc e

Gone-After : (tp : ℕ) (a b : List Transaction) → After a b → Gone tp a → Gone tp b
Gone-After tp a b h gone = still (status_at tp a) refl
  where
    still : (read : Option TransStatus) → status_at tp a ≡ read → Gone tp b
    still none e st eb = absurd (cc (h.2 tp e, eb))
    still (some old) e st eb =
        cc (h.1 tp TransStatus.trans_aborted aborted_ne (e ∙ ap some (gone old e)), eb)

AllGone-After : (ds : List ℕ) (a b : List Transaction) → After a b → AllGone ds a → AllGone ds b
AllGone-After [] a b h gone = tt
AllGone-After (d ∷ ds) a b h gone = (Gone-After d a b h gone.0, AllGone-After ds a b h gone.1)

-- In what a call of `trans_abort` returned, `ds` are aborted.
abbrev pub Leaves : List ℕ → Outcome → Type 0
Leaves ds (Outcome.returned list) = AllGone ds list
Leaves ds Outcome.fatal = Unit
Leaves ds Outcome.blocked = Unit
Leaves ds Outcome.out_of_fuel = Unit

Leaves-After :
    (ds : List ℕ) (a : List Transaction) (o : Outcome) → Ended a o → AllGone ds a → Leaves ds o
Leaves-After ds a (Outcome.returned b) h gone = AllGone-After ds a b h gone
Leaves-After ds a Outcome.fatal h gone = tt
Leaves-After ds a Outcome.blocked h gone = tt
Leaves-After ds a Outcome.out_of_fuel h gone = tt

Leaves-cons :
    (d : ℕ) (ds : List ℕ) (o : Outcome) → Leaves (d ∷ []) o → Leaves ds o → Leaves (d ∷ ds) o
Leaves-cons d ds (Outcome.returned b) h k = (h.0, k)
Leaves-cons d ds Outcome.fatal h k = tt
Leaves-cons d ds Outcome.blocked h k = tt
Leaves-cons d ds Outcome.out_of_fuel h k = tt

Leaves-call :
    (d : ℕ) (ds : List ℕ) (o : Outcome) (rest : List Transaction → Outcome)
    (list : List Transaction)
    → Ended list o
    → Leaves (d ∷ []) o
    → ((l : List Transaction) → After list l → Ended l (rest l) × Leaves ds (rest l))
    → Leaves (d ∷ ds) (elim o [
      | Outcome.returned list' ↦ rest list'
      | Outcome.fatal ↦ Outcome.fatal
      | Outcome.blocked ↦ Outcome.blocked
      | Outcome.out_of_fuel ↦ Outcome.out_of_fuel
    ])
Leaves-call d ds (Outcome.returned l) rest list h gone k =
    Leaves-cons d ds (rest l) (Leaves-After (d ∷ []) l (rest l) (k l h).0 gone) (k l h).1
Leaves-call d ds Outcome.fatal rest list h gone k = tt
Leaves-call d ds Outcome.blocked rest list h gone k = tt
Leaves-call d ds Outcome.out_of_fuel rest list h gone k = tt

abort_end-Leaves : (ds : List ℕ) (tp : ℕ) (o : Outcome) → Leaves ds o → Leaves ds (abort_end tp o)
unfolding abort_end
abort_end-Leaves ds tp (Outcome.returned l) h = AllGone-After ds l _ (After-ended tp l) h
abort_end-Leaves ds tp Outcome.fatal h = tt
abort_end-Leaves ds tp Outcome.blocked h = tt
abort_end-Leaves ds tp Outcome.out_of_fuel h = tt

marked-Gone :
    (tp : ℕ) (list : List Transaction)
    → status_at tp list ≡ some TransStatus.trans_pending
    → Gone tp (entered tp list)
marked-Gone tp list e st es = cc (entered_status tp list e, es)

-- Calls that are known to behave with less fuel.
module _ (abort : ℕ → List Transaction → Outcome) (fuel : ℕ)
    (ended : (d : ℕ) (l : List Transaction) → pending_count l < fuel → Ended l (abort d l))
    (leaves : (d : ℕ) (l : List Transaction)
      → pending_count l < fuel
      → Leaves (d ∷ []) (abort d l)) where
  abort_depends-Leaves :
      (ds : List ℕ) (list : List Transaction)
      → pending_count list < fuel
      → Leaves ds (abort_depends abort ds list)
  unfolding abort_depends
  abort_depends-Leaves [] list enough = tt
  abort_depends-Leaves (d ∷ ds) list enough =
      Leaves-call d ds (abort d list) (abort_depends abort ds) list (ended d list enough)
        (leaves d list enough)
        (λ l h. (
          abort_depends-Ended abort fuel ended ds l (omega (arith, h.0, enough)),
          abort_depends-Leaves ds l (omega (arith, h.0, enough)),
        ))

  abort_pending-Leaves :
      (tp : ℕ) (list : List Transaction) (held : Bool)
      → pending_count list < suc fuel
      → status_at tp list ≡ some TransStatus.trans_pending
      → Leaves (tp ∷ []) (abort_pending abort tp list held)
        × Leaves (depends_at tp list) (abort_pending abort tp list held)
  unfolding abort_pending
  abort_pending-Leaves tp list true enough e = (tt, tt)
  abort_pending-Leaves tp list false enough e =
      let marked = entered tp list in
      let less : pending_count marked < fuel = omega (arith, entered_count tp list e) in
      let calls = abort_depends abort (depends_at tp list) marked in
      (
        abort_end-Leaves (tp ∷ []) tp calls (
            Leaves-After (tp ∷ []) marked calls
              (abort_depends-Ended abort fuel ended (depends_at tp list) marked less)
              (marked-Gone tp list e, tt)),
        abort_end-Leaves (depends_at tp list) tp calls
            (abort_depends-Leaves (depends_at tp list) marked less),
      )

  -- The transaction, and its dependencies where it was pending.
  abort_at-Leaves :
      (tp : ℕ) (list : List Transaction) (read : Option TransStatus)
      → pending_count list < suc fuel
      → status_at tp list ≡ read
      → Leaves (tp ∷ []) (abort_at abort tp list read)
        × (read ≡ some TransStatus.trans_pending
            → Leaves (depends_at tp list) (abort_at abort tp list read))
  unfolding abort_at
  abort_at-Leaves tp list none enough e = ((λ st es. absurd (cc (e, es)), tt), λ r. absurd (cc r))
  abort_at-Leaves tp list (some TransStatus.trans_committed) enough e = (tt, λ r. tt)
  abort_at-Leaves tp list (some TransStatus.trans_aborted) enough e =
      ((λ st es. cc (e, es), tt), λ r. absurd (cc r))
  abort_at-Leaves tp list (some TransStatus.trans_pending) enough e =
      let both = abort_pending-Leaves tp list (sem_at tp list == 0) enough e in
      (both.0, λ r. both.1)

trans_abort-Leaves :
    (fuel tp : ℕ) (list : List Transaction)
    → pending_count list < fuel
    → Leaves (tp ∷ []) (trans_abort fuel tp list)
unfolding trans_abort
trans_abort-Leaves zero tp list enough = tt
trans_abort-Leaves (suc fuel) tp list enough =
    (abort_at-Leaves (trans_abort fuel) fuel (λ d l. trans_abort-Ended fuel d l)
      (λ d l. trans_abort-Leaves fuel d l) tp list (status_at tp list) enough refl).0

-- With more fuel than there are pending transactions: where `trans_abort` returns from a pending
-- transaction, that transaction is aborted, and so is every transaction that it depends on.
pub trans_abort-depends :
    (fuel tp : ℕ) (list : List Transaction)
    → pending_count list < fuel
    → status_at tp list ≡ some TransStatus.trans_pending
    → Leaves (tp ∷ depends_at tp list) (trans_abort fuel tp list)
unfolding trans_abort
trans_abort-depends zero tp list enough e = tt
trans_abort-depends (suc fuel) tp list enough e =
    let both =
      abort_at-Leaves (trans_abort fuel) fuel (λ d l. trans_abort-Ended fuel d l)
        (λ d l. trans_abort-Leaves fuel d l) tp list (status_at tp list) enough refl in
    Leaves-cons tp (depends_at tp list) (trans_abort (suc fuel) tp list) both.0 (both.1 e)

abbrev pub SomeCommitted : List ℕ → List Transaction → Type 0
SomeCommitted [] list = ⊥
SomeCommitted (d ∷ ds) list =
    (status_at d list ≡ some TransStatus.trans_committed) ⊎ SomeCommitted ds list

no_committed :
    (ds : List ℕ) (a b : List Transaction) → After a b → AllGone ds b → SomeCommitted ds a → ⊥
no_committed [] a b h gone none_left = none_left
no_committed (d ∷ ds) a b h gone (inl e) =
    let still = h.1 d TransStatus.trans_committed (λ p. cc p) e in cc (gone.0 _ still)
no_committed (d ∷ ds) a b h gone (inr e) = no_committed ds a b h gone.1 e

must_be_fatal :
    (ds : List ℕ) (list : List Transaction) (o : Outcome)
    → ¬ HasHeld list
    → Ended list o
    → Leaves ds o
    → SomeCommitted ds list
    → o ≡ Outcome.fatal
must_be_fatal ds list (Outcome.returned l) free h k c = absurd (no_committed ds list l h k c)
must_be_fatal ds list Outcome.fatal free h k c = refl
must_be_fatal ds list Outcome.blocked free h k c = absurd (free h)
must_be_fatal ds list Outcome.out_of_fuel free h k c = absurd h

-- A pending transaction that depends on a committed one cannot be aborted: with more fuel than there are
-- pending transactions, and none of their semaphores held, `trans_abort` exits the program.
pub trans_abort-fatal :
    (fuel tp : ℕ) (list : List Transaction)
    → pending_count list < fuel
    → ¬ HasHeld list
    → status_at tp list ≡ some TransStatus.trans_pending
    → SomeCommitted (depends_at tp list) list
    → trans_abort fuel tp list ≡ Outcome.fatal
trans_abort-fatal fuel tp list enough free e c =
    must_be_fatal (tp ∷ depends_at tp list) list (trans_abort fuel tp list) free
      (trans_abort-Ended fuel tp list enough) (trans_abort-depends fuel tp list enough e) (inr c)

le_cases : (i p : ℕ) → i ≤ p → (i ≡ p) ⊎ (i + 1 ≤ p)
le_cases i p h = elim (Bool-cases (i == p)) [
  | inl e ↦ inl (ground arith)
  | inr e ↦ inr (ground arith)
]

SomeCommitted-at :
    (n i p : ℕ) (list : List Transaction)
    → i ≤ p
    → p < i + n
    → status_at p list ≡ some TransStatus.trans_committed
    → SomeCommitted (positions i n) list
unfolding positions
SomeCommitted-at zero i p list lo hi e = absurd (omega arith)
SomeCommitted-at (suc n) i p list lo hi e = elim (le_cases i p lo) [
  | inl same ↦ inl (ap (λ q. status_at q list) same ∙ e)
  | inr less ↦ inr (SomeCommitted-at n (i + 1) p list less (omega arith) e)
]

-- Once a transaction has committed, and no semaphore of a pending one is held, `trans_fini` does not
-- return: the program exits with a failure.
pub trans_fini-fatal :
    (fuel p : ℕ) (list : List Transaction)
    → pending_count list < fuel
    → ¬ HasHeld list
    → p < length list
    → status_at p list ≡ some TransStatus.trans_committed
    → trans_fini fuel list ≡ Outcome.fatal
unfolding trans_fini
trans_fini-fatal fuel p list enough free hp e =
    let ds = positions 0 (length list) in
    must_be_fatal ds list (abort_depends (trans_abort fuel) ds list) free
      (abort_depends-Ended (trans_abort fuel) fuel (λ d l. trans_abort-Ended fuel d l) ds list
        enough)
      (abort_depends-Leaves (trans_abort fuel) fuel (λ d l. trans_abort-Ended fuel d l)
        (λ d l. trans_abort-Leaves fuel d l) ds list enough)
      (SomeCommitted-at (length list) 0 p list (omega arith) (omega arith) e)

pub trans_fini-Ended :
    (fuel : ℕ) (list : List Transaction)
    → pending_count list < fuel
    → Ended list (trans_fini fuel list)
unfolding trans_fini
trans_fini-Ended fuel list enough =
    abort_depends-Ended (trans_abort fuel) fuel (λ d l. trans_abort-Ended fuel d l)
      (positions 0 (length list)) list enough
