-- ===== src/Store/Transactions/Abort/Clean.antt =====
-- Where no transaction has committed, aborting does not end the program.
use mathlib.Core.Option.{Option, none, some}
use audible.Base.{Bool, true, false, ◌==◌, ℕ, zero, suc, ◌≡◌, ◌≢◌, refl, ◌∙◌, sym, List, [], ◌∷◌}
use audible.Store.Transactions.{
  TransStatus, Transaction, Outcome, find, update, status_at, depends_at, trans_unref,
  release_dependents, set_status, sem_wait, sem_post, sem_at, entered, abort_pending, abort_depends,
  abort_end, abort_at, trans_abort, positions, trans_fini,
}
use audible.Store.Transactions.Lookup.{status-update}

-- No transaction has committed.
abbrev pub IsClean : List Transaction → Type 0
IsClean list = (p : ℕ) → status_at p list ≢ some TransStatus.trans_committed

-- The call did not exit, and committed nothing.
abbrev pub CleanOutcome : Outcome → Type 0
CleanOutcome (Outcome.returned list) = IsClean list
CleanOutcome Outcome.fatal = ⊥
CleanOutcome Outcome.blocked = Unit
CleanOutcome Outcome.out_of_fuel = Unit

IsClean-update :
    (tp : ℕ) (f : Transaction → Transaction) (list : List Transaction)
    → ((t : Transaction) → (f t).status ≡ t.status)
    → IsClean list
    → IsClean (update tp f list)
IsClean-update tp f list hf h p e = h p (sym (status-update tp p f list hf) ∙ e)

IsClean-aborted :
    (tp : ℕ) (list : List Transaction)
    → IsClean list
    → IsClean (set_status TransStatus.trans_aborted tp list)
unfolding set_status update find
IsClean-aborted tp [] h p e = h p e
IsClean-aborted zero (t ∷ list) h zero e = cc e
IsClean-aborted zero (t ∷ list) h (suc p) e = h (suc p) e
IsClean-aborted (suc tp) (t ∷ list) h zero e = h zero e
IsClean-aborted (suc tp) (t ∷ list) h (suc p) e = IsClean-aborted tp list (λ q. h (suc q)) p e

abort_end-Clean : (tp : ℕ) (o : Outcome) → CleanOutcome o → CleanOutcome (abort_end tp o)
unfolding abort_end trans_unref release_dependents sem_post
abort_end-Clean tp (Outcome.returned list) h =
    IsClean-update tp _ _ (λ t. refl)
      (IsClean-update tp _ _ (λ t. refl) (IsClean-update tp _ list (λ t. refl) h))
abort_end-Clean tp Outcome.fatal h = h
abort_end-Clean tp Outcome.blocked h = tt
abort_end-Clean tp Outcome.out_of_fuel h = tt

CleanOutcome-call :
    (o : Outcome) (rest : List Transaction → Outcome)
    → CleanOutcome o
    → ((l : List Transaction) → IsClean l → CleanOutcome (rest l))
    → CleanOutcome (elim o [
      | Outcome.returned list' ↦ rest list'
      | Outcome.fatal ↦ Outcome.fatal
      | Outcome.blocked ↦ Outcome.blocked
      | Outcome.out_of_fuel ↦ Outcome.out_of_fuel
    ])
CleanOutcome-call (Outcome.returned l) rest h k = k l h
CleanOutcome-call Outcome.fatal rest h k = h
CleanOutcome-call Outcome.blocked rest h k = tt
CleanOutcome-call Outcome.out_of_fuel rest h k = tt

abort_depends-Clean :
    (abort : ℕ → List Transaction → Outcome)
    → ((d : ℕ) (l : List Transaction) → IsClean l → CleanOutcome (abort d l))
    → (ds : List ℕ) (list : List Transaction) → IsClean list
    → CleanOutcome (abort_depends abort ds list)
unfolding abort_depends
abort_depends-Clean abort h [] list clean = clean
abort_depends-Clean abort h (d ∷ ds) list clean =
    CleanOutcome-call (abort d list) (abort_depends abort ds) (h d list clean)
      (abort_depends-Clean abort h ds)

abort_pending-Clean :
    (abort : ℕ → List Transaction → Outcome) (tp : ℕ) (list : List Transaction) (held : Bool)
    → ((d : ℕ) (l : List Transaction) → IsClean l → CleanOutcome (abort d l))
    → IsClean list
    → CleanOutcome (abort_pending abort tp list held)
unfolding abort_pending entered sem_wait
abort_pending-Clean abort tp list true h clean = tt
abort_pending-Clean abort tp list false h clean = abort_end-Clean tp _ (
    abort_depends-Clean abort h (depends_at tp list) _
      (IsClean-aborted tp _ (IsClean-update tp _ list (λ t. refl) clean)))

abort_at-Clean :
    (abort : ℕ → List Transaction → Outcome) (tp : ℕ) (list : List Transaction)
    (read : Option TransStatus)
    → ((d : ℕ) (l : List Transaction) → IsClean l → CleanOutcome (abort d l))
    → IsClean list
    → status_at tp list ≡ read
    → CleanOutcome (abort_at abort tp list read)
unfolding abort_at
abort_at-Clean abort tp list none h clean e = clean
abort_at-Clean abort tp list (some TransStatus.trans_committed) h clean e = clean tp e
abort_at-Clean abort tp list (some TransStatus.trans_aborted) h clean e = clean
abort_at-Clean abort tp list (some TransStatus.trans_pending) h clean e =
    abort_pending-Clean abort tp list (sem_at tp list == 0) h clean

trans_abort-Clean :
    (fuel tp : ℕ) (list : List Transaction) → IsClean list → CleanOutcome (trans_abort fuel tp list)
unfolding trans_abort
trans_abort-Clean zero tp list clean = tt
trans_abort-Clean (suc fuel) tp list clean =
    abort_at-Clean (trans_abort fuel) tp list (status_at tp list)
      (λ d l. trans_abort-Clean fuel d l) clean refl

pub trans_fini-Clean :
    (fuel : ℕ) (list : List Transaction) → IsClean list → CleanOutcome (trans_fini fuel list)
unfolding trans_fini
trans_fini-Clean fuel list clean =
    abort_depends-Clean (trans_abort fuel) (λ d l. trans_abort-Clean fuel d l) (positions 0 _) list
      clean
