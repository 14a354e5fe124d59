-- ===== src/Store/Shutdown.antt =====
-- Server Store/src/main.c: the port from the command line, and `terminate`.
--
-- `getFlag` has the text of the one of Printer/src/main.c. The sockets, the accept loop and the calls of the
-- object store are left out. The service threads go on beside `terminate`, and the registry is what they have
-- left of it when `creg_wait_for_empty` reads it.
use mathlib.Core.Option.{Option, none, some}
use audible.Base.{
  ℕ, suc, ◌-◌, ◌<◌, ◌≡◌, ◌≢◌, refl, ap, ◌⊎◌, inl, inr, zero, ◌&&◌, true, List, [], ◌∷◌, ltb,
  if◌then◌else◌, length,
}
use audible.Printer.Session.{get_flag, argument_at}
use audible.Store.Registry.{ClientRegistry, is_empty}
use audible.Store.Transactions.{Transaction, TransStatus, Outcome, find, status_at, trans_fini}
use audible.Store.Transactions.Lookup.{status-length}
use audible.Store.Transactions.Abort.{pending_count, HasHeld, Ended}
use audible.Store.Transactions.Abort.Closed.{trans_fini-fatal, trans_fini-Ended}
use audible.Store.Transactions.Abort.Clean.{IsClean, CleanOutcome, trans_fini-Clean}

-- The port that `main` goes by: `port` is what the variable holds before anything is assigned to it.
abbrev pub given_port : Option (List ℕ) → List (List ℕ) → Option ℕ → Option (List ℕ)
given_port port argv none = port
given_port port argv (some index) =
    if ltb 0 index && ltb index (length argv - 1) then argument_at (suc index) argv else port

pub main_port : Option (List ℕ) → List (List ℕ) → Option (List ℕ)
main_port port argv = given_port port argv (get_flag (45 ∷ 112 ∷ []) argv)

-- `terminate` waits for service threads or for a semaphore, or has ended the program with a status.
pub data Shutdown : Type 0 where
  waits : Shutdown
  exits : ℕ → Shutdown
  runs_on : Shutdown

-- Behind `trans_fini`.
abbrev pub ended_by : Outcome → Shutdown
ended_by (Outcome.returned list) = Shutdown.exits 0
ended_by Outcome.fatal = Shutdown.exits 1
ended_by Outcome.blocked = Shutdown.waits
ended_by Outcome.out_of_fuel = Shutdown.runs_on

-- `terminate(status)` from the test of `creg_wait_for_empty` on; the fuel is that of `trans_abort`.
pub terminate : ℕ → ClientRegistry → List Transaction → Shutdown
terminate fuel registry list =
    if is_empty registry then ended_by (trans_fini fuel list) else Shutdown.waits

ended_by-Clean :
    (list : List Transaction) (o : Outcome)
    → ¬ HasHeld list
    → Ended list o
    → CleanOutcome o
    → ended_by o ≡ Shutdown.exits 0
ended_by-Clean list (Outcome.returned l) free h k = refl
ended_by-Clean list Outcome.fatal free h k = absurd k
ended_by-Clean list Outcome.blocked free h k = absurd (free h)
ended_by-Clean list Outcome.out_of_fuel free h k = absurd h

-- A transaction of the list has committed.
abbrev pub HasCommitted : List Transaction → Type 0
HasCommitted list = (p : ℕ) × (status_at p list ≡ some TransStatus.trans_committed)

IsClean-cons :
    (t : Transaction) (list : List Transaction)
    → t.status ≢ TransStatus.trans_committed
    → IsClean list
    → IsClean (t ∷ list)
unfolding find
IsClean-cons t list h clean zero c = h (cc c)
IsClean-cons t list h clean (suc p) c = clean p c

committed_cases : (list : List Transaction) → IsClean list ⊎ HasCommitted list
unfolding find
committed_cases [] = inl (λ p e. cc e)
committed_cases (t ∷ list) = elim (committed_cases list) [
  | inr later ↦ inr (suc later.0, later.1)
  | inl clean ↦ first t.status refl clean
]
  where
    first :
        (st : TransStatus)
        → t.status ≡ st
        → IsClean list
        → IsClean (t ∷ list) ⊎ HasCommitted (t ∷ list)
    first TransStatus.trans_committed e clean = inr (0, ap some e)
    first TransStatus.trans_aborted e clean = inl (IsClean-cons t list (λ c. cc (e, c)) clean)
    first TransStatus.trans_pending e clean = inl (IsClean-cons t list (λ c. cc (e, c)) clean)

-- When the last client is gone, with more fuel than there are pending transactions, and none of their
-- semaphores held by a service thread that is still there, `terminate` ends the program: either with
-- status 0, and no transaction has committed, or with a failure, and one has.
pub terminate-exits :
    (fuel : ℕ) (registry : ClientRegistry) (list : List Transaction)
    → pending_count list < fuel
    → ¬ HasHeld list
    → is_empty registry ≡ true
    → ((terminate fuel registry list ≡ Shutdown.exits 0) × IsClean list)
      ⊎ ((terminate fuel registry list ≡ Shutdown.exits 1) × HasCommitted list)
unfolding terminate
terminate-exits fuel registry list enough free empty = elim (committed_cases list) [
  | inl clean ↦
      let ends =
        ended_by-Clean list (trans_fini fuel list) free (trans_fini-Ended fuel list enough)
          (trans_fini-Clean fuel list clean) in
      inl (rw empty ends, clean)
  | inr (p, committed) ↦
      let fatal =
        trans_fini-fatal fuel p list enough free (status-length p list committed) committed in
      inr (rw (empty, fatal) refl, (p, committed))
]
