-- ===== src/Printer/Invariant/Waiting/Turns.antt =====
-- After a turn of the loop of `main` no job waits while a printer of its type is idle.
use mathlib.Core.Option.{Option, none, some}
use audible.Base.{ℕ, inl, inr, Bool-cases, List, [], ◌∷◌, ◌==◌}
use audible.Printer.Types.{FileType}
use audible.Printer.Types.Paths.Faults.{AreDefined}
use audible.Printer.Types.Closed.{IsClosed-AreDefined}
use audible.Printer.Printers.{Printer}
use audible.Printer.Printers.Fleet.{IsFleet}
use audible.Printer.Jobs.{Job, remove_job, is_expired, remove_jobs_loop, remove_jobs}
use audible.Printer.Spool.{turn_queued, run_jobs}
use audible.Printer.Console.{Spooler, Signal, Outcome, run_command}
use audible.Printer.Session.{with_ran, run_all, tidy, after_command, main_turn}
use audible.Printer.Invariant.{AreStarted, IsSpooler}
use audible.Printer.Invariant.Runs.{IsFork, FitOption, turn_queued-Fit}
use audible.Printer.Invariant.Added.{IsFine}
use audible.Printer.Invariant.Commands.{LacksWord, run_command-IsFine}
use audible.Printer.Words.{strtok, space}
use audible.Printer.Invariant.Waiting.{AreWaiting, Busier, Turned, TurnedOption, turn_queued-Turned}

-- After the loop of `runJobs`.
abbrev Waited : List FileType → List Printer → Option (List Job × List Printer) → Type 0
Waited types printers none = Unit
Waited types printers (some (jobs, printers')) =
    AreWaiting types jobs printers' × Busier printers printers'

module _ (types : List FileType) (defined : AreDefined types) (fork : ℕ → ℕ) (forked : IsFork fork)
    (now : ℕ) (n : ℕ) where
  run_jobs-Waited :
      (jobs : List Job) (printers : List Printer)
      → AreStarted jobs
      → IsFleet n printers
      → Waited types printers (run_jobs types fork now jobs printers)
  unfolding run_jobs
  run_jobs-Waited [] printers started fleet = (tt, λ job h. h)
  run_jobs-Waited (job ∷ jobs) printers started fleet =
      first (turn_queued types fork now job printers)
        (turn_queued-Fit fork forked now types n job printers defined started.0 fleet)
        (turn_queued-Turned types fork now job n printers fleet)
        (λ printers1 f. run_jobs-Waited jobs printers1 started.1 f)
    where
      rest :
          (job' : Job) (printers1 : List Printer) (r : Option (List Job × List Printer))
          → Turned types printers (job', printers1)
          → Waited types printers1 r
          → Waited types printers
              (elim r [ none ↦ none | some (jobs', printers2) ↦ some (job' ∷ jobs', printers2) ])
      rest job' printers1 none t w = tt
      rest job' printers1 (some (jobs', printers2)) t w =
          (((λ q there. w.1 job' (t.0 q there)), w.0), λ other k. w.1 other (t.1 other k))

      first :
          (r : Option (Job × List Printer))
          → FitOption n r
          → TurnedOption types printers r
          → ((printers1 : List Printer)
              → IsFleet n printers1
              → Waited types printers1 (run_jobs types fork now jobs printers1))
          → Waited types printers (elim r [
            | none ↦ none
            | some (job', printers1) ↦ elim (run_jobs types fork now jobs printers1) [
              | none ↦ none
              | some (jobs', printers2) ↦ some (job' ∷ jobs', printers2)
            ]
          ])
      first none f t more = tt
      first (some (job', printers1)) f t more =
          rest job' printers1 (run_jobs types fork now jobs printers1) t (more printers1 f.1)

AreWaiting-remove :
    (types : List FileType) (id : ℕ) (jobs : List Job) (printers : List Printer)
    → AreWaiting types jobs printers
    → AreWaiting types (remove_job id jobs) printers
unfolding remove_job
AreWaiting-remove types id [] printers h = h
AreWaiting-remove types id (job ∷ jobs) printers h = elim (Bool-cases (job.jobid == id)) [
  | inl e ↦ rw e h.1
  | inr e ↦ rw e (h.0, AreWaiting-remove types id jobs printers h.1)
]

AreWaiting-loop :
    (types : List FileType) (now : ℕ) (nodes jobs : List Job) (printers : List Printer)
    → AreWaiting types jobs printers
    → AreWaiting types (remove_jobs_loop now nodes jobs) printers
unfolding remove_jobs_loop
AreWaiting-loop types now [] jobs printers h = h
AreWaiting-loop types now (node ∷ nodes) jobs printers h = elim (Bool-cases (is_expired now node)) [
  | inl e ↦ rw e (
      AreWaiting-loop types now nodes (remove_job node.jobid jobs) printers
        (AreWaiting-remove types node.jobid jobs printers h))
  | inr e ↦ rw e (AreWaiting-loop types now nodes jobs printers h)
]

-- No job of the spooler waits for nothing.
abbrev pub IsDispatched : Spooler → Type 0
IsDispatched s = AreWaiting s.types s.jobs.jobs s.printers.printers

abbrev pub Dispatches : Outcome → Type 0
Dispatches (Outcome.continues signals s) = IsDispatched s
Dispatches (Outcome.exits code) = Unit
Dispatches Outcome.crashes = Unit

abbrev DispatchedOption : Option Spooler → Type 0
DispatchedOption none = Unit
DispatchedOption (some s) = IsDispatched s

with_ran-Dispatched :
    (s : Spooler) (r : Option (List Job × List Printer))
    → Waited s.types s.printers.printers r
    → DispatchedOption (with_ran s r)
with_ran-Dispatched s none w = tt
with_ran-Dispatched s (some (jobs, printers)) w = w.0

run_all-Dispatched :
    (fork : ℕ → ℕ) (now : ℕ) (s : Spooler)
    → IsFork fork
    → IsSpooler s
    → DispatchedOption (run_all fork now s)
unfolding run_all
run_all-Dispatched fork now s forked h =
    with_ran-Dispatched s (run_jobs s.types fork now s.jobs.jobs s.printers.printers) (
      run_jobs-Waited s.types (IsClosed-AreDefined s.types h.closed) fork forked now
        s.printers.index s.jobs.jobs s.printers.printers h.started h.fleet)

tidy-Dispatches :
    (signals : List (ℕ × Signal)) (now : ℕ) (r : Option Spooler)
    → DispatchedOption r
    → Dispatches (tidy signals now r)
unfolding remove_jobs
tidy-Dispatches signals now none h = tt
tidy-Dispatches signals now (some s) h =
    AreWaiting-loop s.types now s.jobs.jobs s.jobs.jobs s.printers.printers h

after_command-Dispatches :
    (bad : Type 0) (fork : ℕ → ℕ) (now : ℕ) (outcome : Outcome)
    → IsFork fork
    → IsFine bad outcome
    → Dispatches (after_command fork now outcome)
after_command-Dispatches bad fork now (Outcome.continues signals s) forked h =
    tidy-Dispatches signals now (run_all fork now s) (run_all-Dispatched fork now s forked h.0)
after_command-Dispatches bad fork now (Outcome.exits code) forked h = tt
after_command-Dispatches bad fork now Outcome.crashes forked h = tt

-- From a spooler that is in order, where the processes of jobs have process groups other than 0, a turn of
-- the loop of `main` after which the program goes on leaves no job waiting for nothing: for each job that is
-- queued still, if its type is defined, no printer of that type is enabled, eligible for the job and idle.
pub main_turn-Dispatches :
    (fork : ℕ → ℕ) (now : ℕ) (input : Option (List ℕ)) (s : Spooler)
    → IsFork fork
    → IsSpooler s
    → Dispatches (main_turn fork now input s)
unfolding main_turn
main_turn-Dispatches fork now none s forked h = tt
main_turn-Dispatches fork now (some input) s forked h =
    after_command-Dispatches (LacksWord (strtok space input) s.printers.printers) fork now
      (run_command fork now input s) forked (run_command-IsFine fork now input s forked h)
