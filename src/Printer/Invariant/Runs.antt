-- ===== src/Printer/Invariant/Runs.antt =====
-- `runJobs` keeps what holds of the spooler, and does not crash.
use mathlib.Core.Option.{Option, none, some}
use audible.Base.{ℕ, ◌≢◌, refl, inl, inr, Bool-cases, List, [], ◌∷◌, ◌==◌}
use audible.Printer.Types.{FileType, get_type}
use audible.Printer.Types.Paths.Faults.{AreDefined}
use audible.Printer.Printers.{Printer, get_printer}
use audible.Printer.Printers.Fleet.{IsFleet}
use audible.Printer.Printers.Handing.{busy_printer-IsFleet}
use audible.Printer.Jobs.{Job}
use audible.Printer.Spool.{
  Choice, run_on, run_job, is_queued, turn, turn_queued, run_jobs, get_eligible_printer,
}
use audible.Printer.Spool.Eligible.{Chooses, get_eligible_printer-Chooses}
use audible.Printer.Invariant.{IsStarted, AreStarted}

-- The processes of jobs have process groups of their own.
abbrev pub IsFork : (ℕ → ℕ) → Type 0
IsFork fork = (id : ℕ) → fork id ≢ 0

-- A job that is started if it runs, and the printers, numbered below `n`.
abbrev pub Fit : ℕ → Job × List Printer → Type 0
Fit n (job, printers) = IsStarted job × IsFleet n printers

abbrev pub FitOption : ℕ → Option (Job × List Printer) → Type 0
FitOption n none = ⊥
FitOption n (some next) = Fit n next

abbrev pub FitAll : ℕ → Option (List Job × List Printer) → Type 0
FitAll n none = ⊥
FitAll n (some (jobs, printers)) = AreStarted jobs × IsFleet n printers

choice-of :
    (types : List FileType) (job : Job) (printers : List Printer) (r : Option FileType)
    (choice : Choice)
    → Chooses types job printers r choice
    → choice ≢ Choice.crashed
choice-of types job printers none choice h e = cc (h, e)
choice-of types job printers (some t) (Choice.chosen p) h e = cc e
choice-of types job printers (some t) Choice.nobody h e = cc e
choice-of types job printers (some t) Choice.crashed h e = h

-- Where conversions lead to types that are defined, the choice of a printer does not crash.
pub choice_sound :
    (types : List FileType) (job : Job) (printers : List Printer)
    → AreDefined types
    → get_eligible_printer types job printers ≢ Choice.crashed
choice_sound types job printers defined =
    choice-of types job printers (get_type job.file_type types)
      (get_eligible_printer types job printers)
      (get_eligible_printer-Chooses types job printers defined)

module _ (fork : ℕ → ℕ) (forked : IsFork fork) (now : ℕ) where
  run_on-Fit :
      (n : ℕ) (job : Job) (name : List ℕ) (printers : List Printer) (r : Option Printer)
      → IsStarted job
      → IsFleet n printers
      → Fit n (run_on fork now job name printers r)
  unfolding run_on
  run_on-Fit n job name printers none started fleet = (started, fleet)
  run_on-Fit n job name printers (some p) started fleet = elim (Bool-cases (p.busy == 0)) [
    | inl e ↦ rw e (((λ h. cc h), forked job.jobid), busy_printer-IsFleet n name printers fleet)
    | inr e ↦ rw e (started, fleet)
  ]

  pub run_job-Fit :
      (n : ℕ) (job : Job) (name : List ℕ) (printers : List Printer)
      → IsStarted job
      → IsFleet n printers
      → Fit n (run_job fork now job name printers)
  unfolding run_job
  run_job-Fit n job name printers started fleet =
      run_on-Fit n job name printers (get_printer name printers) started fleet

  turn-Fit :
      (n : ℕ) (job : Job) (printers : List Printer) (choice : Choice)
      → choice ≢ Choice.crashed
      → IsStarted job
      → IsFleet n printers
      → FitOption n (turn fork now job printers choice)
  unfolding turn
  turn-Fit n job printers (Choice.chosen p) sound started fleet =
      run_job-Fit n job p.name printers started fleet
  turn-Fit n job printers Choice.nobody sound started fleet = (started, fleet)
  turn-Fit n job printers Choice.crashed sound started fleet = absurd (sound refl)

  pub turn_queued-Fit :
      (types : List FileType) (n : ℕ) (job : Job) (printers : List Printer)
      → AreDefined types
      → IsStarted job
      → IsFleet n printers
      → FitOption n (turn_queued types fork now job printers)
  unfolding turn_queued
  turn_queued-Fit types n job printers defined started fleet =
      elim (Bool-cases (is_queued job.status)) [
        | inl e ↦ rw e (
            turn-Fit n job printers (get_eligible_printer types job printers)
              (choice_sound types job printers defined) started fleet)
        | inr e ↦ rw e (started, fleet)
      ]

  pub run_jobs-FitAll :
      (types : List FileType) (n : ℕ) (jobs : List Job) (printers : List Printer)
      → AreDefined types
      → AreStarted jobs
      → IsFleet n printers
      → FitAll n (run_jobs types fork now jobs printers)
  unfolding run_jobs
  run_jobs-FitAll types n [] printers defined started fleet = (tt, fleet)
  run_jobs-FitAll types n (job ∷ jobs) printers defined started fleet =
      first (turn_queued types fork now job printers)
        (turn_queued-Fit types n job printers defined started.0 fleet)
        (λ printers1 f. run_jobs-FitAll types n jobs printers1 defined started.1 f)
    where
      rest :
          (job' : Job) (r : Option (List Job × List Printer))
          → IsStarted job'
          → FitAll n r
          → FitAll n
              (elim r [ none ↦ none | some (jobs', printers2) ↦ some (job' ∷ jobs', printers2) ])
      rest job' none s f = f
      rest job' (some (jobs', printers2)) s f = ((s, f.0), f.1)

      first :
          (r : Option (Job × List Printer))
          → FitOption n r
          → ((printers1 : List Printer)
              → IsFleet n printers1
              → FitAll n (run_jobs types fork now jobs printers1))
          → FitAll n (elim r [
            | none ↦ none
            | some (job', printers1) ↦ elim (run_jobs types fork now jobs printers1) [
              | none ↦ none
              | some (jobs', printers2) ↦ some (job' ∷ jobs', printers2)
            ]
          ])
      first none f more = f
      first (some (job', printers1)) f more =
          rest job' (run_jobs types fork now jobs printers1) f.0 (more printers1 f.1)
