-- ===== src/Printer/Invariant/Added.antt =====
-- `print` keeps what holds of the spooler, and crashes only without a file.
use mathlib.Core.Option.{Option, none, some}
use mathlib.Core.Path.{subst}
use audible.Base.{
  ℕ, ◌≡◌, ◌≢◌, refl, sym, inl, inr, false, Bool-cases, Option-cases, List, [], ◌∷◌, ◌==◌,
}
use audible.Printer.Types.{get_type}
use audible.Printer.Types.Closed.{IsClosed-AreDefined}
use audible.Printer.Words.{strtok, skip, split_at, get_printer_set, newline, full_stop}
use audible.Printer.Printers.{Printer}
use audible.Printer.Printers.Busy.{IsBusy}
use audible.Printer.Printers.Fleet.{IsFleet}
use audible.Printer.Jobs.{Job, JobList, new_job, add_job}
use audible.Printer.Spool.{Choice, run_job}
use audible.Printer.Spool.Apart.{holder, Turned, run_job-Turned}
use audible.Printer.Console.{Spooler, Outcome, start_chosen, start_new, print_parts, print}
use audible.Printer.Invariant.{IsStarted, IsSpooler}
use audible.Printer.Invariant.Runs.{IsFork, choice_sound, run_job-Fit}
use audible.Printer.Invariant.Jobs.{IsQueue, add_job-IsQueue}

-- The outcome of a command that crashes exactly where `bad` holds, and else leaves a spooler or ends.
abbrev pub IsFine : Type 0 → Outcome → Type 0
IsFine bad (Outcome.continues signals s) = IsSpooler s × (bad → ⊥)
IsFine bad (Outcome.exits code) = bad → ⊥
IsFine bad Outcome.crashes = bad

pub IsSpooler-IsQueue : (s : Spooler) → IsSpooler s → IsQueue s.jobs.jobs s.printers.printers
IsSpooler-IsQueue s h = record { spool = h.spool; started = h.started }

-- A spooler with other printers and jobs.
pub replaced :
    (s : Spooler) (jobs : JobList) (printers : List Printer)
    → IsSpooler s
    → IsQueue jobs.jobs printers
    → IsFleet s.printers.index printers
    → IsSpooler (record s { printers = record s.printers { printers = printers }; jobs = jobs })
replaced s jobs printers h queue fleet = record {
  closed = h.closed;
  spool = queue.spool;
  fleet = fleet;
  few = h.few;
  started = queue.started;
}

abbrev HoldsNone : Job → Type 0
HoldsNone job = (i : ℕ) → holder job ≢ some i

module _ (fork : ℕ → ℕ) (forked : IsFork fork) (now : ℕ) (s : Spooler) (h : IsSpooler s) where
  -- A job that holds no printer, added and perhaps run.
  added :
      (job job' : Job) (index : ℕ) (printers' : List Printer)
      → HoldsNone job
      → Turned job s.printers.printers (job', printers')
      → IsStarted job'
      → IsFleet s.printers.index printers'
      → IsSpooler (record s {
        printers = record s.printers { printers = printers' };
        jobs = record { jobs = add_job job' s.jobs.jobs; index = index };
      })
  added job job' index printers' free (inl same) started fleet =
      replaced s _ printers' h
        (add_job-IsQueue job' s.jobs.jobs s.printers.printers printers' fleet.numbered
          (λ i b. subst (IsBusy i) (sym same.1) b)
          (λ i e. absurd (free i (subst (λ (j : Job). holder j ≡ some i) same.0 e))) started
          (IsSpooler-IsQueue s h))
        fleet
  added job job' index printers' free (inr taken) started fleet =
      replaced s _ printers' h
        (add_job-IsQueue job' s.jobs.jobs s.printers.printers printers' fleet.numbered taken.0.0
          taken.1 started (IsSpooler-IsQueue s h))
        fleet

  start_chosen-IsFine :
      (job : Job) (index : ℕ) (choice : Choice)
      → choice ≢ Choice.crashed
      → HoldsNone job
      → IsStarted job
      → IsFine ⊥ (
          start_chosen fork now job
            (record { jobs = add_job job s.jobs.jobs; index = index })
            s
            choice)
  unfolding start_chosen
  start_chosen-IsFine job index (Choice.chosen p) sound free started =
      let ran = run_job fork now job p.name s.printers.printers in
      let fit =
        run_job-Fit fork forked now s.printers.index job p.name s.printers.printers started
          h.fleet in
      (
        added job ran.0 index ran.1 free
            (run_job-Turned fork now job p.name s.printers.printers h.fleet.numbered) fit.0 fit.1,
        λ bad. bad,
      )
  start_chosen-IsFine job index Choice.nobody sound free started =
      (added job job index s.printers.printers free (inl (refl, refl)) started h.fleet, λ bad. bad)
  start_chosen-IsFine job index Choice.crashed sound free started = sound refl

  start_new-IsFine :
      (name type : List ℕ) (set : ℕ)
      → (set == 0) ≡ false
      → IsFine ⊥ (start_new fork now s (new_job (some name) (some type) 0 set now s.jobs))
  unfolding start_new new_job
  start_new-IsFine name type set some_set = rw some_set (
      start_chosen-IsFine _ _ _
        (choice_sound s.types _ s.printers.printers (IsClosed-AreDefined s.types h.closed))
        (λ i e. cc e) tt)

  print_parts-IsFine :
      (name : List ℕ) (type printers : Option (List ℕ))
      → IsFine ⊥ (print_parts fork now (some name) type printers s)
  unfolding print_parts
  print_parts-IsFine name none printers = (h, λ bad. bad)
  print_parts-IsFine name (some type) printers = elim (Option-cases (get_type type s.types)) [
    | inl e ↦ rw (print_parts, e) (h, λ bad. bad)
    | inr (t, e) ↦ elim (Bool-cases (get_printer_set printers s.printers.printers == 0)) [
      | inl z ↦ rw (print_parts, e, z) (h, λ bad. bad)
      | inr nz ↦ rw (print_parts, e, nz) (start_new-IsFine name type _ nz)
    ]
  ]

  -- A file name with nothing in front of its dot has no type either.
  print_split :
      (file : List ℕ) (printers : Option (List ℕ))
      → let name = split_at full_stop file in
        IsFine ⊥ (print_parts fork now name.0 (strtok newline name.1).0 printers s)
  unfolding print_parts strtok skip
  print_split [] printers = (h, λ bad. bad)
  print_split (c ∷ file) printers = print_parts-IsFine _ _ printers

  pub print-IsFine :
      (file printers : Option (List ℕ)) → IsFine (file ≡ none) (print fork now file printers s)
  unfolding print strtok
  print-IsFine none printers = refl
  print-IsFine (some file) printers =
      weaken (print fork now (some file) printers s) (print_split (skip full_stop file) printers)
    where
      weaken : (o : Outcome) → IsFine ⊥ o → IsFine (some file ≡ none) o
      weaken (Outcome.continues signals s') f = (f.0, λ e. cc e)
      weaken (Outcome.exits code) f = λ e. cc e
      weaken Outcome.crashes f = absurd f
