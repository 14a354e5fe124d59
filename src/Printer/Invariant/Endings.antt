-- ===== src/Printer/Invariant/Endings.antt =====
-- The handler of `SIGCHLD` keeps what holds of the spooler.
use mathlib.Core.Option.{Option, none, some}
use mathlib.Core.Path.{subst}
use audible.Base.{ℕ, ◌≡◌, ◌≢◌, sym, ◌∙◌, ap, inl, inr, Bool-cases, List, [], ◌∷◌, ◌==◌}
use audible.Printer.Types.Closed.{IsClosed-AreDefined}
use audible.Printer.Printers.{Printer, printer_at}
use audible.Printer.Printers.Busy.{IsBusy}
use audible.Printer.Printers.Fleet.{IsFleet}
use audible.Printer.Printers.Handing.{
  LeadsBack, printer_at-LeadsBack, free_printer-others, free_printer-IsFleet,
}
use audible.Printer.Jobs.{Job, get_job_by_pid}
use audible.Printer.Spool.{run_jobs}
use audible.Printer.Spool.Apart.{NotHeld, AreServed, Ran, run_jobs-IsSpool}
use audible.Printer.Session.{
  change_job, free_at, free_chosen, with_ran, run_all, with_freed, finish, touch,
}
use audible.Printer.Console.{Spooler}
use audible.Printer.Invariant.{IsSpooler}
use audible.Printer.Invariant.Runs.{IsFork, FitAll, run_jobs-FitAll}
use audible.Printer.Invariant.Jobs.{IsQueue}
use audible.Printer.Invariant.Changed.{
  OnJob, Ends, IsGentle, change_job-IsQueue, change_job-NotHeld, change_job-ended,
}
use audible.Printer.Invariant.Added.{IsSpooler-IsQueue}

-- The program goes on with a spooler that is in order.
abbrev pub GoesOn : Option Spooler → Type 0
GoesOn none = ⊥
GoesOn (some s) = IsSpooler s

with_ran-GoesOn :
    (s : Spooler) (r : Option (List Job × List Printer))
    → IsSpooler s
    → Ran s.jobs.jobs s.printers.printers r
    → FitAll s.printers.index r
    → GoesOn (with_ran s r)
with_ran-GoesOn s none h ran fit = fit
with_ran-GoesOn s (some (jobs, printers)) h ran fit = record {
  closed = h.closed;
  spool = ran.0;
  fleet = fit.1;
  few = h.few;
  started = fit.0;
}

pub run_all-GoesOn :
    (fork : ℕ → ℕ) (now : ℕ) (s : Spooler) → IsFork fork → IsSpooler s → GoesOn (run_all fork now s)
unfolding run_all
run_all-GoesOn fork now s forked h =
    with_ran-GoesOn s (run_jobs s.types fork now s.jobs.jobs s.printers.printers) h
      (run_jobs-IsSpool s.types fork now s.jobs.jobs s.printers.printers h.spool)
      (run_jobs-FitAll fork forked now s.types s.printers.index s.jobs.jobs s.printers.printers
        (IsClosed-AreDefined s.types h.closed) h.started h.fleet)

-- The printers after the one with the identifier `i` has been freed.
abbrev pub Frees : ℕ → ℕ → List Printer → Option (List Printer) → Type 0
Frees n i printers none = ⊥
Frees n i printers (some printers') =
    IsFleet n printers' × ((j : ℕ) → j ≢ i → IsBusy j printers → IsBusy j printers')

free_at-Frees :
    (n i : ℕ) (printers : List Printer) (r : Option Printer)
    → IsFleet n printers
    → LeadsBack i printers r
    → Frees n i printers (free_at r printers)
free_at-Frees n i printers none fleet leads = leads
free_at-Frees n i printers (some p) fleet leads = (
  free_printer-IsFleet n p.name printers fleet,
  λ j differ b. free_printer-others i j p.name printers leads.1 differ b,
)

-- Jobs that do not hold the printer `i` are served without it.
AreServed-without :
    (i : ℕ) (jobs : List Job) (printers printers' : List Printer)
    → ((j : ℕ) → j ≢ i → IsBusy j printers → IsBusy j printers')
    → NotHeld i jobs
    → AreServed jobs printers
    → AreServed jobs printers'
AreServed-without i [] printers printers' others free h = tt
AreServed-without i (job ∷ jobs) printers printers' others free h = (
  λ j held. others j (λ e. free.0 (held ∙ ap some e)) (h.0 j held),
  AreServed-without i jobs printers printers' others free.1 h.1,
)

module _ (fork : ℕ → ℕ) (forked : IsFork fork) (now : ℕ) (s : Spooler) (h : IsSpooler s) where
  with_freed-GoesOn :
      (i : ℕ) (jobs : List Job) (r : Option (List Printer))
      → IsQueue jobs s.printers.printers
      → NotHeld i jobs
      → Frees s.printers.index i s.printers.printers r
      → GoesOn (with_freed fork now s jobs r)
  with_freed-GoesOn i jobs none queue free frees = frees
  with_freed-GoesOn i jobs (some printers) queue free frees =
      run_all-GoesOn fork now _ forked (record {
        closed = h.closed;
        spool = record {
          numbered = frees.0.numbered;
          served =
              AreServed-without i jobs s.printers.printers printers frees.1 free queue.spool.served;
          apart = queue.spool.apart;
        };
        fleet = frees.0;
        few = h.few;
        started = queue.started;
      })

  held-IsBusy :
      (pid i : ℕ) (f : Job → Job) (jobs : List Job)
      → AreServed jobs s.printers.printers
      → OnJob (Ends f i) (get_job_by_pid pid jobs)
      → IsBusy i s.printers.printers
  unfolding get_job_by_pid
  held-IsBusy pid i f [] served = λ found. absurd found
  held-IsBusy pid i f (x ∷ jobs) served = elim (Bool-cases (x.pgid == pid)) [
    | inl e ↦ rw e (λ found. served.0 i found.0)
    | inr e ↦ rw e (held-IsBusy pid i f jobs served.1)
  ]

  pub finish-GoesOn :
      (f : Job → Job) (pid i : ℕ) (r : Option Job)
      → get_job_by_pid pid s.jobs.jobs ≡ r
      → OnJob (λ job. Ends f i job × (job.chosen_printer ≡ some i)) r
      → GoesOn (finish fork now f pid s r)
  finish-GoesOn f pid i none e found = found
  finish-GoesOn f pid i (some job) e found =
      let ends : OnJob (Ends f i) (get_job_by_pid pid s.jobs.jobs) =
        subst (OnJob (Ends f i)) (sym e) found.0 in
      let jobs = change_job f pid s.jobs.jobs in
      let free = change_job-NotHeld f pid i s.jobs.jobs h.spool.apart ends in
      let queue =
        change_job-ended f pid i s.jobs.jobs s.printers.printers (IsSpooler-IsQueue s h) ends in
      let leads =
        printer_at-LeadsBack i s.printers.printers h.fleet.in_front h.fleet.numbered
          (held-IsBusy pid i f s.jobs.jobs h.spool.served ends) in
      let frees =
        free_at-Frees s.printers.index i s.printers.printers (printer_at i s.printers.printers)
          h.fleet leads in
      subst (λ c. GoesOn (with_freed fork now s jobs (free_chosen c s.printers.printers)))
        (sym found.1) (with_freed-GoesOn i jobs _ queue free frees)

  pub touch-GoesOn :
      (f : Job → Job) (pid : ℕ) (r : Option Job)
      → IsGentle f
      → OnJob (λ job. Unit) r
      → GoesOn (touch f pid s r)
  touch-GoesOn f pid none gentle found = found
  touch-GoesOn f pid (some job) gentle found =
      let queue =
        change_job-IsQueue f gentle pid s.jobs.jobs s.printers.printers (IsSpooler-IsQueue s h) in
      record {
        closed = h.closed;
        spool = queue.spool;
        fleet = h.fleet;
        few = h.few;
        started = queue.started;
      }
