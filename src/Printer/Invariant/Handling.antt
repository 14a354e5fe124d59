-- ===== src/Printer/Invariant/Handling.antt =====
-- The reports of `waitpid` that the handler takes, and what it does with them.
use mathlib.Core.Option.{Option, none, some}
use audible.Base.{ℕ, ◌≡◌, ◌≢◌, refl, inl, inr, Bool-cases, Option-cases, List, [], ◌∷◌, ◌==◌, arith}
use audible.Printer.Jobs.{
  Job, JobStatus, get_job_by_pid, pause_job, resume_job, complete_job, abort_job,
}
use audible.Printer.Session.{Report, finish, print_handler}
use audible.Printer.Console.{Spooler}
use audible.Printer.Invariant.{Started, IsStarted, AreStarted, IsSpooler}
use audible.Printer.Invariant.Runs.{IsFork}
use audible.Printer.Invariant.Changed.{OnJob, Ends, pause_job-IsGentle, resume_job-IsGentle}
use audible.Printer.Invariant.Endings.{GoesOn, finish-GoesOn, touch-GoesOn}

abbrev pub IsRunning : JobStatus → Type 0
IsRunning JobStatus.queued = ⊥
IsRunning JobStatus.running = Unit
IsRunning JobStatus.paused = ⊥
IsRunning JobStatus.completed = ⊥
IsRunning JobStatus.aborted = ⊥

abbrev pub IsLive : JobStatus → Type 0
IsLive JobStatus.queued = ⊥
IsLive JobStatus.running = Unit
IsLive JobStatus.paused = Unit
IsLive JobStatus.completed = ⊥
IsLive JobStatus.aborted = ⊥

-- The job of the process is found first, and has a status that fits.
abbrev pub FoundWith : (JobStatus → Type 0) → ℕ → Spooler → Type 0
FoundWith P pid s = OnJob (λ job. P job.status) (get_job_by_pid pid s.jobs.jobs)

-- What the system reports is of the process of a job that is not over; one that ends well has run.
abbrev pub Fits : Spooler → Report → Type 0
Fits s (Report.exited pid code) =
    (code ≡ 0 → FoundWith IsRunning pid s) × (code ≡ 1 → FoundWith IsLive pid s)
Fits s (Report.stopped pid) = FoundWith (λ status. Unit) pid s
Fits s (Report.continued pid) = FoundWith (λ status. Unit) pid s
Fits s (Report.signaled pid) = FoundWith IsLive pid s
Fits s Report.nothing = Unit

-- A change that ends jobs of some statuses.
abbrev EndsAll : (JobStatus → Type 0) → (Job → Job) → Type 0
EndsAll P f = (job : Job) (i : ℕ) → P job.status → job.chosen_printer ≡ some i → Ends f i job

complete_job-EndsAll : (now : ℕ) → EndsAll IsRunning (complete_job now)
unfolding complete_job
complete_job-EndsAll now job i fits chosen = go job.status refl fits
  where
    go :
        (status : JobStatus)
        → job.status ≡ status
        → IsRunning status
        → Ends (complete_job now) i job
    go JobStatus.queued e p = absurd p
    go JobStatus.running e p = rw e (chosen, refl, tt)
    go JobStatus.paused e p = absurd p
    go JobStatus.completed e p = absurd p
    go JobStatus.aborted e p = absurd p

abort_job-EndsAll : (now : ℕ) → EndsAll IsLive (abort_job now)
unfolding abort_job
abort_job-EndsAll now job i fits chosen = go job.status refl fits
  where
    go : (status : JobStatus) → job.status ≡ status → IsLive status → Ends (abort_job now) i job
    go JobStatus.queued e p = absurd p
    go JobStatus.running e p = rw e (chosen, refl, tt)
    go JobStatus.paused e p = rw e (chosen, refl, tt)
    go JobStatus.completed e p = absurd p
    go JobStatus.aborted e p = absurd p

IsRunning-IsLive : (status : JobStatus) → IsRunning status → IsLive status
IsRunning-IsLive JobStatus.queued p = p
IsRunning-IsLive JobStatus.running p = p
IsRunning-IsLive JobStatus.paused p = tt
IsRunning-IsLive JobStatus.completed p = p
IsRunning-IsLive JobStatus.aborted p = p

-- A job that is not over has a printer.
live-chosen :
    (status : JobStatus) (printer : Option ℕ) (group : ℕ)
    → IsLive status
    → Started status printer group
    → printer ≢ none
live-chosen JobStatus.queued printer group live h = absurd live
live-chosen JobStatus.running printer group live h = h.0
live-chosen JobStatus.paused printer group live h = h.0
live-chosen JobStatus.completed printer group live h = absurd live
live-chosen JobStatus.aborted printer group live h = absurd live

found-IsStarted :
    (P : JobStatus → Type 0) (pid : ℕ) (jobs : List Job)
    → AreStarted jobs
    → OnJob (λ job. P job.status) (get_job_by_pid pid jobs)
    → OnJob (λ job. P job.status × IsStarted job) (get_job_by_pid pid jobs)
unfolding get_job_by_pid
found-IsStarted P pid [] h = λ found. found
found-IsStarted P pid (x ∷ jobs) h = elim (Bool-cases (x.pgid == pid)) [
  | inl e ↦ rw e (λ found. (found, h.0))
  | inr e ↦ rw e (found-IsStarted P pid jobs h.1)
]

module _ (fork : ℕ → ℕ) (forked : IsFork fork) (now : ℕ) (s : Spooler) (h : IsSpooler s) where
  ended :
      (P : JobStatus → Type 0) (f : Job → Job) (pid : ℕ) (r : Option Job)
      → ((status : JobStatus) → P status → IsLive status)
      → EndsAll P f
      → get_job_by_pid pid s.jobs.jobs ≡ r
      → OnJob (λ job. P job.status × IsStarted job) r
      → GoesOn (finish fork now f pid s r)
  ended P f pid none live ends e found = found
  ended P f pid (some job) live ends e found = elim (Option-cases job.chosen_printer) [
    | inl e' ↦
        absurd
          (live-chosen job.status job.chosen_printer job.pgid (live job.status found.0) found.1 e')
    | inr (i, chosen) ↦
        finish-GoesOn fork forked now s h f pid i (some job) e (ends job i found.0 chosen, chosen)
  ]

  ended-by :
      (P : JobStatus → Type 0) (f : Job → Job) (pid : ℕ)
      → ((status : JobStatus) → P status → IsLive status)
      → EndsAll P f
      → FoundWith P pid s
      → GoesOn (finish fork now f pid s (get_job_by_pid pid s.jobs.jobs))
  ended-by P f pid live ends found =
      ended P f pid (get_job_by_pid pid s.jobs.jobs) live ends refl
        (found-IsStarted P pid s.jobs.jobs h.started found)

  exited-GoesOn :
      (pid code : ℕ)
      → Fits s (Report.exited pid code)
      → GoesOn (print_handler fork now (Report.exited pid code) s)
  unfolding print_handler
  exited-GoesOn pid code fits = elim (Bool-cases (code == 0)) [
    | inl z ↦ rw z (
        ended-by IsRunning (complete_job now) pid IsRunning-IsLive (complete_job-EndsAll now)
          (fits.0 (ground (arith, z))))
    | inr nz ↦ elim (Bool-cases (code == 1)) [
      | inl one ↦
          rw (nz, one)
            (ended-by IsLive (abort_job now) pid (λ status p. p) (abort_job-EndsAll now)
              (fits.1 (ground (arith, one))))
      | inr other ↦ rw (nz, other) h
    ]
  ]

-- From a spooler that is in order, where the processes of jobs have process groups other than 0, and on a
-- report of a process whose job is not over, and was running if the process ended well, `printHandler` does
-- not crash and leaves a spooler that is in order.
pub print_handler-GoesOn :
    (fork : ℕ → ℕ) (now : ℕ) (report : Report) (s : Spooler)
    → IsFork fork
    → IsSpooler s
    → Fits s report
    → GoesOn (print_handler fork now report s)
unfolding print_handler
print_handler-GoesOn fork now (Report.exited pid code) s forked h fits =
    exited-GoesOn fork forked now s h pid code fits
print_handler-GoesOn fork now (Report.stopped pid) s forked h fits =
    touch-GoesOn fork forked now s h (pause_job now) pid _ (pause_job-IsGentle now) fits
print_handler-GoesOn fork now (Report.continued pid) s forked h fits =
    touch-GoesOn fork forked now s h (resume_job now) pid _ (resume_job-IsGentle now) fits
print_handler-GoesOn fork now (Report.signaled pid) s forked h fits =
    ended-by fork forked now s h IsLive (abort_job now) pid (λ status p. p) (abort_job-EndsAll now)
      fits
print_handler-GoesOn fork now Report.nothing s forked h fits = h
