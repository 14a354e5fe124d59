-- ===== src/Printer/Invariant/Changed.antt =====
-- A change to the job of a process.
use mathlib.Core.Option.{Option, none, some}
use audible.Base.{ℕ, ◌≡◌, refl, ◌∙◌, sym, inl, inr, Bool-cases, List, [], ◌∷◌, ◌==◌}
use audible.Printer.Printers.{Printer}
use audible.Printer.Jobs.{Job, JobStatus, get_job_by_pid, pause_job, resume_job}
use audible.Printer.Spool.Apart.{holder, NotHeld, AreServed, AreApart}
use audible.Printer.Session.{change_job}
use audible.Printer.Invariant.{IsStarted, AreStarted}
use audible.Printer.Invariant.Jobs.{IsQueue}

abbrev pub OnJob : (Job → Type 0) → Option Job → Type 0
OnJob P none = ⊥
OnJob P (some job) = P job

-- A change that leaves the job its printer and its process.
abbrev pub IsGentle : (Job → Job) → Type 0
IsGentle f = (job : Job) → (holder (f job) ≡ holder job) × (IsStarted job → IsStarted (f job))

pub pause_job-IsGentle : (now : ℕ) → IsGentle (pause_job now)
unfolding pause_job
pause_job-IsGentle now job = go job.status refl
  where
    go :
        (status : JobStatus)
        → job.status ≡ status
        → (holder (pause_job now job) ≡ holder job)
          × (IsStarted job → IsStarted (pause_job now job))
    go JobStatus.queued e = rw e (refl, λ h. h)
    go JobStatus.running e = rw e (refl, λ h. h)
    go JobStatus.paused e = rw e (refl, λ h. h)
    go JobStatus.completed e = rw e (refl, λ h. h)
    go JobStatus.aborted e = rw e (refl, λ h. h)

pub resume_job-IsGentle : (now : ℕ) → IsGentle (resume_job now)
unfolding resume_job
resume_job-IsGentle now job = go job.status refl
  where
    go :
        (status : JobStatus)
        → job.status ≡ status
        → (holder (resume_job now job) ≡ holder job)
          × (IsStarted job → IsStarted (resume_job now job))
    go JobStatus.queued e = rw e (refl, λ h. h)
    go JobStatus.running e = rw e (refl, λ h. h)
    go JobStatus.paused e = rw e (refl, λ h. h)
    go JobStatus.completed e = rw e (refl, λ h. h)
    go JobStatus.aborted e = rw e (refl, λ h. h)

module _ (f : Job → Job) (gentle : IsGentle f) (pid : ℕ) where
  NotHeld-gentle : (i : ℕ) (jobs : List Job) → NotHeld i jobs → NotHeld i (change_job f pid jobs)
  unfolding change_job
  NotHeld-gentle i [] h = h
  NotHeld-gentle i (x ∷ jobs) h = elim (Bool-cases (x.pgid == pid)) [
    | inl e ↦ rw e ((λ held. h.0 (sym (gentle x).0 ∙ held)), h.1)
    | inr e ↦ rw e (h.0, NotHeld-gentle i jobs h.1)
  ]

  AreServed-gentle :
      (jobs : List Job) (printers : List Printer)
      → AreServed jobs printers
      → AreServed (change_job f pid jobs) printers
  unfolding change_job
  AreServed-gentle [] printers h = h
  AreServed-gentle (x ∷ jobs) printers h = elim (Bool-cases (x.pgid == pid)) [
    | inl e ↦ rw e ((λ i held. h.0 i (sym (gentle x).0 ∙ held)), h.1)
    | inr e ↦ rw e (h.0, AreServed-gentle jobs printers h.1)
  ]

  AreApart-gentle : (jobs : List Job) → AreApart jobs → AreApart (change_job f pid jobs)
  unfolding change_job
  AreApart-gentle [] h = h
  AreApart-gentle (x ∷ jobs) h = elim (Bool-cases (x.pgid == pid)) [
    | inl e ↦ rw e ((λ i held. h.0 i (sym (gentle x).0 ∙ held)), h.1)
    | inr e ↦ rw e ((λ i held. NotHeld-gentle i jobs (h.0 i held)), AreApart-gentle jobs h.1)
  ]

  AreStarted-gentle : (jobs : List Job) → AreStarted jobs → AreStarted (change_job f pid jobs)
  unfolding change_job
  AreStarted-gentle [] h = h
  AreStarted-gentle (x ∷ jobs) h = elim (Bool-cases (x.pgid == pid)) [
    | inl e ↦ rw e ((gentle x).1 h.0, h.1)
    | inr e ↦ rw e (h.0, AreStarted-gentle jobs h.1)
  ]

  pub change_job-IsQueue :
      (jobs : List Job) (printers : List Printer)
      → IsQueue jobs printers
      → IsQueue (change_job f pid jobs) printers
  change_job-IsQueue jobs printers h = record {
    spool = record {
      numbered = h.spool.numbered;
      served = AreServed-gentle jobs printers h.spool.served;
      apart = AreApart-gentle jobs h.spool.apart;
    };
    started = AreStarted-gentle jobs h.started;
  }

-- A change that ends a job which holds the printer `i`.
abbrev pub Ends : (Job → Job) → ℕ → Job → Type 0
Ends f i job = (holder job ≡ some i) × (holder (f job) ≡ none) × IsStarted (f job)

module _ (f : Job → Job) (pid i : ℕ) where
  NotHeld-found :
      (jobs : List Job) → NotHeld i jobs → OnJob (Ends f i) (get_job_by_pid pid jobs) → ⊥
  unfolding get_job_by_pid
  NotHeld-found [] h = λ found. found
  NotHeld-found (x ∷ jobs) h = elim (Bool-cases (x.pgid == pid)) [
    | inl e ↦ rw e (λ found. h.0 found.0)
    | inr e ↦ rw e (NotHeld-found jobs h.1)
  ]

  NotHeld-ended :
      (k : ℕ) (jobs : List Job)
      → NotHeld k jobs
      → OnJob (Ends f i) (get_job_by_pid pid jobs)
      → NotHeld k (change_job f pid jobs)
  unfolding change_job get_job_by_pid
  NotHeld-ended k [] h = λ found. absurd found
  NotHeld-ended k (x ∷ jobs) h = elim (Bool-cases (x.pgid == pid)) [
    | inl e ↦ rw e (λ found. ((λ held. cc (held, found.1)), h.1))
    | inr e ↦ rw e (λ found. (h.0, NotHeld-ended k jobs h.1 found))
  ]

  -- No job holds the printer after the end of the one that did.
  pub change_job-NotHeld :
      (jobs : List Job)
      → AreApart jobs
      → OnJob (Ends f i) (get_job_by_pid pid jobs)
      → NotHeld i (change_job f pid jobs)
  unfolding change_job get_job_by_pid
  change_job-NotHeld [] h = λ found. absurd found
  change_job-NotHeld (x ∷ jobs) h = elim (Bool-cases (x.pgid == pid)) [
    | inl e ↦ rw e (λ found. ((λ held. cc (held, found.1)), h.0 i found.0))
    | inr e ↦ rw e (λ found.
        ((λ held. NotHeld-found jobs (h.0 i held) found), change_job-NotHeld jobs h.1 found))
  ]

  AreApart-ended :
      (jobs : List Job)
      → AreApart jobs
      → OnJob (Ends f i) (get_job_by_pid pid jobs)
      → AreApart (change_job f pid jobs)
  unfolding change_job get_job_by_pid
  AreApart-ended [] h = λ found. absurd found
  AreApart-ended (x ∷ jobs) h = elim (Bool-cases (x.pgid == pid)) [
    | inl e ↦ rw e (λ found. ((λ k held. absurd (cc (held, found.1))), h.1))
    | inr e ↦ rw e (λ found.
        ((λ k held. NotHeld-ended k jobs (h.0 k held) found), AreApart-ended jobs h.1 found))
  ]

  AreServed-ended :
      (jobs : List Job) (printers : List Printer)
      → AreServed jobs printers
      → OnJob (Ends f i) (get_job_by_pid pid jobs)
      → AreServed (change_job f pid jobs) printers
  unfolding change_job get_job_by_pid
  AreServed-ended [] printers h = λ found. absurd found
  AreServed-ended (x ∷ jobs) printers h = elim (Bool-cases (x.pgid == pid)) [
    | inl e ↦ rw e (λ found. ((λ k held. absurd (cc (held, found.1))), h.1))
    | inr e ↦ rw e (λ found. (h.0, AreServed-ended jobs printers h.1 found))
  ]

  AreStarted-ended :
      (jobs : List Job)
      → AreStarted jobs
      → OnJob (Ends f i) (get_job_by_pid pid jobs)
      → AreStarted (change_job f pid jobs)
  unfolding change_job get_job_by_pid
  AreStarted-ended [] h = λ found. absurd found
  AreStarted-ended (x ∷ jobs) h = elim (Bool-cases (x.pgid == pid)) [
    | inl e ↦ rw e (λ found. (found.2, h.1))
    | inr e ↦ rw e (λ found. (h.0, AreStarted-ended jobs h.1 found))
  ]

  pub change_job-ended :
      (jobs : List Job) (printers : List Printer)
      → IsQueue jobs printers
      → OnJob (Ends f i) (get_job_by_pid pid jobs)
      → IsQueue (change_job f pid jobs) printers
  change_job-ended jobs printers h found = record {
    spool = record {
      numbered = h.spool.numbered;
      served = AreServed-ended jobs printers h.spool.served found;
      apart = AreApart-ended jobs h.spool.apart found;
    };
    started = AreStarted-ended jobs h.started found;
  }
