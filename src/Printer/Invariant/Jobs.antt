-- ===== src/Printer/Invariant/Jobs.antt =====
-- Taking jobs off the list, and adding one.
use audible.Base.{ℕ, ◌≡◌, ◌≢◌, inl, inr, Bool-cases, List, [], ◌∷◌, ◌==◌}
use mathlib.Core.Option.{some}
use audible.Printer.Printers.{Printer}
use audible.Printer.Printers.Busy.{IsBusy, AreNumbered}
use audible.Printer.Jobs.{Job, add_job, remove_job, is_expired, remove_jobs_loop, remove_jobs}
use audible.Printer.Spool.Apart.{
  holder, NotHeld, AreServed, AreApart, Keeps, IsSpool, AreServed-Keeps,
}
use audible.Printer.Invariant.{IsStarted, AreStarted}

-- What holds of the jobs with the printers.
pub record IsQueue (jobs : List Job) (printers : List Printer) : Type 0 where
  pub spool : IsSpool jobs printers
  pub started : AreStarted jobs

NotHeld-remove : (i id : ℕ) (jobs : List Job) → NotHeld i jobs → NotHeld i (remove_job id jobs)
unfolding remove_job
NotHeld-remove i id [] h = h
NotHeld-remove i id (job ∷ jobs) h = elim (Bool-cases (job.jobid == id)) [
  | inl e ↦ rw e h.1
  | inr e ↦ rw e (h.0, NotHeld-remove i id jobs h.1)
]

AreServed-remove :
    (id : ℕ) (jobs : List Job) (printers : List Printer)
    → AreServed jobs printers
    → AreServed (remove_job id jobs) printers
unfolding remove_job
AreServed-remove id [] printers h = h
AreServed-remove id (job ∷ jobs) printers h = elim (Bool-cases (job.jobid == id)) [
  | inl e ↦ rw e h.1
  | inr e ↦ rw e (h.0, AreServed-remove id jobs printers h.1)
]

AreApart-remove : (id : ℕ) (jobs : List Job) → AreApart jobs → AreApart (remove_job id jobs)
unfolding remove_job
AreApart-remove id [] h = h
AreApart-remove id (job ∷ jobs) h = elim (Bool-cases (job.jobid == id)) [
  | inl e ↦ rw e h.1
  | inr e ↦ rw e ((λ i held. NotHeld-remove i id jobs (h.0 i held)), AreApart-remove id jobs h.1)
]

AreStarted-remove : (id : ℕ) (jobs : List Job) → AreStarted jobs → AreStarted (remove_job id jobs)
unfolding remove_job
AreStarted-remove id [] h = h
AreStarted-remove id (job ∷ jobs) h = elim (Bool-cases (job.jobid == id)) [
  | inl e ↦ rw e h.1
  | inr e ↦ rw e (h.0, AreStarted-remove id jobs h.1)
]

remove_job-IsQueue :
    (id : ℕ) (jobs : List Job) (printers : List Printer)
    → IsQueue jobs printers
    → IsQueue (remove_job id jobs) printers
remove_job-IsQueue id jobs printers h = record {
  spool = record {
    numbered = h.spool.numbered;
    served = AreServed-remove id jobs printers h.spool.served;
    apart = AreApart-remove id jobs h.spool.apart;
  };
  started = AreStarted-remove id jobs h.started;
}

remove_jobs_loop-IsQueue :
    (now : ℕ) (nodes jobs : List Job) (printers : List Printer)
    → IsQueue jobs printers
    → IsQueue (remove_jobs_loop now nodes jobs) printers
unfolding remove_jobs_loop
remove_jobs_loop-IsQueue now [] jobs printers h = h
remove_jobs_loop-IsQueue now (node ∷ nodes) jobs printers h =
    elim (Bool-cases (is_expired now node)) [
      | inl e ↦ rw e (
          remove_jobs_loop-IsQueue now nodes (remove_job node.jobid jobs) printers
            (remove_job-IsQueue node.jobid jobs printers h))
      | inr e ↦ rw e (remove_jobs_loop-IsQueue now nodes jobs printers h)
    ]

pub remove_jobs-IsQueue :
    (now : ℕ) (jobs : List Job) (printers : List Printer)
    → IsQueue jobs printers
    → IsQueue (remove_jobs now jobs) printers
unfolding remove_jobs
remove_jobs-IsQueue now jobs printers h = remove_jobs_loop-IsQueue now jobs jobs printers h

module _ (job : Job) where
  NotHeld-add :
      (i : ℕ) (jobs : List Job)
      → holder job ≢ some i
      → NotHeld i jobs
      → NotHeld i (add_job job jobs)
  unfolding add_job
  NotHeld-add i [] hj h = (hj, tt)
  NotHeld-add i (x ∷ jobs) hj h = (h.0, NotHeld-add i jobs hj h.1)

  AreServed-add :
      (jobs : List Job) (printers : List Printer)
      → ((i : ℕ) → holder job ≡ some i → IsBusy i printers)
      → AreServed jobs printers
      → AreServed (add_job job jobs) printers
  unfolding add_job
  AreServed-add [] printers hj h = (hj, tt)
  AreServed-add (x ∷ jobs) printers hj h = (h.0, AreServed-add jobs printers hj h.1)

  -- The printer of the new job was idle before.
  AreApart-add :
      (jobs : List Job) (printers : List Printer)
      → ((i : ℕ) → holder job ≡ some i → IsBusy i printers → ⊥)
      → AreServed jobs printers
      → AreApart jobs
      → AreApart (add_job job jobs)
  unfolding add_job
  AreApart-add [] printers new served h = ((λ i e. tt), tt)
  AreApart-add (x ∷ jobs) printers new served h = (
    λ i e. NotHeld-add i jobs (λ e'. new i e' (served.0 i e)) (h.0 i e),
    AreApart-add jobs printers new served.1 h.1,
  )

  AreStarted-add :
      (jobs : List Job) → IsStarted job → AreStarted jobs → AreStarted (add_job job jobs)
  unfolding add_job
  AreStarted-add [] hj h = (hj, tt)
  AreStarted-add (x ∷ jobs) hj h = (h.0, AreStarted-add jobs hj h.1)

-- A new job, which holds no printer or one that was idle.
pub add_job-IsQueue :
    (job : Job) (jobs : List Job) (printers printers' : List Printer)
    → AreNumbered printers'
    → Keeps printers printers'
    → ((i : ℕ) → holder job ≡ some i → IsBusy i printers' × (IsBusy i printers → ⊥))
    → IsStarted job
    → IsQueue jobs printers
    → IsQueue (add_job job jobs) printers'
add_job-IsQueue job jobs printers printers' numbered kept taken started h = record {
  spool = record {
    numbered = numbered;
    served =
        AreServed-add job jobs printers' (λ i e. (taken i e).0)
          (AreServed-Keeps jobs printers printers' kept h.spool.served);
    apart = AreApart-add job jobs printers (λ i e. (taken i e).1) h.spool.served h.spool.apart;
  };
  started = AreStarted-add job jobs started h.started;
}
