-- ===== src/Printer/Jobs/Removal.antt =====
-- The identifiers of the jobs are distinct, and `removeJobs` takes off exactly the expired jobs.
use mathlib.Core.Option.{Option, none, some}
use audible.Base.{
  ℕ, ◌+◌, ◌<◌, ◌≡◌, ◌≢◌, ◌^◌, refl, ◌∙◌, ap, sym, false, Bool-cases, inl, inr, List, [], ◌∷◌, arith,
  ◌==◌, if◌then◌else◌, add32,
}
use audible.Printer.Jobs.{
  Job, JobList, add_job, new_job, remove_job, is_expired, remove_jobs_loop, remove_jobs,
}

-- No job of the list has the identifier `id`.
abbrev pub Absent : ℕ → List Job → Type 0
Absent id [] = Unit
Absent id (job ∷ jobs) = (job.jobid ≢ id) × Absent id jobs

abbrev pub AreDistinct : List Job → Type 0
AreDistinct [] = Unit
AreDistinct (job ∷ jobs) = Absent job.jobid jobs × AreDistinct jobs

-- The jobs that have not expired.
abbrev pub kept : ℕ → List Job → List Job
kept now [] = []
kept now (job ∷ jobs) = if is_expired now job then kept now jobs else job ∷ kept now jobs

abbrev append : List Job → List Job → List Job
append [] ys = ys
append (x ∷ xs) ys = x ∷ append xs ys

remove_job-Absent :
    (id : ℕ) (xs : List Job) (job : Job) (ys : List Job)
    → Absent id xs
    → job.jobid ≡ id
    → remove_job id (append xs (job ∷ ys)) ≡ append xs ys
unfolding remove_job
remove_job-Absent id [] job ys h e = ground (arith, e)
remove_job-Absent id (x ∷ xs) job ys h e =
    let rest = remove_job-Absent id xs job ys h.1 e in
    let other : (x.jobid == id) ≡ false = ground (arith, h.0) in rw other (ap (λ l. x ∷ l) rest)

Absent-append : (id : ℕ) (xs ys : List Job) → Absent id xs → Absent id ys → Absent id (append xs ys)
Absent-append id [] ys h k = k
Absent-append id (x ∷ xs) ys h k = (h.0, Absent-append id xs ys h.1 k)

append_snoc :
    (xs : List Job) (y : Job) (ys : List Job) → append (append xs (y ∷ [])) ys ≡ append xs (y ∷ ys)
append_snoc [] y ys = refl
append_snoc (x ∷ xs) y ys = ap (λ l. x ∷ l) (append_snoc xs y ys)

-- No job of the first list shares its identifier with one of the second.
abbrev Apart : List Job → List Job → Type 0
Apart xs [] = Unit
Apart xs (y ∷ ys) = Absent y.jobid xs × Apart xs ys

Apart-snoc :
    (xs : List Job) (y : Job) (ys : List Job)
    → Apart xs ys
    → Absent y.jobid ys
    → Apart (append xs (y ∷ [])) ys
Apart-snoc xs y [] h k = tt
Apart-snoc xs y (z ∷ ys) h k =
    (Absent-append z.jobid xs (y ∷ []) h.0 (λ e. k.0 (sym e), tt), Apart-snoc xs y ys h.1 k.1)

remove_jobs_loop-kept :
    (now : ℕ) (xs ys : List Job)
    → Apart xs ys
    → AreDistinct ys
    → remove_jobs_loop now ys (append xs ys) ≡ append xs (kept now ys)
unfolding remove_jobs_loop
remove_jobs_loop-kept now xs [] h d = refl
remove_jobs_loop-kept now xs (y ∷ ys) h d = elim (Bool-cases (is_expired now y)) [
  | inl e ↦ rw e (
      ap (remove_jobs_loop now ys) (remove_job-Absent y.jobid xs y ys h.0 refl)
      ∙ remove_jobs_loop-kept now xs ys h.1 d.1)
  | inr e ↦ rw e (
      ap (remove_jobs_loop now ys) (sym (append_snoc xs y ys))
      ∙ remove_jobs_loop-kept now (append xs (y ∷ [])) ys (Apart-snoc xs y ys h.1 d.0) d.1
      ∙ append_snoc xs y (kept now ys))
]

Apart-nil : (ys : List Job) → Apart [] ys
Apart-nil [] = tt
Apart-nil (y ∷ ys) = (tt, Apart-nil ys)

-- With distinct identifiers `removeJobs` takes off exactly the jobs that have been completed or aborted
-- for a minute, though it changes the list that it walks over.
pub remove_jobs-kept :
    (now : ℕ) (jobs : List Job) → AreDistinct jobs → remove_jobs now jobs ≡ kept now jobs
unfolding remove_jobs
remove_jobs-kept now jobs d = remove_jobs_loop-kept now [] jobs (Apart-nil jobs) d

-- The list of jobs is in order: the identifiers are distinct, and below the next one.
abbrev pub AreBelow : ℕ → List Job → Type 0
AreBelow n [] = Unit
AreBelow n (job ∷ jobs) = (job.jobid < n) × AreBelow n jobs

pub record IsJobList (l : JobList) : Type 0 where
  pub distinct : AreDistinct l.jobs
  pub below : AreBelow l.index l.jobs

Absent-add :
    (id : ℕ) (job : Job) (jobs : List Job)
    → job.jobid ≢ id
    → Absent id jobs
    → Absent id (add_job job jobs)
unfolding add_job
Absent-add id job [] hn h = (hn, tt)
Absent-add id job (x ∷ jobs) hn h = (h.0, Absent-add id job jobs hn h.1)

AreDistinct-add :
    (n : ℕ) (job : Job) (jobs : List Job)
    → job.jobid ≡ n
    → AreBelow n jobs
    → AreDistinct jobs
    → AreDistinct (add_job job jobs)
unfolding add_job
AreDistinct-add n job [] e b d = (tt, tt)
AreDistinct-add n job (x ∷ jobs) e b d = (
  Absent-add x.jobid job jobs (λ h. omega (arith, h, e, b.0)) d.0,
  AreDistinct-add n job jobs e b.1 d.1,
)

AreBelow-add :
    (n : ℕ) (job : Job) (jobs : List Job)
    → job.jobid ≡ n
    → AreBelow n jobs
    → AreBelow (n + 1) (add_job job jobs)
unfolding add_job
AreBelow-add n job [] e b = (omega arith, tt)
AreBelow-add n job (x ∷ jobs) e b = (omega (arith, b.0), AreBelow-add n job jobs e b.1)

-- `newJob` keeps the identifiers distinct, until the counter would wrap around.
pub new_job-IsJobList :
    (name type : Option (List ℕ)) (pgid set now : ℕ) (l : JobList)
    → l.index + 1 < 2 ^ 32
    → IsJobList l
    → IsJobList (new_job name type pgid set now l).1
unfolding new_job
new_job-IsJobList none type pgid set now l hi h = h
new_job-IsJobList (some name) none pgid set now l hi h = h
new_job-IsJobList (some name) (some type) pgid set now l hi h = elim (Bool-cases (set == 0)) [
  | inl e ↦ rw e h
  | inr e ↦
      let next : add32 l.index 1 ≡ l.index + 1 = ground arith in
      rw (e, next)
        (record {
          distinct = AreDistinct-add l.index _ l.jobs refl h.below h.distinct;
          below = AreBelow-add l.index _ l.jobs refl h.below;
        })
]
