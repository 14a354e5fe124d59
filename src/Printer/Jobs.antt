-- ===== src/Printer/Jobs.antt =====
-- The job list and the states of a job: Printer/src/jobs.c without the processes that it starts.
--
-- The list behind `job_head` is a list. A time is a number of seconds, and allocation succeeds. What the
-- functions print is left out.
pub mod States
pub mod Removal
use mathlib.Core.Option.{Option, none, some}
use audible.Base.{
  ℕ, zero, suc, ◌+◌, ◌≡◌, Bool, true, false, ◌&&◌, ◌||◌, List, [], ◌∷◌, ◌++◌, leb, ◌==◌,
  if◌then◌else◌, add32,
}

pub data JobStatus : Type 0 where
  queued : JobStatus
  running : JobStatus
  paused : JobStatus
  completed : JobStatus
  aborted : JobStatus

pub record Job : Type 0 where
  pub jobid : ℕ
  pub status : JobStatus
  pub pgid : ℕ
  pub file_name : List ℕ
  pub file_type : List ℕ
  pub eligible_printers : ℕ
  pub chosen_printer : Option ℕ
  pub creation_time : ℕ
  pub change_time : ℕ

-- The jobs, and the static `index` of `newJob`.
pub record JobList : Type 0 where
  pub jobs : List Job
  pub index : ℕ

unfoldable pub add_job : Job → List Job → List Job
add_job job [] = job ∷ []
add_job job (first ∷ jobs) = first ∷ add_job job jobs

-- `newJob(name, type, pgid, set)` at the time `now`: the job added, if any, and the list.
unfoldable pub new_job :
    Option (List ℕ) → Option (List ℕ) → ℕ → ℕ → ℕ → JobList → Option Job × JobList
unfolding add_job
new_job none type pgid set now l = (none, l)
new_job (some name) none pgid set now l = (none, l)
new_job (some name) (some type) pgid set now l =
    if set == 0
    then (none, l)
    else (let job : Job = record {
      jobid = l.index;
      status = JobStatus.queued;
      pgid = pgid;
      file_name = name;
      file_type = type;
      eligible_printers = set;
      chosen_printer = none;
      creation_time = now;
      change_time = now;
    } in
        (some job, record { jobs = add_job job l.jobs; index = add32 l.index 1 }))

unfoldable pub get_job_by_pid : ℕ → List Job → Option Job
get_job_by_pid pid [] = none
get_job_by_pid pid (job ∷ jobs) = if job.pgid == pid then some job else get_job_by_pid pid jobs

unfoldable pub get_job_by_id : ℕ → List Job → Option Job
get_job_by_id id [] = none
get_job_by_id id (job ∷ jobs) = if job.jobid == id then some job else get_job_by_id id jobs

-- `removeJob(job)` for a job with the given `jobid`.
unfoldable pub remove_job : ℕ → List Job → List Job
remove_job id [] = []
remove_job id (job ∷ jobs) = if job.jobid == id then jobs else job ∷ remove_job id jobs

unfoldable pub is_over : JobStatus → Bool
is_over JobStatus.queued = false
is_over JobStatus.running = false
is_over JobStatus.paused = false
is_over JobStatus.completed = true
is_over JobStatus.aborted = true

-- A job that has been over for a minute.
pub is_expired : ℕ → Job → Bool
unfolding is_over
is_expired now job = is_over job.status && leb (job.change_time + 60) now

-- The loop of `removeJobs` over the nodes that it passes, on the list as it is by then. A node that is
-- taken off keeps its link.
unfoldable pub remove_jobs_loop : ℕ → List Job → List Job → List Job
unfolding is_expired remove_job
remove_jobs_loop now [] jobs = jobs
remove_jobs_loop now (current ∷ nodes) jobs =
    remove_jobs_loop now nodes
      (if is_expired now current then remove_job current.jobid jobs else jobs)

unfoldable pub remove_jobs : ℕ → List Job → List Job
unfolding remove_jobs_loop
remove_jobs now jobs = remove_jobs_loop now jobs jobs

-- The new status and its time.
abbrev pub changed : JobStatus → ℕ → Job → Job
changed status now job = record job { status = status; change_time = now }

unfoldable pub pause_job : ℕ → Job → Job
pause_job now job = elim job.status [
  | JobStatus.running ↦ changed JobStatus.paused now job
  | _ ↦ job
]

unfoldable pub resume_job : ℕ → Job → Job
resume_job now job = elim job.status [
  | JobStatus.paused ↦ changed JobStatus.running now job
  | _ ↦ job
]

unfoldable pub complete_job : ℕ → Job → Job
complete_job now job = elim job.status [
  | JobStatus.running ↦ changed JobStatus.completed now job
  | _ ↦ job
]

unfoldable pub abort_job : ℕ → Job → Job
abort_job now job = elim job.status [
  | JobStatus.running ↦ changed JobStatus.aborted now job
  | JobStatus.paused ↦ changed JobStatus.aborted now job
  | _ ↦ job
]
