-- ===== src/Printer/Tests.antt =====
-- Concrete runs of the theorems on Printer/src.
pub mod Spooling
pub mod Sessions
use mathlib.Core.Option.{some, none}
use audible.Base.{ℕ, ◌+◌, ◌≡◌, refl, true, List, [], ◌∷◌, arith}
use audible.Printer.Printers.{Printer}
use audible.Printer.Jobs.{Job, JobStatus, JobList, new_job, is_over, remove_jobs}
use audible.Printer.Jobs.States.{Operation, acts, acts_over}
use audible.Printer.Jobs.Removal.{kept, AreDistinct, IsJobList, remove_jobs-kept, new_job-IsJobList}

abbrev job : ℕ → JobStatus → Job
job id status = record {
  jobid = id;
  status = status;
  pgid = 100 + id;
  file_name = b'a' ∷ [];
  file_type = b'b' ∷ [];
  eligible_printers = 1;
  chosen_printer = none;
  creation_time = 0;
  change_time = 10;
}

abbrev two_jobs : List Job
two_jobs = job 0 JobStatus.completed ∷ job 1 JobStatus.running ∷ []

two_jobs-AreDistinct : AreDistinct two_jobs
two_jobs-AreDistinct = ((λ e. absurd (omega arith), tt), (tt, tt))

remove_jobs-kept_example : remove_jobs 70 two_jobs ≡ kept 70 two_jobs
remove_jobs-kept_example = remove_jobs-kept 70 two_jobs two_jobs-AreDistinct

abbrev spool : JobList
spool = record { jobs = two_jobs; index = 2 }

spool-IsJobList : IsJobList spool
spool-IsJobList = record {
  distinct = two_jobs-AreDistinct;
  below = (omega arith, (omega arith, tt));
}

completed_is_over : is_over JobStatus.completed ≡ true
unfolding is_over
completed_is_over = refl

abbrev printer : ℕ → List ℕ → Printer
printer id name = record { id = id; name = name; type = b'b' ∷ []; enabled = 0; busy = 0 }

abbrev two_printers : List Printer
two_printers = printer 0 (b'x' ∷ []) ∷ printer 1 (b'y' ∷ []) ∷ []
