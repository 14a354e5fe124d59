-- ===== src/Printer/Invariant.antt =====
-- What holds of the spooler between two commands.
pub mod Jobs
pub mod Changed
pub mod Added
pub mod Runs
pub mod Waiting
pub mod Commands
pub mod Endings
pub mod Handling
pub mod Sessions
pub mod Signals
pub mod Scripts
use mathlib.Core.Option.{Option, none, some}
use audible.Base.{ℕ, ◌≤◌, ◌<◌, ◌≡◌, ◌≢◌, true, List, [], ◌∷◌}
use audible.Printer.Types.Closed.{IsClosed}
use audible.Printer.Printers.Fleet.{IsFleet}
use audible.Printer.Jobs.{Job, JobStatus}
use audible.Printer.Spool.Apart.{IsSpool}
use audible.Printer.Console.{Spooler}

-- A job that is running or paused has a printer, and a process group that is not the spooler's.
abbrev pub Started : JobStatus → Option ℕ → ℕ → Type 0
Started JobStatus.queued printer group = Unit
Started JobStatus.running printer group = (printer ≢ none) × (group ≢ 0)
Started JobStatus.paused printer group = (printer ≢ none) × (group ≢ 0)
Started JobStatus.completed printer group = Unit
Started JobStatus.aborted printer group = Unit

abbrev pub IsStarted : Job → Type 0
IsStarted job = Started job.status job.chosen_printer job.pgid

abbrev pub AreStarted : List Job → Type 0
AreStarted [] = Unit
AreStarted (job ∷ jobs) = IsStarted job × AreStarted jobs

pub record IsSpooler (s : Spooler) : Type 0 where
  pub closed : IsClosed s.types
  pub spool : IsSpool s.jobs.jobs s.printers.printers
  pub fleet : IsFleet s.printers.index s.printers.printers
  pub few : s.printers.index ≤ 32
  pub started : AreStarted s.jobs.jobs
