-- ===== src/Printer/Spool.antt =====
-- Jobs on printers: `getEligiblePrinter` of Printer/src/printers.c, `runJobs` and `runJob` of
-- Printer/src/jobs.c.
--
-- `fork` succeeds, and is a parameter that gives the process of a job; what the new process does is left
-- out, as are the messages. A chosen printer is its identifier.
pub mod Apart
pub mod Eligible
use mathlib.Core.Option.{Option, none, some}
use audible.Base.{
  ℕ, ◌+◌, ◌/◌, ◌%◌, ◌^◌, ◌≡◌, Bool, true, false, ◌&&◌, List, [], ◌∷◌, ◌==◌, not, if◌then◌else◌,
}
use audible.Printer.Types.{FileType, same_string, get_type, max_conversions}
use audible.Printer.Types.Paths.{Search, get_conversion_path}
use audible.Printer.Printers.{Printer, get_printer, busy_printer}
use audible.Printer.Jobs.{Job, JobStatus}

-- A printer, NULL, or a type that is not there.
pub data Choice : Type 0 where
  chosen : Printer → Choice
  nobody : Choice
  crashed : Choice

-- `printer->enabled && job->eligible_printers & (0x1 << printer->id)`
abbrev pub is_usable : Job → Printer → Bool
is_usable job printer =
    not (printer.enabled == 0) && job.eligible_printers / 2 ^ printer.id % 2 == 1

-- The first and the third loop of `getEligiblePrinter`: the first printer that passes.
unfoldable pub first_printer : (Printer → Bool) → List Printer → Option Printer
first_printer test [] = none
first_printer test (printer ∷ printers) =
    if test printer then some printer else first_printer test printers

-- The second loop: the first usable printer that conversions lead to.
unfoldable pub first_reached : List FileType → Job → List ℕ → List Printer → Choice
first_reached types job type [] = Choice.nobody
first_reached types job type (printer ∷ printers) =
    let rest = first_reached types job type printers in
    if is_usable job printer
    then elim (get_conversion_path types type printer.type max_conversions) [
      | Search.found path ↦ Choice.chosen printer
      | Search.not_found ↦ rest
      | Search.fault ↦ Choice.crashed
    ]
    else rest

abbrev pub as_choice : Option Printer → Choice
as_choice none = Choice.nobody
as_choice (some printer) = Choice.chosen printer

abbrev pub or_choice : Choice → Choice → Choice
or_choice (Choice.chosen printer) others = Choice.chosen printer
or_choice Choice.nobody others = others
or_choice Choice.crashed others = Choice.crashed

-- `getEligiblePrinter(job)`
unfoldable pub get_eligible_printer : List FileType → Job → List Printer → Choice
get_eligible_printer types job printers = elim (get_type job.file_type types) [
  | none ↦ Choice.nobody
  | some t ↦
      or_choice
        (as_choice (
          first_printer (λ p. is_usable job p && (p.busy == 0 && same_string p.type t.type))
            printers))
        (or_choice (first_reached types job t.type printers)
          (as_choice (first_printer (λ p. is_usable job p && same_string p.type t.type) printers)))
]

-- What `runJob` does with the printer that `getPrinter` finds.
unfoldable pub run_on :
    (ℕ → ℕ) → ℕ → Job → List ℕ → List Printer → Option Printer → Job × List Printer
run_on fork now job name printers none = (job, printers)
run_on fork now job name printers (some printer) =
    if not (printer.busy == 0) then (job, printers) else (
      record job {
        status = JobStatus.running;
        chosen_printer = some printer.id;
        change_time = now;
        pgid = fork job.jobid;
      },
      busy_printer name printers,
    )

-- `runJob(file, job, printername)`
unfoldable pub run_job : (ℕ → ℕ) → ℕ → Job → List ℕ → List Printer → Job × List Printer
run_job fork now job name printers = run_on fork now job name printers (get_printer name printers)

abbrev pub is_queued : JobStatus → Bool
is_queued JobStatus.queued = true
is_queued JobStatus.running = false
is_queued JobStatus.paused = false
is_queued JobStatus.completed = false
is_queued JobStatus.aborted = false

-- A turn of the loop of `runJobs`; `none` where the program crashes.
unfoldable pub turn : (ℕ → ℕ) → ℕ → Job → List Printer → Choice → Option (Job × List Printer)
turn fork now job printers (Choice.chosen printer) =
    some (run_job fork now job printer.name printers)
turn fork now job printers Choice.nobody = some (job, printers)
turn fork now job printers Choice.crashed = none

unfoldable pub turn_queued :
    List FileType → (ℕ → ℕ) → ℕ → Job → List Printer → Option (Job × List Printer)
turn_queued types fork now job printers =
    if is_queued job.status
    then turn fork now job printers (get_eligible_printer types job printers)
    else some (job, printers)

-- `runJobs()`
unfoldable pub run_jobs :
    List FileType → (ℕ → ℕ) → ℕ → List Job → List Printer → Option (List Job × List Printer)
run_jobs types fork now [] printers = some ([], printers)
run_jobs types fork now (job ∷ jobs) printers = elim (turn_queued types fork now job printers) [
  | none ↦ none
  | some (job', printers1) ↦ elim (run_jobs types fork now jobs printers1) [
    | none ↦ none
    | some (jobs', printers2) ↦ some (job' ∷ jobs', printers2)
  ]
]
