-- ===== src/Printer/Session.antt =====
-- A session of the spooler: `printHandler`, the loop of `main`, `batchMode` and `getFlag` of
-- Printer/src/main.c.
--
-- The handler runs between two commands, not inside of one. The status that `waitpid` gives is taken
-- apart already. Files and what is printed are left out: a script is what `fopen` and `fgets` give for it.
use mathlib.Core.Option.{Option, none, some}
use audible.Base.{
  ℕ, zero, suc, ◌-◌, Bool, List, [], ◌∷◌, ◌++◌, ◌==◌, leb, ltb, if◌then◌else◌, length,
}
use audible.Printer.Words.{strtok, newline}
use audible.Printer.Types.{same_string}
use audible.Printer.Printers.{Printer, printer_at, free_printer}
use audible.Printer.Jobs.{
  Job, get_job_by_pid, remove_jobs, pause_job, resume_job, complete_job, abort_job,
}
use audible.Printer.Spool.{run_jobs}
use audible.Printer.Console.{Spooler, Signal, Outcome, run_command}

-- What `waitpid` reports of a process; `nothing` where its status fits none of the tests.
pub data Report : Type 0 where
  exited : ℕ → ℕ → Report
  stopped : ℕ → Report
  continued : ℕ → Report
  signaled : ℕ → Report
  nothing : Report

-- A change to the job that `getJobByPID` finds.
unfoldable pub change_job : (Job → Job) → ℕ → List Job → List Job
change_job f pid [] = []
change_job f pid (job ∷ jobs) =
    if job.pgid == pid then f job ∷ jobs else job ∷ change_job f pid jobs

abbrev pub free_at : Option Printer → List Printer → Option (List Printer)
free_at none printers = none
free_at (some printer) printers = some (free_printer printer.name printers)

-- `freePrinter(job->chosen_printer->name)`; `none` where the pointer is NULL.
abbrev pub free_chosen : Option ℕ → List Printer → Option (List Printer)
free_chosen none printers = none
free_chosen (some id) printers = free_at (printer_at id printers) printers

abbrev pub with_ran : Spooler → Option (List Job × List Printer) → Option Spooler
with_ran s none = none
with_ran s (some (jobs, printers)) = some (record s {
  printers = record s.printers { printers = printers };
  jobs = record s.jobs { jobs = jobs };
})

-- `runJobs()` on the whole state.
unfoldable pub run_all : (ℕ → ℕ) → ℕ → Spooler → Option Spooler
run_all fork now s = with_ran s (run_jobs s.types fork now s.jobs.jobs s.printers.printers)

abbrev pub with_freed : (ℕ → ℕ) → ℕ → Spooler → List Job → Option (List Printer) → Option Spooler
with_freed fork now s jobs none = none
with_freed fork now s jobs (some printers) = run_all fork now (record s {
  printers = record s.printers { printers = printers };
  jobs = record s.jobs { jobs = jobs };
})

-- The end of a process, with the change of its job; `none` where the program crashes.
abbrev pub finish : (ℕ → ℕ) → ℕ → (Job → Job) → ℕ → Spooler → Option Job → Option Spooler
finish fork now f pid s none = none
finish fork now f pid s (some job) =
    with_freed fork now s (change_job f pid s.jobs.jobs)
      (free_chosen job.chosen_printer s.printers.printers)

abbrev pub touch : (Job → Job) → ℕ → Spooler → Option Job → Option Spooler
touch f pid s none = none
touch f pid s (some job) =
    some (record s { jobs = record s.jobs { jobs = change_job f pid s.jobs.jobs } })

-- `printHandler(SIGCHLD)`
unfoldable pub print_handler : (ℕ → ℕ) → ℕ → Report → Spooler → Option Spooler
print_handler fork now (Report.exited pid code) s =
    if code == 0
    then finish fork now (complete_job now) pid s (get_job_by_pid pid s.jobs.jobs)
    else if code == 1
    then finish fork now (abort_job now) pid s (get_job_by_pid pid s.jobs.jobs)
    else some s
print_handler fork now (Report.stopped pid) s =
    touch (pause_job now) pid s (get_job_by_pid pid s.jobs.jobs)
print_handler fork now (Report.continued pid) s =
    touch (resume_job now) pid s (get_job_by_pid pid s.jobs.jobs)
print_handler fork now (Report.signaled pid) s =
    finish fork now (abort_job now) pid s (get_job_by_pid pid s.jobs.jobs)
print_handler fork now Report.nothing s = some s

-- `removeJobs()` on the whole state.
abbrev pub remove_all : ℕ → Spooler → Spooler
remove_all now s = record s { jobs = record s.jobs { jobs = remove_jobs now s.jobs.jobs } }

abbrev pub tidy : List (ℕ × Signal) → ℕ → Option Spooler → Outcome
tidy signal now none = Outcome.crashes
tidy signal now (some s) = Outcome.continues signal (remove_all now s)

-- What the loop of `main` does after a command.
abbrev pub after_command : (ℕ → ℕ) → ℕ → Outcome → Outcome
after_command fork now (Outcome.continues signal s) = tidy signal now (run_all fork now s)
after_command fork now (Outcome.exits code) = Outcome.exits code
after_command fork now Outcome.crashes = Outcome.crashes

-- A turn of the loop of `main` on a line, or on the end of the input.
unfoldable pub main_turn : (ℕ → ℕ) → ℕ → Option (List ℕ) → Spooler → Outcome
main_turn fork now none s = Outcome.exits 0
main_turn fork now (some input) s = after_command fork now (run_command fork now input s)

-- `fgets(line, max_chars, script)`: the line with its end, or as much of it as there is room for, and the
-- script behind it.
abbrev pub max_chars : ℕ
max_chars = 255

unfoldable pub fgets : ℕ → List ℕ → List ℕ × List ℕ
fgets zero script = ([], script)
fgets (suc room) [] = ([], [])
fgets (suc room) (c ∷ script) =
    let more = fgets room script in if c == newline then (c ∷ [], script) else (c ∷ more.0, more.1)

-- A line of a script: a command, unless it has nothing but its end.
unfoldable pub batch_line : (ℕ → ℕ) → ℕ → List ℕ → Spooler → Outcome
batch_line fork now line s = elim (strtok newline line).0 [
  | none ↦ Outcome.continues [] s
  | some input ↦ run_command fork now input s
]

abbrev pub with_signals : List (ℕ × Signal) → Outcome → Outcome
with_signals signals (Outcome.continues more s) = Outcome.continues (signals ++ more) s
with_signals signals (Outcome.exits code) = Outcome.exits code
with_signals signals Outcome.crashes = Outcome.crashes

abbrev pub and_then : (Spooler → Outcome) → Outcome → Outcome
and_then rest (Outcome.continues signals s) = with_signals signals (rest s)
and_then rest (Outcome.exits code) = Outcome.exits code
and_then rest Outcome.crashes = Outcome.crashes

-- The loop of `batchMode` over a script, with fuel.
unfoldable pub batch_loop : ℕ → (ℕ → ℕ) → ℕ → List ℕ → Spooler → Outcome
batch_loop zero fork now script s = Outcome.continues [] s
batch_loop (suc fuel) fork now [] s = Outcome.continues [] s
batch_loop (suc fuel) fork now (c ∷ script) s =
    let line = fgets (max_chars - 1) (c ∷ script) in
    and_then (batch_loop fuel fork now line.1) (batch_line fork now line.0 s)

-- A line has a character at least.
unfoldable pub run_script : (ℕ → ℕ) → ℕ → List ℕ → Spooler → Outcome
run_script fork now script s = batch_loop (length script) fork now script s

-- `getFlag(flag, argc, argv)` from the index `i` on; `none` for -1.
unfoldable pub get_flag_from : ℕ → List ℕ → List (List ℕ) → Option ℕ
get_flag_from i flag [] = none
get_flag_from i flag (arg ∷ argv) =
    if same_string flag arg then some i else get_flag_from (suc i) flag argv

unfoldable pub get_flag : List ℕ → List (List ℕ) → Option ℕ
get_flag flag argv = get_flag_from 0 flag argv

abbrev pub argument_at : ℕ → List (List ℕ) → Option (List ℕ)
argument_at i [] = none
argument_at zero (arg ∷ argv) = some arg
argument_at (suc i) (arg ∷ argv) = argument_at i argv

-- What `batchMode` finds for a flag: nothing, an argument, or no argument where there has to be one.
pub data Named : Type 0 where
  absent : Named
  missing : Named
  file : List ℕ → Named

abbrev pub argument_of : Option (List ℕ) → Named
argument_of none = Named.missing
argument_of (some arg) = Named.file arg

-- A flag at the index 0 is taken for none, as `oFlag > 0` says.
pub named_file : List (List ℕ) → Option ℕ → Named
named_file argv none = Named.absent
named_file argv (some i) =
    if leb (length argv - 1) i
    then Named.missing
    else if ltb 0 i
    then argument_of (argument_at (suc i) argv)
    else Named.absent

-- The script of the option `-i`; `open_file` gives what `fopen` finds.
abbrev pub run_input : (List ℕ → Option (List ℕ)) → (ℕ → ℕ) → ℕ → Spooler → Named → Outcome
run_input open_file fork now s Named.absent = Outcome.continues [] s
run_input open_file fork now s Named.missing = Outcome.exits 1
run_input open_file fork now s (Named.file name) = elim (open_file name) [
  | none ↦ Outcome.exits 1
  | some script ↦ run_script fork now script s
]

-- The file of the option `-o`; `can_write` says whether `freopen` succeeds.
abbrev pub run_output : (List ℕ → Bool) → Named → Outcome → Outcome
run_output can_write Named.absent next = next
run_output can_write Named.missing next = Outcome.exits 1
run_output can_write (Named.file name) next = if can_write name then next else Outcome.exits 1

-- `batchMode(argc, argv)`
pub batch_mode :
    (List ℕ → Bool) → (List ℕ → Option (List ℕ)) → (ℕ → ℕ) → ℕ → List (List ℕ) → Spooler → Outcome
unfolding named_file
batch_mode can_write open_file fork now argv s =
    if leb (length argv) 1
    then Outcome.continues [] s
    else run_output can_write (named_file argv (get_flag (45 ∷ 111 ∷ []) argv))
        (run_input open_file fork now s (named_file argv (get_flag (45 ∷ 105 ∷ []) argv)))
