-- ===== src/Printer/Console.antt =====
-- The commands of the spooler: `runCommand` and `print` of Printer/src/main.c.
--
-- The state is the arrays of types and printers and the list of jobs. `fork` is a parameter that gives the
-- process of a job. What a command prints is left out; the signal that it sends is part of its outcome.
use mathlib.Core.Option.{Option, none, some}
use audible.Base.{ℕ, Bool, true, false, ◌&&◌, not, List, [], ◌∷◌, ◌==◌, if◌then◌else◌}
use audible.Printer.Words.{strtok, atoi, get_printer_set, space, newline, full_stop}
use audible.Printer.Types.{FileType, same_string, get_type, new_extension, new_conversion}
use audible.Printer.Printers.{Printer, Printers, new_printer, disable_printer, enable_printer}
use audible.Printer.Jobs.{Job, JobList, JobStatus, new_job, add_job, get_job_by_id}
use audible.Printer.Spool.{Choice, get_eligible_printer, run_job}

pub record Spooler : Type 0 where
  pub types : List FileType
  pub printers : Printers
  pub jobs : JobList

pub data Signal : Type 0 where
  sigtstp : Signal
  sigcont : Signal
  sigterm : Signal

-- The program goes on, and has sent the signals to the process groups, or it exits, or reads through NULL.
pub data Outcome : Type 0 where
  continues : List (ℕ × Signal) → Spooler → Outcome
  exits : ℕ → Outcome
  crashes : Outcome

pub data Command : Type 0 where
  help_flag : Command
  type_flag : Command
  printer_flag : Command
  printers_flag : Command
  jobs_flag : Command
  pause_flag : Command
  resume_flag : Command
  cancel_flag : Command
  conversion_flag : Command
  print_flag : Command
  disable_flag : Command
  enable_flag : Command
  quit_flag : Command
  unknown_flag : Command

-- The words of the commands.
abbrev command_words : List (List ℕ × Command)
command_words =
    ((104 ∷ 101 ∷ 108 ∷ 112 ∷ []), Command.help_flag)
    ∷ ((116 ∷ 121 ∷ 112 ∷ 101 ∷ []), Command.type_flag)
    ∷ ((112 ∷ 114 ∷ 105 ∷ 110 ∷ 116 ∷ 101 ∷ 114 ∷ []), Command.printer_flag)
    ∷ ((112 ∷ 114 ∷ 105 ∷ 110 ∷ 116 ∷ 101 ∷ 114 ∷ 115 ∷ []), Command.printers_flag)
    ∷ ((106 ∷ 111 ∷ 98 ∷ 115 ∷ []), Command.jobs_flag)
    ∷ ((112 ∷ 97 ∷ 117 ∷ 115 ∷ 101 ∷ []), Command.pause_flag)
    ∷ ((114 ∷ 101 ∷ 115 ∷ 117 ∷ 109 ∷ 101 ∷ []), Command.resume_flag)
    ∷ ((99 ∷ 97 ∷ 110 ∷ 99 ∷ 101 ∷ 108 ∷ []), Command.cancel_flag)
    ∷ ((99 ∷ 111 ∷ 110 ∷ 118 ∷ 101 ∷ 114 ∷ 115 ∷ 105 ∷ 111 ∷ 110 ∷ []), Command.conversion_flag)
    ∷ ((112 ∷ 114 ∷ 105 ∷ 110 ∷ 116 ∷ []), Command.print_flag)
    ∷ ((100 ∷ 105 ∷ 115 ∷ 97 ∷ 98 ∷ 108 ∷ 101 ∷ []), Command.disable_flag)
    ∷ ((101 ∷ 110 ∷ 97 ∷ 98 ∷ 108 ∷ 101 ∷ []), Command.enable_flag)
    ∷ ((113 ∷ 117 ∷ 105 ∷ 116 ∷ []), Command.quit_flag)
    ∷ []

unfoldable pub find_command : List ℕ → List (List ℕ × Command) → Command
find_command flag [] = Command.unknown_flag
find_command flag (entry ∷ entries) =
    if same_string flag entry.0 then entry.1 else find_command flag entries

-- The tests of `runCommand` on the first word; the words differ, so that one test at most succeeds.
unfoldable pub command_of : List ℕ → Command
unfolding find_command
command_of flag = find_command flag command_words

-- The status that a command wants a job to have.
abbrev pub is_running : JobStatus → Bool
is_running JobStatus.queued = false
is_running JobStatus.running = true
is_running JobStatus.paused = false
is_running JobStatus.completed = false
is_running JobStatus.aborted = false

abbrev pub is_paused : JobStatus → Bool
is_paused JobStatus.queued = false
is_paused JobStatus.running = false
is_paused JobStatus.paused = true
is_paused JobStatus.completed = false
is_paused JobStatus.aborted = false

-- `killpg` on the group of the job found, where its status fits.
abbrev pub signal_found : (JobStatus → Bool) → Signal → Option Job → List (ℕ × Signal)
signal_found fits signal none = []
signal_found fits signal (some job) = if fits job.status then (job.pgid, signal) ∷ [] else []

-- The commands `pause`, `resume` and `cancel` on the word behind: a number, or an error.
unfoldable pub signal_job :
    (JobStatus → Bool) → Signal → Option (List ℕ) → List Job → List (ℕ × Signal)
signal_job fits signal none jobs = []
signal_job fits signal (some word) jobs =
    if atoi word == 0 && not (same_string word (48 ∷ []))
    then []
    else signal_found fits signal (get_job_by_id (atoi word) jobs)

-- `newConversion` with its tests for NULL.
abbrev pub convert :
    Option (List ℕ)
    → Option (List ℕ)
    → Option (List ℕ)
    → Option (List ℕ)
    → List FileType
    → List FileType
convert none type2 program args types = types
convert (some type1) none program args types = types
convert (some type1) (some type2) none args types = types
convert (some type1) (some type2) (some program) args types =
    new_conversion type1 type2 program args types

-- `disablePrinter` and `enablePrinter`: the name is read where there is a printer.
abbrev pub change_named :
    (List ℕ → List Printer → List Printer) → Option (List ℕ) → List Printer → Option (List Printer)
change_named change none [] = some []
change_named change none (printer ∷ printers) = none
change_named change (some name) printers = some (change name printers)

abbrev pub with_printers : Spooler → Option (List Printer) → Outcome
with_printers s none = Outcome.crashes
with_printers s (some printers) =
    Outcome.continues [] (record s { printers = record s.printers { printers = printers } })

-- The end of `print`: the job that was added, in the list `l`, is given to the printer chosen for it.
unfoldable pub start_chosen : (ℕ → ℕ) → ℕ → Job → JobList → Spooler → Choice → Outcome
start_chosen fork now job l s (Choice.chosen printer) =
    let ran = run_job fork now job printer.name s.printers.printers in
    Outcome.continues [] (record s {
      printers = record s.printers { printers = ran.1 };
      jobs = record l { jobs = add_job ran.0 s.jobs.jobs };
    })
start_chosen fork now job l s Choice.nobody = Outcome.continues [] (record s { jobs = l })
start_chosen fork now job l s Choice.crashed = Outcome.crashes

-- What `print` does with the result of `newJob`, through which it reads.
unfoldable pub start_new : (ℕ → ℕ) → ℕ → Spooler → Option Job × JobList → Outcome
start_new fork now s (none, l) = Outcome.crashes
start_new fork now s (some job, l) =
    start_chosen fork now job l s (get_eligible_printer s.types job s.printers.printers)

-- `print` with the parts of the file name.
unfoldable pub print_parts :
    (ℕ → ℕ) → ℕ → Option (List ℕ) → Option (List ℕ) → Option (List ℕ) → Spooler → Outcome
print_parts fork now name none printers s = Outcome.continues [] s
print_parts fork now name (some type) printers s = elim (get_type type s.types) [
  | none ↦ Outcome.continues [] s
  | some t ↦
      let set : ℕ = get_printer_set printers s.printers.printers in
      if set == 0
      then Outcome.continues [] s
      else start_new fork now s (new_job name (some type) 0 set now s.jobs)
]

-- `print(file, printers)`
unfoldable pub print : (ℕ → ℕ) → ℕ → Option (List ℕ) → Option (List ℕ) → Spooler → Outcome
print fork now none printers s = Outcome.crashes
print fork now (some file) printers s =
    let name = strtok full_stop file in
    print_parts fork now name.0 (strtok newline name.1).0 printers s

-- A command, with what stands behind its word.
unfoldable pub execute : (ℕ → ℕ) → ℕ → Command → List ℕ → Spooler → Outcome
execute fork now Command.help_flag rest s = Outcome.continues [] s
execute fork now Command.type_flag rest s =
    Outcome.continues [] (record s { types = new_extension (strtok space rest).0 s.types })
execute fork now Command.printer_flag rest s =
    let name = strtok space rest in
    let type = strtok space name.1 in
    Outcome.continues [] (record s { printers = (new_printer name.0 type.0 s.types s.printers).1 })
execute fork now Command.printers_flag rest s = Outcome.continues [] s
execute fork now Command.jobs_flag rest s = Outcome.continues [] s
execute fork now Command.pause_flag rest s =
    Outcome.continues (signal_job is_running Signal.sigtstp (strtok space rest).0 s.jobs.jobs) s
execute fork now Command.resume_flag rest s =
    Outcome.continues (signal_job is_paused Signal.sigcont (strtok space rest).0 s.jobs.jobs) s
execute fork now Command.cancel_flag rest s =
    Outcome.continues (signal_job is_running Signal.sigterm (strtok space rest).0 s.jobs.jobs) s
execute fork now Command.conversion_flag rest s =
    let type1 = strtok space rest in
    let type2 = strtok space type1.1 in
    let program = strtok space type2.1 in
    let args = strtok newline program.1 in
    Outcome.continues [] (record s { types = convert type1.0 type2.0 program.0 args.0 s.types })
execute fork now Command.print_flag rest s =
    let file = strtok space rest in print fork now file.0 (strtok newline file.1).0 s
execute fork now Command.disable_flag rest s =
    with_printers s (change_named disable_printer (strtok space rest).0 s.printers.printers)
execute fork now Command.enable_flag rest s =
    with_printers s (change_named enable_printer (strtok space rest).0 s.printers.printers)
execute fork now Command.quit_flag rest s = Outcome.exits 0
execute fork now Command.unknown_flag rest s = Outcome.continues [] s

-- The first word of a line.
abbrev pub run_words : (ℕ → ℕ) → ℕ → Option (List ℕ) × List ℕ → Spooler → Outcome
run_words fork now (none, rest) s = Outcome.continues [] s
run_words fork now (some flag, rest) s = execute fork now (command_of flag) rest s

-- `runCommand(input)`
unfoldable pub run_command : (ℕ → ℕ) → ℕ → List ℕ → Spooler → Outcome
run_command fork now input s = run_words fork now (strtok space input) s
