-- ===== src/Printer/Process.antt =====
-- The process of a job: the child's branch of `runJobProcess` of Printer/src/jobs.c, and `getFile` of
-- Printer/src/helpers.c.
--
-- `fork` succeeds. How the programs end is a parameter, and so is whether a file opens and whether the pipes are
-- made; which descriptor is copied to which is left out.
pub mod Files
pub mod Success
use mathlib.Core.Option.{Option, none, some}
use audible.Base.{ℕ, zero, suc, ◌+◌, Bool, true, false, List, [], ◌∷◌, ◌++◌, ◌==◌, if◌then◌else◌}
use audible.Printer.Types.{Conversion, FileType, max_conversions}
use audible.Printer.Types.Paths.{Search, get_conversion_path}
use audible.Printer.Printers.{Printer}
use audible.Printer.Jobs.{Job}
use audible.Printer.Words.{full_stop}

-- How a process ends: with an exit status, or by a signal.
pub data Ending : Type 0 where
  exit : ℕ → Ending
  killed : Ending

-- `getFile(job)`
pub get_file : Job → List ℕ
get_file job = job.file_name ++ full_stop ∷ job.file_type

-- `WIFEXITED(status)` with the exit status `EXIT_FAILURE`.
unfoldable pub has_failed : Ending → Bool
has_failed (Ending.exit code) = code == 1
has_failed Ending.killed = false

-- The system that the process runs in: whether a file opens, whether the pipes for the so-many-th
-- conversion are made, how a conversion program ends, and how the program at the printer does.
pub record System : Type 0 where
  pub opens : List ℕ → Bool
  pub pipes : ℕ → Bool
  pub runs : Conversion → Ending
  pub prints : Printer → Ending

-- After the conversions: the program that writes to the printer.
unfoldable pub print_end : System → Printer → Ending
print_end system printer =
    if has_failed (system.prints printer) then Ending.exit 1 else Ending.exit 0

-- The loop over the path; there are new pipes where another conversion follows.
unfoldable pub convert_all : System → Printer → ℕ → List Conversion → Ending
convert_all system printer n [] = print_end system printer
convert_all system printer n (c ∷ []) =
    if has_failed (system.runs c) then Ending.exit 1 else print_end system printer
convert_all system printer n (c ∷ d ∷ path) =
    let rest = convert_all system printer (suc n) (d ∷ path) in
    if has_failed (system.runs c)
    then Ending.exit 1
    else if system.pipes (suc n)
    then rest
    else Ending.exit 1

-- The path that is searched for; a type that is not there ends the process.
abbrev pub convert_found : System → Printer → Search → Ending
convert_found system printer (Search.found path) = convert_all system printer 0 path
convert_found system printer Search.not_found = convert_all system printer 0 []
convert_found system printer Search.fault = Ending.killed

-- The child's branch of `runJobProcess(file, job, chosenPrinter)`
unfoldable pub run_job_process : System → List FileType → List ℕ → Job → Printer → Ending
run_job_process system types file job printer =
    if system.opens file
    then if system.pipes 0
      then convert_found system printer
          (get_conversion_path types job.file_type printer.type max_conversions)
      else Ending.exit 1
    else Ending.exit 1
