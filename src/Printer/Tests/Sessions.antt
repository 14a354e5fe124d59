-- ===== src/Printer/Tests/Sessions.antt =====
-- Concrete runs of the theorems on commands, reports and scripts.
use mathlib.Core.Option.{none, some}
use audible.Base.{ℕ, ◌+◌, ◌≡◌, ◌≢◌, refl, ◌↔◌, inl, true, List, [], ◌∷◌, arith}
use audible.Printer.Words.{
  skip, before, behind, strtok, all_tokens, get_conversion_args, get_printer_set, space, newline,
}
use audible.Printer.Words.Tokens.{IsFree, get_conversion_args-spaced}
use audible.Printer.Words.Sets.{Collects, get_printer_set-Collects}
use audible.Printer.Types.{
  Conversion, FileType, same_string, new_extension, add_type, max_conversions, get_type,
}
use audible.Printer.Types.Paths.{get_conversion_path}
use audible.Printer.Types.Closed.{IsClosed-AreDefined}
use audible.Printer.Printers.{Printer}
use audible.Printer.Jobs.{Job, JobStatus, get_job_by_pid}
use audible.Printer.Process.{Ending, System, run_job_process}
use audible.Printer.Process.Files.{Adds, get_file-print}
use audible.Printer.Process.Success.{PathRuns, run_job_process_iff}
use audible.Printer.Console.{Spooler, print, run_command, execute, command_of, find_command}
use audible.Printer.Session.{Report, print_handler, main_turn, batch_line, run_script}
use audible.Printer.Invariant.{IsSpooler}
use audible.Printer.Invariant.Runs.{IsFork}
use audible.Printer.Invariant.Added.{IsFine}
use audible.Printer.Invariant.Endings.{GoesOn}
use audible.Printer.Invariant.Handling.{print_handler-GoesOn}
use audible.Printer.Invariant.Sessions.{
  LacksInput, Reachable, first_spooler, main_turn-IsFine, Reachable-IsSpooler,
}
use audible.Printer.Invariant.Waiting.Turns.{Dispatches, main_turn-Dispatches}
use audible.Printer.Invariant.Signals.{AimedOutcome, run_command-AimedOutcome}
use audible.Printer.Invariant.Scripts.{unlines, run_lines, run_script-lines}

-- A program with the arguments ` b  c`.
abbrev program : Conversion
program = record { type = 97 ∷ []; program = 112 ∷ []; args = some (32 ∷ 98 ∷ 32 ∷ 32 ∷ 99 ∷ []) }

get_conversion_args-spaced_example :
    get_conversion_args program ≡ (112 ∷ []) ∷ (98 ∷ []) ∷ (99 ∷ []) ∷ []
get_conversion_args-spaced_example =
    get_conversion_args-spaced program 1 0 (98 ∷ []) ((1, 99 ∷ []) ∷ [])
      ((λ e. omega (arith, e)), tt) (((λ e. omega (arith, e)), tt), tt) refl

abbrev printer_of : ℕ → List ℕ → ℕ → Printer
printer_of id name busy = record { id = id; name = name; type = 97 ∷ []; enabled = 1; busy = busy }

abbrev two_named : List Printer
two_named = printer_of 0 (120 ∷ []) 1 ∷ printer_of 1 (121 ∷ []) 0 ∷ []

get_printer_set-Collects_example :
    Collects two_named
      (all_tokens space (121 ∷ 32 ∷ 120 ∷ []))
      (get_printer_set (some (121 ∷ 32 ∷ 120 ∷ [])) two_named)
get_printer_set-Collects_example = get_printer_set-Collects (121 ∷ 32 ∷ 120 ∷ []) two_named

-- A job that runs on the first printer in the process group 100.
abbrev running_job : Job
running_job = record {
  jobid = 0;
  status = JobStatus.running;
  pgid = 100;
  file_name = 102 ∷ [];
  file_type = 97 ∷ [];
  eligible_printers = 3;
  chosen_printer = some 0;
  creation_time = 0;
  change_time = 0;
}

abbrev killing : System
killing = record {
  opens = λ file. true;
  pipes = λ n. true;
  runs = λ c. Ending.exit 2;
  prints = λ p. Ending.killed;
}

abbrev types_ab : List FileType
types_ab =
    record {
      type = 97 ∷ [];
      conversions = record { type = 98 ∷ []; program = 112 ∷ []; args = none } ∷ [];
    }
    ∷ record { type = 98 ∷ []; conversions = [] }
    ∷ []

abbrev printer_b : Printer
printer_b = record { id = 0; name = 120 ∷ []; type = 98 ∷ []; enabled = 1; busy = 0 }

run_job_process_iff_example :
    (run_job_process killing types_ab (102 ∷ []) running_job printer_b ≡ Ending.exit 0) ↔ (
      (true ≡ true)
      × (true ≡ true)
      × PathRuns killing (get_conversion_path types_ab (97 ∷ []) (98 ∷ []) max_conversions)
      × (Ending.killed ≢ Ending.exit 1))
run_job_process_iff_example = run_job_process_iff killing types_ab (102 ∷ []) running_job printer_b

abbrev busy_spooler : Spooler
busy_spooler = record {
  types = record { type = 97 ∷ []; conversions = [] } ∷ [];
  printers = record { printers = two_named; index = 2 };
  jobs = record { jobs = running_job ∷ []; index = 1 };
}

busy_spooler-IsSpooler : IsSpooler busy_spooler
unfolding same_string
busy_spooler-IsSpooler = record {
  closed = ((λ c listed. absurd listed), tt);
  spool = record {
    numbered = (((λ e. omega (arith, e)), tt), (tt, tt));
    served = ((λ i e. inl (cc e, λ b. omega (arith, b))), tt);
    apart = ((λ i e. tt), tt);
  };
  fleet = record {
    numbered = (((λ e. omega (arith, e)), tt), (tt, tt));
    in_front = (((λ e. absurd (cc e)), tt), (tt, tt));
    below = (omega arith, (omega arith, tt));
  };
  few = omega arith;
  started = (((λ e. cc e), λ e. omega (arith, e)), tt);
}

abbrev above_hundred : ℕ → ℕ
above_hundred id = id + 100

above_hundred-IsFork : IsFork above_hundred
above_hundred-IsFork id e = omega (arith, e)

type_a : get_type (97 ∷ []) busy_spooler.types ≡ some (record { type = 97 ∷ []; conversions = [] })
unfolding get_type same_string
type_a = refl

any_set : get_printer_set none busy_spooler.printers.printers ≢ 0
unfolding get_printer_set
any_set e = omega (arith, e)

-- `..f.a`, for any printer
get_file-print_example :
    Adds
      (102 ∷ 46 ∷ 97 ∷ [])
      (running_job ∷ [])
      (print above_hundred 7 (some (46 ∷ 46 ∷ 102 ∷ 46 ∷ 97 ∷ [])) none busy_spooler)
get_file-print_example =
    get_file-print above_hundred 7 2 (102 ∷ []) (97 ∷ [])
      (record { type = 97 ∷ []; conversions = [] }) none busy_spooler ((λ e. omega (arith, e)), tt)
      ((λ e. omega (arith, e)), tt) type_a any_set
      (IsClosed-AreDefined busy_spooler.types busy_spooler-IsSpooler.closed)

-- The line `cancel 0`.
abbrev cancel_line : List ℕ
cancel_line = 99 ∷ 97 ∷ 110 ∷ 99 ∷ 101 ∷ 108 ∷ 32 ∷ 48 ∷ []

run_command-AimedOutcome_example :
    AimedOutcome (running_job ∷ []) (run_command above_hundred 7 cancel_line busy_spooler)
run_command-AimedOutcome_example =
    run_command-AimedOutcome above_hundred 7 cancel_line busy_spooler busy_spooler-IsSpooler

main_turn-IsFine_example :
    IsFine
      (LacksInput (some cancel_line) two_named)
      (main_turn above_hundred 7 (some cancel_line) busy_spooler)
main_turn-IsFine_example =
    main_turn-IsFine above_hundred 7 (some cancel_line) busy_spooler above_hundred-IsFork
      busy_spooler-IsSpooler

main_turn-Dispatches_example :
    Dispatches (main_turn above_hundred 7 (some cancel_line) busy_spooler)
main_turn-Dispatches_example =
    main_turn-Dispatches above_hundred 7 (some cancel_line) busy_spooler above_hundred-IsFork
      busy_spooler-IsSpooler

print_handler-GoesOn_example :
    GoesOn (print_handler above_hundred 9 (Report.exited 100 0) busy_spooler)
unfolding get_job_by_pid
print_handler-GoesOn_example =
    print_handler-GoesOn above_hundred 9 (Report.exited 100 0) busy_spooler above_hundred-IsFork
      busy_spooler-IsSpooler ((λ e. tt), λ e. tt)

-- The state after the line `type a` of a script.
abbrev typed_spooler : Spooler
typed_spooler = record first_spooler { types = record { type = 97 ∷ []; conversions = [] } ∷ [] }

abbrev type_line : List ℕ
type_line = 116 ∷ 121 ∷ 112 ∷ 101 ∷ 32 ∷ 97 ∷ 10 ∷ []

typed_spooler-Reachable : Reachable above_hundred typed_spooler
unfolding batch_line run_command execute command_of find_command strtok skip before behind
    new_extension add_type same_string
typed_spooler-Reachable =
    Reachable.script 7 type_line [] first_spooler typed_spooler Reachable.start refl

Reachable-IsSpooler_example : IsSpooler typed_spooler
Reachable-IsSpooler_example =
    Reachable-IsSpooler above_hundred typed_spooler above_hundred-IsFork typed_spooler-Reachable

cancel_line-IsFree : IsFree newline cancel_line
cancel_line-IsFree = (
  (λ e. omega (arith, e)),
  (
    (λ e. omega (arith, e)),
    (
      (λ e. omega (arith, e)),
      (
        (λ e. omega (arith, e)),
        (
          (λ e. omega (arith, e)),
          ((λ e. omega (arith, e)), ((λ e. omega (arith, e)), ((λ e. omega (arith, e)), tt))),
        ),
      ),
    ),
  ),
)

run_script-lines_example :
    run_script above_hundred 7 (unlines (cancel_line ∷ [] ∷ cancel_line ∷ [])) busy_spooler
    ≡ run_lines above_hundred 7 (cancel_line ∷ [] ∷ cancel_line ∷ []) busy_spooler
run_script-lines_example =
    run_script-lines above_hundred 7 (cancel_line ∷ [] ∷ cancel_line ∷ []) busy_spooler (
      (cancel_line-IsFree, omega arith),
      ((tt, omega arith), ((cancel_line-IsFree, omega arith), tt)),
    )
