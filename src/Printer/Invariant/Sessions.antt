-- ===== src/Printer/Invariant/Sessions.antt =====
-- The states that a session reaches.
use mathlib.Core.Option.{Option, none, some}
use mathlib.Core.Path.{subst}
use audible.Base.{ℕ, ◌≡◌, Option-cases, inl, inr, List, [], arith}
use audible.Printer.Words.{strtok, space, newline}
use audible.Printer.Printers.{Printer}
use audible.Printer.Console.{Spooler, Signal, Outcome, run_command}
use audible.Printer.Session.{
  Report, print_handler, run_all, remove_all, tidy, after_command, main_turn, batch_line,
}
use audible.Printer.Invariant.{IsSpooler}
use audible.Printer.Invariant.Runs.{IsFork}
use audible.Printer.Invariant.Jobs.{remove_jobs-IsQueue}
use audible.Printer.Invariant.Added.{IsFine, IsSpooler-IsQueue}
use audible.Printer.Invariant.Commands.{LacksWord, run_command-IsFine}
use audible.Printer.Invariant.Endings.{GoesOn, run_all-GoesOn}
use audible.Printer.Invariant.Handling.{Fits, print_handler-GoesOn}

remove_all-IsSpooler : (now : ℕ) (s : Spooler) → IsSpooler s → IsSpooler (remove_all now s)
remove_all-IsSpooler now s h =
    let queue = remove_jobs-IsQueue now s.jobs.jobs s.printers.printers (IsSpooler-IsQueue s h) in
    record {
      closed = h.closed;
      spool = queue.spool;
      fleet = h.fleet;
      few = h.few;
      started = queue.started;
    }

tidy-IsFine :
    (bad : Type 0) (signals : List (ℕ × Signal)) (now : ℕ) (r : Option Spooler)
    → GoesOn r
    → (bad → ⊥)
    → IsFine bad (tidy signals now r)
tidy-IsFine bad signals now none h good = absurd h
tidy-IsFine bad signals now (some s) h good = (remove_all-IsSpooler now s h, good)

after_command-IsFine :
    (bad : Type 0) (fork : ℕ → ℕ) (now : ℕ) (outcome : Outcome)
    → IsFork fork
    → IsFine bad outcome
    → IsFine bad (after_command fork now outcome)
after_command-IsFine bad fork now (Outcome.continues signals s) forked h =
    tidy-IsFine bad signals now (run_all fork now s) (run_all-GoesOn fork now s forked h.0) h.1
after_command-IsFine bad fork now (Outcome.exits code) forked h = h
after_command-IsFine bad fork now Outcome.crashes forked h = h

-- What the input lacks, if it is not at its end.
abbrev pub LacksInput : Option (List ℕ) → List Printer → Type 0
LacksInput none printers = ⊥
LacksInput (some input) printers = LacksWord (strtok space input) printers

-- From a spooler that is in order, where the processes of jobs have process groups other than 0, a turn of
-- the loop of `main`, which is a command, `runJobs` and `removeJobs`, crashes exactly where the command
-- lacks a word that it reads, which is the file of `print`, or the name of `disable` or `enable` where there
-- are printers. Otherwise it exits, or leaves a spooler that is in order.
pub main_turn-IsFine :
    (fork : ℕ → ℕ) (now : ℕ) (input : Option (List ℕ)) (s : Spooler)
    → IsFork fork
    → IsSpooler s
    → IsFine (LacksInput input s.printers.printers) (main_turn fork now input s)
unfolding main_turn
main_turn-IsFine fork now none s forked h = λ bad. bad
main_turn-IsFine fork now (some input) s forked h =
    after_command-IsFine _ fork now (run_command fork now input s) forked
      (run_command-IsFine fork now input s forked h)

batch_line-IsFine :
    (fork : ℕ → ℕ) (now : ℕ) (line : List ℕ) (s : Spooler)
    → IsFork fork
    → IsSpooler s
    → IsFine (LacksInput (strtok newline line).0 s.printers.printers) (batch_line fork now line s)
unfolding batch_line
batch_line-IsFine fork now line s forked h = elim (Option-cases (strtok newline line).0) [
  | inl e ↦ rw (batch_line, e) (h, λ bad. bad)
  | inr (input, e) ↦ rw (batch_line, e) (run_command-IsFine fork now input s forked h)
]

-- The spooler at the start of the program.
abbrev pub first_spooler : Spooler
first_spooler = record {
  types = [];
  printers = record { printers = []; index = 0 };
  jobs = record { jobs = []; index = 0 };
}

-- The states between commands: the lines of a script come first, then the turns of the loop of `main`, and
-- reports of processes at any time.
pub data Reachable (fork : ℕ → ℕ) : Spooler → Type 0 where
  start : Reachable fork first_spooler
  script :
      (now : ℕ) (line : List ℕ) (signals : List (ℕ × Signal)) (s s' : Spooler)
      → Reachable fork s
      → batch_line fork now line s ≡ Outcome.continues signals s'
      → Reachable fork s'
  command :
      (now : ℕ) (input : Option (List ℕ)) (signals : List (ℕ × Signal)) (s s' : Spooler)
      → Reachable fork s
      → main_turn fork now input s ≡ Outcome.continues signals s'
      → Reachable fork s'
  handler :
      (now : ℕ) (report : Report) (s s' : Spooler)
      → Reachable fork s
      → Fits s report
      → print_handler fork now report s ≡ some s'
      → Reachable fork s'

after :
    (bad : Type 0) (outcome : Outcome) (signals : List (ℕ × Signal)) (s : Spooler)
    → IsFine bad outcome
    → outcome ≡ Outcome.continues signals s
    → IsSpooler s
after bad outcome signals s fine e = (subst (IsFine bad) e fine).0

-- In every state that a session reaches by lines of a script, commands and reports, where the processes
-- of jobs have process groups other than 0 and each report fits the state it comes in: conversions lead to
-- types that are defined, the printers have distinct identifiers below 32, of the printers of one name only
-- the first is ever busy or enabled, the printers of the jobs that run or are paused are busy and no two of
-- these jobs have the same, and each of them has a printer and a process group other than 0.
pub Reachable-IsSpooler :
    (fork : ℕ → ℕ) (s : Spooler) → IsFork fork → Reachable fork s → IsSpooler s
Reachable-IsSpooler fork s forked Reachable.start = record {
  closed = tt;
  spool = record { numbered = tt; served = tt; apart = tt };
  fleet = record { numbered = tt; in_front = tt; below = tt };
  few = omega arith;
  started = tt;
}
Reachable-IsSpooler fork _ forked (Reachable.script now line signals s s' reached e) =
    after _ (batch_line fork now line s) signals s'
      (batch_line-IsFine fork now line s forked (Reachable-IsSpooler fork s forked reached)) e
Reachable-IsSpooler fork _ forked (Reachable.command now input signals s s' reached e) =
    after _ (main_turn fork now input s) signals s'
      (main_turn-IsFine fork now input s forked (Reachable-IsSpooler fork s forked reached)) e
Reachable-IsSpooler fork _ forked (Reachable.handler now report s s' reached fits e) =
    subst GoesOn e (
      print_handler-GoesOn fork now report s forked (Reachable-IsSpooler fork s forked reached)
        fits)
