-- ===== src/Printer/Invariant/Commands.antt =====
-- Every command keeps what holds of the spooler; those that lack a word may crash.
use mathlib.Core.Option.{Option, none, some}
use audible.Base.{ℕ, ◌≡◌, refl, List, [], ◌∷◌}
use audible.Printer.Types.{FileType}
use audible.Printer.Types.Closed.{IsClosed, new_extension-IsClosed, new_conversion-IsClosed}
use audible.Printer.Words.{strtok, space}
use audible.Printer.Printers.{Printer, Printers, disable_printer, enable_printer}
use audible.Printer.Printers.Fleet.{IsFleet, Leaves, disable_printer-Leaves, enable_printer-Leaves}
use audible.Printer.Printers.Adding.{Grows, new_printer-Grows}
use audible.Printer.Spool.Apart.{Keeps, AreServed-Keeps}
use audible.Printer.Console.{
  Spooler, Command, command_of, convert, change_named, with_printers, execute, run_words,
  run_command,
}
use audible.Printer.Invariant.{IsSpooler}
use audible.Printer.Invariant.Runs.{IsFork}
use audible.Printer.Invariant.Added.{IsFine, print-IsFine}

-- A command that reads a word which is not there: the file of `print`, and the name of `disable` and
-- `enable` where there are printers to compare it with.
abbrev pub LacksName : Option (List ℕ) → List Printer → Type 0
LacksName word [] = ⊥
LacksName word (p ∷ printers) = word ≡ none

abbrev pub Lacks : Command → List ℕ → List Printer → Type 0
Lacks Command.print_flag rest printers = (strtok space rest).0 ≡ none
Lacks Command.disable_flag rest printers = LacksName (strtok space rest).0 printers
Lacks Command.enable_flag rest printers = LacksName (strtok space rest).0 printers
Lacks _ rest printers = ⊥

abbrev pub LacksWord : Option (List ℕ) × List ℕ → List Printer → Type 0
LacksWord (none, rest) printers = ⊥
LacksWord (some flag, rest) printers = Lacks (command_of flag) rest printers

convert-IsClosed :
    (type1 type2 program args : Option (List ℕ)) (types : List FileType)
    → IsClosed types
    → IsClosed (convert type1 type2 program args types)
convert-IsClosed none type2 program args types h = h
convert-IsClosed (some type1) none program args types h = h
convert-IsClosed (some type1) (some type2) none args types h = h
convert-IsClosed (some type1) (some type2) (some program) args types h =
    new_conversion-IsClosed type1 type2 program args types h

module _ (fork : ℕ → ℕ) (forked : IsFork fork) (now : ℕ) (s : Spooler) (h : IsSpooler s) where
  with_types : (types : List FileType) → IsClosed types → IsSpooler (record s { types = types })
  with_types types closed = record {
    closed = closed;
    spool = h.spool;
    fleet = h.fleet;
    few = h.few;
    started = h.started;
  }

  renewed :
      (printers : List Printer)
      → IsFleet s.printers.index printers
      → Keeps s.printers.printers printers
      → IsSpooler (record s { printers = record s.printers { printers = printers } })
  renewed printers fleet kept = record {
    closed = h.closed;
    spool = record {
      numbered = fleet.numbered;
      served = AreServed-Keeps s.jobs.jobs s.printers.printers printers kept h.spool.served;
      apart = h.spool.apart;
    };
    fleet = fleet;
    few = h.few;
    started = h.started;
  }

  grown : (l : Printers) → Grows s.printers l → IsSpooler (record s { printers = l })
  grown l g = record {
    closed = h.closed;
    spool = record {
      numbered = g.0.numbered;
      served = AreServed-Keeps s.jobs.jobs s.printers.printers l.printers g.2 h.spool.served;
      apart = h.spool.apart;
    };
    fleet = g.0;
    few = g.1;
    started = h.started;
  }

  changed :
      (change : List ℕ → List Printer → List Printer) (printers : List Printer)
      → Leaves change
      → IsFleet s.printers.index printers
      → Keeps s.printers.printers printers
      → (word : Option (List ℕ))
      → IsFine (LacksName word printers) (with_printers s (change_named change word printers))
  changed change [] leaves fleet kept none = (renewed [] fleet kept, λ bad. bad)
  changed change (p ∷ printers) leaves fleet kept none = refl
  changed change [] leaves fleet kept (some name) =
      let left = leaves s.printers.index name [] fleet in
      (renewed (change name []) left.0 (λ i b. left.1 i (kept i b)), λ bad. bad)
  changed change (p ∷ printers) leaves fleet kept (some name) =
      let left = leaves s.printers.index name (p ∷ printers) fleet in
      (renewed (change name (p ∷ printers)) left.0 (λ i b. left.1 i (kept i b)), λ bad. cc bad)

  pub execute-IsFine :
      (command : Command) (rest : List ℕ)
      → IsFine (Lacks command rest s.printers.printers) (execute fork now command rest s)
  unfolding execute
  execute-IsFine Command.help_flag rest = (h, λ bad. bad)
  execute-IsFine Command.type_flag rest =
      (with_types _ (new_extension-IsClosed (strtok space rest).0 s.types h.closed), λ bad. bad)
  execute-IsFine Command.printer_flag rest =
      (grown _ (new_printer-Grows _ _ s.types s.printers h.fleet h.few), λ bad. bad)
  execute-IsFine Command.printers_flag rest = (h, λ bad. bad)
  execute-IsFine Command.jobs_flag rest = (h, λ bad. bad)
  execute-IsFine Command.pause_flag rest = (h, λ bad. bad)
  execute-IsFine Command.resume_flag rest = (h, λ bad. bad)
  execute-IsFine Command.cancel_flag rest = (h, λ bad. bad)
  execute-IsFine Command.conversion_flag rest =
      (with_types _ (convert-IsClosed _ _ _ _ s.types h.closed), λ bad. bad)
  execute-IsFine Command.print_flag rest = print-IsFine fork forked now s h _ _
  execute-IsFine Command.disable_flag rest =
      changed disable_printer s.printers.printers disable_printer-Leaves h.fleet (λ i b. b) _
  execute-IsFine Command.enable_flag rest =
      changed enable_printer s.printers.printers enable_printer-Leaves h.fleet (λ i b. b) _
  execute-IsFine Command.quit_flag rest = λ bad. bad
  execute-IsFine Command.unknown_flag rest = (h, λ bad. bad)

  run_words-IsFine :
      (words : Option (List ℕ) × List ℕ)
      → IsFine (LacksWord words s.printers.printers) (run_words fork now words s)
  run_words-IsFine (none, rest) = (h, λ bad. bad)
  run_words-IsFine (some flag, rest) = execute-IsFine (command_of flag) rest

-- From a spooler that is in order, where the processes of jobs have process groups other than 0,
-- `runCommand` crashes on the input exactly where the first word is `print` and no file follows, or it is
-- `disable` or `enable`, no name follows and there are printers; otherwise it exits, or leaves a spooler
-- that is in order.
pub run_command-IsFine :
    (fork : ℕ → ℕ) (now : ℕ) (input : List ℕ) (s : Spooler)
    → IsFork fork
    → IsSpooler s
    → IsFine (LacksWord (strtok space input) s.printers.printers) (run_command fork now input s)
unfolding run_command
run_command-IsFine fork now input s forked h =
    run_words-IsFine fork forked now s h (strtok space input)
