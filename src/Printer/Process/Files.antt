-- ===== src/Printer/Process/Files.antt =====
-- The file of the job that `print` of Printer/src/main.c makes.
use mathlib.Core.Option.{Option, none, some}
use mathlib.Core.Path.{subst}
use audible.Base.{
  ℕ, ◌≡◌, ◌≢◌, refl, ◌∙◌, ap, sym, false, inl, inr, Bool-cases, List, [], ◌∷◌, ◌++◌, ◌==◌, arith,
}
use audible.Printer.Words.{strtok, get_printer_set, full_stop, newline}
use audible.Printer.Words.Tokens.{IsWord, padded, join, strtok-word}
use audible.Printer.Types.{FileType, get_type}
use audible.Printer.Types.Paths.Faults.{AreDefined}
use audible.Printer.Printers.{Printer, get_printer}
use audible.Printer.Jobs.{Job, JobList, new_job, add_job}
use audible.Printer.Spool.{Choice, run_on, run_job}
use audible.Printer.Invariant.Runs.{choice_sound}
use audible.Printer.Console.{Spooler, Outcome, print, print_parts, start_new, start_chosen}
use audible.Printer.Process.{get_file}

join_nil : (w : List ℕ) → join w [] ≡ w
join_nil [] = refl
join_nil (c ∷ w) = ap (λ l. c ∷ l) (join_nil w)

join_append : (w s : List ℕ) → w ++ s ≡ join w s
join_append [] s = refl
join_append (c ∷ w) s = ap (λ l. c ∷ l) (join_append w s)

-- The call goes on with one more job, behind those of `jobs`, whose file name is `file`.
abbrev pub Adds : List ℕ → List Job → Outcome → Type 0
Adds file jobs (Outcome.continues signals s) =
    (job : Job) × (s.jobs.jobs ≡ add_job job jobs) × (get_file job ≡ file)
Adds file jobs (Outcome.exits code) = ⊥
Adds file jobs Outcome.crashes = ⊥

-- A printer that takes the job does not change its file.
run_on-file :
    (fork : ℕ → ℕ) (now : ℕ) (job : Job) (name : List ℕ) (printers : List Printer)
    (r : Option Printer)
    → get_file (run_on fork now job name printers r).0 ≡ get_file job
unfolding run_on get_file
run_on-file fork now job name printers none = refl
run_on-file fork now job name printers (some p) = elim (Bool-cases (p.busy == 0)) [
  | inl e ↦ rw e refl
  | inr e ↦ rw e refl
]

run_job-file :
    (fork : ℕ → ℕ) (now : ℕ) (job : Job) (name : List ℕ) (printers : List Printer)
    → get_file (run_job fork now job name printers).0 ≡ get_file job
unfolding run_job
run_job-file fork now job name printers =
    run_on-file fork now job name printers (get_printer name printers)

start_chosen-Adds :
    (fork : ℕ → ℕ) (now : ℕ) (file : List ℕ) (job : Job) (l : JobList) (s : Spooler)
    (choice : Choice)
    → get_file job ≡ file
    → l.jobs ≡ add_job job s.jobs.jobs
    → choice ≢ Choice.crashed
    → Adds file s.jobs.jobs (start_chosen fork now job l s choice)
unfolding start_chosen
start_chosen-Adds fork now file job l s (Choice.chosen p) e added sound =
    let ran = run_job fork now job p.name s.printers.printers in
    (ran.0, refl, run_job-file fork now job p.name s.printers.printers ∙ e)
start_chosen-Adds fork now file job l s Choice.nobody e added sound = (job, added, e)
start_chosen-Adds fork now file job l s Choice.crashed e added sound = absurd (sound refl)

print_parts-Adds :
    (fork : ℕ → ℕ) (now : ℕ) (name type : List ℕ) (t : FileType) (printers : Option (List ℕ))
    (s : Spooler)
    → get_type type s.types ≡ some t
    → get_printer_set printers s.printers.printers ≢ 0
    → AreDefined s.types
    → Adds
        (join name (full_stop ∷ type))
        s.jobs.jobs
        (print_parts fork now (some name) (some type) printers s)
unfolding print_parts start_new new_job get_file
print_parts-Adds fork now name type t printers s defined set types =
    let some_set : (get_printer_set printers s.printers.printers == 0) ≡ false =
      ground (arith, set) in
    rw (print_parts, defined, some_set)
      (start_chosen-Adds fork now (join name (full_stop ∷ type)) _ _ s _
        (join_append name (full_stop ∷ type)) refl
        (choice_sound s.types _ s.printers.printers types))

-- For a file name that is so many dots, a name without a dot, a dot and a type without a line end, where
-- the type is defined and the set of printers is not empty, and conversions lead to types that are
-- defined, `print` adds one job, whose file is the name, a dot and the type: the file that was named if
-- there are no dots in front, and another one for a name like `../a.txt`.
pub get_file-print :
    (fork : ℕ → ℕ) (now n : ℕ) (name type : List ℕ) (t : FileType) (printers : Option (List ℕ))
    (s : Spooler)
    → IsWord full_stop name
    → IsWord newline type
    → get_type type s.types ≡ some t
    → get_printer_set printers s.printers.printers ≢ 0
    → AreDefined s.types
    → Adds
        (join name (full_stop ∷ type))
        s.jobs.jobs
        (print fork now (some (padded full_stop n (join name (full_stop ∷ type)))) printers s)
unfolding print
get_file-print fork now n name type t printers s hname htype defined set types =
    subst (Adds (join name (full_stop ∷ type)) s.jobs.jobs)
      (sym (
        ap
          (λ (r : Option (List ℕ) × List ℕ).
            print_parts fork now r.0 (strtok newline r.1).0 printers s)
          first
        ∙ ap (λ (r : Option (List ℕ) × List ℕ). print_parts fork now (some name) r.0 printers s)
            second))
      (print_parts-Adds fork now name type t printers s defined set types)
  where
    first : strtok full_stop (padded full_stop n (join name (full_stop ∷ type))) ≡ (some name, type)
    first = strtok-word full_stop n name (full_stop ∷ type) hname refl

    second : strtok newline type ≡ (some type, [])
    second =
        subst (λ t'. strtok newline t' ≡ (some type, [])) (join_nil type)
          (strtok-word newline 0 type [] htype tt)
