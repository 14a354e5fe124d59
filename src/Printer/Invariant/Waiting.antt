-- ===== src/Printer/Invariant/Waiting.antt =====
-- No job waits while a printer of its type is idle.
pub mod Turns
use mathlib.Core.Option.{Option, none, some}
use mathlib.Core.Path.{subst}
use audible.Base.{
  ℕ, ◌≡◌, ◌≢◌, refl, ◌∙◌, ap, sym, ◌⊎◌, inl, inr, Bool, true, false, Bool-cases, Option-cases, ◌&&◌,
  List, [], ◌∷◌, ◌==◌, arith, not, if◌then◌else◌,
}
use audible.Printer.Types.{FileType, same_string, get_type}
use audible.Printer.Types.Paths.Faults.{AreDefined}
use audible.Printer.Printers.{Printer, get_printer, busy_printer}
use audible.Printer.Printers.Lookup.{same_string_eq}
use audible.Printer.Printers.Fleet.{IsFleet}
use audible.Printer.Printers.Leading.{IsAmong, NoneOf, get_printer-enabled, NoneOf-busy}
use audible.Printer.Jobs.{Job, JobStatus}
use audible.Printer.Spool.{
  Choice, is_usable, first_printer, first_reached, as_choice, or_choice, get_eligible_printer,
  run_on, run_job, is_queued, turn, turn_queued, run_jobs,
}
use audible.Printer.Spool.Eligible.{ChoosesBy, first_printer-ChoosesBy}
use audible.Printer.Invariant.{AreStarted, IsStarted}
use audible.Printer.Invariant.Runs.{IsFork, Fit, FitAll, run_job-Fit, choice_sound}

-- A printer that is enabled and idle, eligible for the job, and of the job's own type.
abbrev pub can_take : Job → Printer → Bool
can_take job p = is_usable job p && (p.busy == 0 && same_string p.type job.file_type)

-- If the job is queued and its type is defined, no printer can take it.
abbrev pub IsWaiting : List FileType → Job → List Printer → Type 0
IsWaiting types job printers =
    is_queued job.status ≡ true
    → get_type job.file_type types ≢ none
    → NoneOf (can_take job) printers

abbrev pub AreWaiting : List FileType → List Job → List Printer → Type 0
AreWaiting types [] printers = Unit
AreWaiting types (job ∷ jobs) printers =
    IsWaiting types job printers × AreWaiting types jobs printers

-- What no printer could take before, none can take after.
abbrev pub Busier : List Printer → List Printer → Type 0
Busier printers printers' =
    (job : Job) → NoneOf (can_take job) printers → NoneOf (can_take job) printers'

busy_printer-Busier :
    (name : List ℕ) (printers : List Printer) → Busier printers (busy_printer name printers)
busy_printer-Busier name printers job h =
    NoneOf-busy (can_take job) (λ p. ground arith) name printers h

-- What a turn leaves.
abbrev pub Turned : List FileType → List Printer → Job × List Printer → Type 0
Turned types printers (job, printers') = IsWaiting types job printers' × Busier printers printers'

abbrev IsIdle : Option Printer → Type 0
IsIdle none = ⊥
IsIdle (some p) = p.busy ≡ 0

-- No printer can take the job, if its type is defined.
abbrev Blocked : List FileType → Job → List Printer → Type 0
Blocked types job printers = get_type job.file_type types ≢ none → NoneOf (can_take job) printers

unchanged :
    (types : List FileType) (job : Job) (printers : List Printer)
    → Blocked types job printers
    → Turned types printers (job, printers)
unchanged types job printers h = ((λ q there. h there), λ other k. k)

-- The printer found is idle, or nothing can take the job.
run_on-Turned :
    (types : List FileType) (fork : ℕ → ℕ) (now : ℕ) (job : Job) (name : List ℕ)
    (printers : List Printer) (r : Option Printer)
    → IsIdle r ⊎ Blocked types job printers
    → Turned types printers (run_on fork now job name printers r)
unfolding run_on
run_on-Turned types fork now job name printers none (inl h) = absurd h
run_on-Turned types fork now job name printers none (inr h) = unchanged types job printers h
run_on-Turned types fork now job name printers (some p) h = elim (Bool-cases (p.busy == 0)) [
  | inl e ↦ rw e ((λ q. absurd (cc q)), busy_printer-Busier name printers)
  | inr e ↦ elim h [
    | inl idle ↦ absurd (ground (arith, e, idle))
    | inr blocked ↦ rw e (unchanged types job printers blocked)
  ]
]

-- What a choice tells.
abbrev IsSound : List FileType → Job → List Printer → Choice → Type 0
IsSound types job printers (Choice.chosen p) =
    IsIdle (get_printer p.name printers) ⊎ Blocked types job printers
IsSound types job printers Choice.nobody = Blocked types job printers
IsSound types job printers Choice.crashed = Unit

IsSound-Blocked :
    (types : List FileType) (job : Job) (printers : List Printer) (choice : Choice)
    → Blocked types job printers
    → IsSound types job printers choice
IsSound-Blocked types job printers (Choice.chosen p) h = inr h
IsSound-Blocked types job printers Choice.nobody h = h
IsSound-Blocked types job printers Choice.crashed h = tt

NoneOf-same :
    (test test' : Printer → Bool)
    → ((p : Printer) → test p ≡ test' p)
    → (printers : List Printer) → NoneOf test printers
    → NoneOf test' printers
NoneOf-same test test' same [] h = tt
NoneOf-same test test' same (p ∷ printers) h =
    (sym (same p) ∙ h.0, NoneOf-same test test' same printers h.1)

-- The first loop: a printer that is idle, or none that can take the job.
first_loop-IsSound :
    (types : List FileType) (job : Job) (n : ℕ) (type : List ℕ) (printers : List Printer)
    (first : Option Printer) (others : Choice)
    → type ≡ job.file_type
    → IsFleet n printers
    → ChoosesBy
        (λ p. is_usable job p && (p.busy == 0 && same_string p.type type))
        printers
        (as_choice first)
    → IsSound types job printers (or_choice (as_choice first) others)
first_loop-IsSound types job n type printers none others same fleet h =
    IsSound-Blocked types job printers others (λ there.
      subst (λ t. NoneOf (λ p. is_usable job p && (p.busy == 0 && same_string p.type t)) printers)
        same h)
first_loop-IsSound types job n type printers (some p) others same fleet h =
    let on : p.enabled ≢ 0 = λ off. ground (arith, h.1, off) in
    let idle : p.busy ≡ 0 = ground (arith, h.1) in
    inl (subst IsIdle (sym (get_printer-enabled p printers fleet.in_front h.0 on)) idle)

abbrev IsCalled : List ℕ → Option FileType → Type 0
IsCalled name none = Unit
IsCalled name (some t) = t.type ≡ name

get_type-IsCalled : (name : List ℕ) (types : List FileType) → IsCalled name (get_type name types)
unfolding get_type
get_type-IsCalled name [] = tt
get_type-IsCalled name (t ∷ types) = elim (Bool-cases (same_string name t.type)) [
  | inl e ↦ rw e (sym (same_string_eq name t.type e))
  | inr e ↦ rw e (get_type-IsCalled name types)
]

get_eligible_printer-IsSound :
    (types : List FileType) (job : Job) (n : ℕ) (printers : List Printer)
    → IsFleet n printers
    → IsSound types job printers (get_eligible_printer types job printers)
unfolding get_eligible_printer
get_eligible_printer-IsSound types job n printers fleet =
    elim (Option-cases (get_type job.file_type types)) [
      | inl e ↦ rw (get_eligible_printer, e) (λ there. absurd (there e))
      | inr (t, e) ↦
          rw (get_eligible_printer, e)
            (first_loop-IsSound types job n t.type printers _ _
              (subst (IsCalled job.file_type) e (get_type-IsCalled job.file_type types)) fleet
              (first_printer-ChoosesBy _ printers))
    ]

abbrev pub TurnedOption : List FileType → List Printer → Option (Job × List Printer) → Type 0
TurnedOption types printers none = Unit
TurnedOption types printers (some next) = Turned types printers next

turn-Turned :
    (types : List FileType) (fork : ℕ → ℕ) (now : ℕ) (job : Job) (printers : List Printer)
    (choice : Choice)
    → IsSound types job printers choice
    → TurnedOption types printers (turn fork now job printers choice)
unfolding turn run_job
turn-Turned types fork now job printers (Choice.chosen p) h =
    run_on-Turned types fork now job p.name printers (get_printer p.name printers) h
turn-Turned types fork now job printers Choice.nobody h = unchanged types job printers h
turn-Turned types fork now job printers Choice.crashed h = tt

pub turn_queued-Turned :
    (types : List FileType) (fork : ℕ → ℕ) (now : ℕ) (job : Job) (n : ℕ) (printers : List Printer)
    → IsFleet n printers
    → TurnedOption types printers (turn_queued types fork now job printers)
unfolding turn_queued
turn_queued-Turned types fork now job n printers fleet = elim (Bool-cases (is_queued job.status)) [
  | inl e ↦ rw e (
      turn-Turned types fork now job printers (get_eligible_printer types job printers)
        (get_eligible_printer-IsSound types job n printers fleet))
  | inr e ↦ rw e ((λ q. absurd (cc (e, q))), λ other k. k)
]
