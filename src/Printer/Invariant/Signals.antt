-- ===== src/Printer/Invariant/Signals.antt =====
-- The process groups that commands send signals to.
use mathlib.Core.Option.{Option, none, some}
use audible.Base.{
  ℕ, ◌≡◌, ◌≢◌, refl, ◌⊎◌, inl, inr, true, Bool, Bool-cases, Option-cases, List, [], ◌∷◌, ◌==◌, ◌&&◌,
  not,
}
use audible.Printer.Types.{same_string, get_type}
use audible.Printer.Words.{atoi, get_printer_set, strtok, space}
use audible.Printer.Jobs.{Job, JobList, JobStatus, get_job_by_id}
use audible.Printer.Printers.{Printer}
use audible.Printer.Spool.{Choice}
use audible.Printer.Console.{
  Spooler, Signal, Outcome, Command, is_running, is_paused, signal_found, signal_job, command_of,
  execute, run_words, run_command, with_printers, start_chosen, start_new, print_parts, print,
}
use audible.Printer.Invariant.{Started, AreStarted, IsSpooler}

-- The status in which a job is sent a signal.
abbrev pub Suits : Signal → JobStatus → Type 0
Suits Signal.sigtstp status = status ≡ JobStatus.running
Suits Signal.sigcont status = status ≡ JobStatus.paused
Suits Signal.sigterm status = status ≡ JobStatus.running

-- The group is that of a job in the status for the signal, and not the spooler's own.
abbrev pub IsAimed : List Job → ℕ × Signal → Type 0
IsAimed [] sent = ⊥
IsAimed (job ∷ jobs) sent =
    ((job.pgid ≡ sent.0) × (sent.0 ≢ 0) × Suits sent.1 job.status) ⊎ IsAimed jobs sent

abbrev pub AreAimed : List Job → List (ℕ × Signal) → Type 0
AreAimed jobs [] = Unit
AreAimed jobs (sent ∷ more) = IsAimed jobs sent × AreAimed jobs more

abbrev pub AimedOutcome : List Job → Outcome → Type 0
AimedOutcome jobs (Outcome.continues signals s) = AreAimed jobs signals
AimedOutcome jobs (Outcome.exits code) = Unit
AimedOutcome jobs Outcome.crashes = Unit

-- A test for the status that suits a signal, in which a job has a group.
abbrev IsTestFor : Signal → (JobStatus → Bool) → Type 0
IsTestFor signal test =
    (status : JobStatus) (printer : Option ℕ) (group : ℕ)
    → test status ≡ true
    → Started status printer group
    → Suits signal status × (group ≢ 0)

is_running-stops : IsTestFor Signal.sigtstp is_running
is_running-stops JobStatus.queued printer group e h = absurd (cc e)
is_running-stops JobStatus.running printer group e h = (refl, h.1)
is_running-stops JobStatus.paused printer group e h = absurd (cc e)
is_running-stops JobStatus.completed printer group e h = absurd (cc e)
is_running-stops JobStatus.aborted printer group e h = absurd (cc e)

is_paused-continues : IsTestFor Signal.sigcont is_paused
is_paused-continues JobStatus.queued printer group e h = absurd (cc e)
is_paused-continues JobStatus.running printer group e h = absurd (cc e)
is_paused-continues JobStatus.paused printer group e h = (refl, h.1)
is_paused-continues JobStatus.completed printer group e h = absurd (cc e)
is_paused-continues JobStatus.aborted printer group e h = absurd (cc e)

module _ (test : JobStatus → Bool) (signal : Signal) (tests : IsTestFor signal test) where
  -- One job more in front.
  AreAimed-cons :
      (x : Job) (jobs : List Job) (sent : List (ℕ × Signal))
      → AreAimed jobs sent
      → AreAimed (x ∷ jobs) sent
  AreAimed-cons x jobs [] h = tt
  AreAimed-cons x jobs (one ∷ sent) h = (inr h.0, AreAimed-cons x jobs sent h.1)

  signal_found-AreAimed :
      (id : ℕ) (jobs : List Job)
      → AreStarted jobs
      → AreAimed jobs (signal_found test signal (get_job_by_id id jobs))
  unfolding get_job_by_id
  signal_found-AreAimed id [] h = tt
  signal_found-AreAimed id (x ∷ jobs) h = elim (Bool-cases (x.jobid == id)) [
    | inl e ↦ elim (Bool-cases (test x.status)) [
      | inl t ↦
          rw (e, t)
            (let suits = tests x.status x.chosen_printer x.pgid t h.0 in
              (inl (refl, suits.1, suits.0), tt))
      | inr t ↦ rw (e, t) tt
    ]
    | inr e ↦ rw e (AreAimed-cons x jobs _ (signal_found-AreAimed id jobs h.1))
  ]

  signal_job-AreAimed :
      (word : Option (List ℕ)) (jobs : List Job)
      → AreStarted jobs
      → AreAimed jobs (signal_job test signal word jobs)
  unfolding signal_job
  signal_job-AreAimed none jobs h = tt
  signal_job-AreAimed (some word) jobs h =
      elim (Bool-cases (atoi word == 0 && not (same_string word (48 ∷ [])))) [
        | inl e ↦ rw e tt
        | inr e ↦ rw e (signal_found-AreAimed (atoi word) jobs h)
      ]

start_chosen-silent :
    (jobs : List Job) (fork : ℕ → ℕ) (now : ℕ) (job : Job) (l : JobList) (s : Spooler)
    (choice : Choice)
    → AimedOutcome jobs (start_chosen fork now job l s choice)
unfolding start_chosen
start_chosen-silent jobs fork now job l s (Choice.chosen p) = tt
start_chosen-silent jobs fork now job l s Choice.nobody = tt
start_chosen-silent jobs fork now job l s Choice.crashed = tt

start_new-silent :
    (jobs : List Job) (fork : ℕ → ℕ) (now : ℕ) (s : Spooler) (made : Option Job × JobList)
    → AimedOutcome jobs (start_new fork now s made)
unfolding start_new
start_new-silent jobs fork now s (none, l) = tt
start_new-silent jobs fork now s (some job, l) = start_chosen-silent jobs fork now job l s _

print_parts-silent :
    (jobs : List Job) (fork : ℕ → ℕ) (now : ℕ) (name type printers : Option (List ℕ)) (s : Spooler)
    → AimedOutcome jobs (print_parts fork now name type printers s)
unfolding print_parts
print_parts-silent jobs fork now name none printers s = tt
print_parts-silent jobs fork now name (some type) printers s =
    elim (Option-cases (get_type type s.types)) [
      | inl e ↦ rw (print_parts, e) tt
      | inr (t, e) ↦ elim (Bool-cases (get_printer_set printers s.printers.printers == 0)) [
        | inl z ↦ rw (print_parts, e, z) tt
        | inr nz ↦ rw (print_parts, e, nz) (start_new-silent jobs fork now s _)
      ]
    ]

print-silent :
    (jobs : List Job) (fork : ℕ → ℕ) (now : ℕ) (file printers : Option (List ℕ)) (s : Spooler)
    → AimedOutcome jobs (print fork now file printers s)
unfolding print
print-silent jobs fork now none printers s = tt
print-silent jobs fork now (some file) printers s = print_parts-silent jobs fork now _ _ printers s

with_printers-silent :
    (jobs : List Job) (s : Spooler) (r : Option (List Printer))
    → AimedOutcome jobs (with_printers s r)
with_printers-silent jobs s none = tt
with_printers-silent jobs s (some printers) = tt

module _ (fork : ℕ → ℕ) (now : ℕ) (s : Spooler) (h : IsSpooler s) where
  execute-AimedOutcome :
      (command : Command) (rest : List ℕ)
      → AimedOutcome s.jobs.jobs (execute fork now command rest s)
  unfolding execute
  execute-AimedOutcome Command.help_flag rest = tt
  execute-AimedOutcome Command.type_flag rest = tt
  execute-AimedOutcome Command.printer_flag rest = tt
  execute-AimedOutcome Command.printers_flag rest = tt
  execute-AimedOutcome Command.jobs_flag rest = tt
  execute-AimedOutcome Command.pause_flag rest =
      signal_job-AreAimed is_running Signal.sigtstp is_running-stops _ s.jobs.jobs h.started
  execute-AimedOutcome Command.resume_flag rest =
      signal_job-AreAimed is_paused Signal.sigcont is_paused-continues _ s.jobs.jobs h.started
  execute-AimedOutcome Command.cancel_flag rest =
      signal_job-AreAimed is_running Signal.sigterm is_running-stops _ s.jobs.jobs h.started
  execute-AimedOutcome Command.conversion_flag rest = tt
  execute-AimedOutcome Command.print_flag rest = print-silent s.jobs.jobs fork now _ _ s
  execute-AimedOutcome Command.disable_flag rest = with_printers-silent s.jobs.jobs s _
  execute-AimedOutcome Command.enable_flag rest = with_printers-silent s.jobs.jobs s _
  execute-AimedOutcome Command.quit_flag rest = tt
  execute-AimedOutcome Command.unknown_flag rest = tt

  run_words-AimedOutcome :
      (words : Option (List ℕ) × List ℕ) → AimedOutcome s.jobs.jobs (run_words fork now words s)
  run_words-AimedOutcome (none, rest) = tt
  run_words-AimedOutcome (some flag, rest) = execute-AimedOutcome (command_of flag) rest

-- From a spooler that is in order, every signal that `runCommand` sends goes to the process group of one of
-- its jobs, which is not 0, the group of the spooler itself: `SIGTSTP` and `SIGTERM` to that of a job that is
-- running, and `SIGCONT` to that of one that is paused.
pub run_command-AimedOutcome :
    (fork : ℕ → ℕ) (now : ℕ) (input : List ℕ) (s : Spooler)
    → IsSpooler s
    → AimedOutcome s.jobs.jobs (run_command fork now input s)
unfolding run_command
run_command-AimedOutcome fork now input s h =
    run_words-AimedOutcome fork now s h (strtok space input)
