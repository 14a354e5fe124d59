-- ===== src/Printer/Spool/Apart.antt =====
-- No printer has two jobs.
use mathlib.Core.Option.{Option, none, some}
use mathlib.Core.Path.{subst}
use audible.Base.{
  ℕ, ◌≡◌, ◌≢◌, refl, ◌∙◌, ap, sym, ◌⊎◌, inl, inr, Bool-cases, List, [], ◌∷◌, ◌==◌, arith,
}
use audible.Printer.Types.{FileType}
use audible.Printer.Printers.{Printer, get_printer, busy_printer}
use audible.Printer.Printers.Busy.{
  IsBusy, AreNumbered, Found, get_printer-idle, busy_printer-IsBusy, busy_printer-keeps,
  busy_printer-AreNumbered,
}
use audible.Printer.Jobs.{Job, JobStatus}
use audible.Printer.Spool.{
  Choice, run_on, run_job, is_queued, turn, turn_queued, run_jobs, get_eligible_printer,
}

-- The printer that a job holds, by the status and the printer chosen.
abbrev pub held_in : JobStatus → Option ℕ → Option ℕ
held_in JobStatus.queued i = none
held_in JobStatus.running i = i
held_in JobStatus.paused i = i
held_in JobStatus.completed i = none
held_in JobStatus.aborted i = none

abbrev pub holder : Job → Option ℕ
holder job = held_in job.status job.chosen_printer

abbrev pub NotHeld : ℕ → List Job → Type 0
NotHeld i [] = Unit
NotHeld i (job ∷ jobs) = (holder job ≢ some i) × NotHeld i jobs

-- The printers that jobs hold are busy.
abbrev pub AreServed : List Job → List Printer → Type 0
AreServed [] printers = Unit
AreServed (job ∷ jobs) printers =
    ((i : ℕ) → holder job ≡ some i → IsBusy i printers) × AreServed jobs printers

-- No two jobs hold the same printer.
abbrev pub AreApart : List Job → Type 0
AreApart [] = Unit
AreApart (job ∷ jobs) = ((i : ℕ) → holder job ≡ some i → NotHeld i jobs) × AreApart jobs

abbrev pub Keeps : List Printer → List Printer → Type 0
Keeps printers printers' = (i : ℕ) → IsBusy i printers → IsBusy i printers'

pub AreServed-Keeps :
    (jobs : List Job) (printers printers' : List Printer)
    → Keeps printers printers'
    → AreServed jobs printers
    → AreServed jobs printers'
AreServed-Keeps [] printers printers' k h = tt
AreServed-Keeps (job ∷ jobs) printers printers' k h =
    (λ i e. k i (h.0 i e), AreServed-Keeps jobs printers printers' k h.1)

-- A printer that is not busy is held by no job.
pub NotHeld-served :
    (i : ℕ) (jobs : List Job) (printers : List Printer)
    → (IsBusy i printers → ⊥)
    → AreServed jobs printers
    → NotHeld i jobs
NotHeld-served i [] printers idle h = tt
NotHeld-served i (job ∷ jobs) printers idle h =
    (λ e. idle (h.0 i e), NotHeld-served i jobs printers idle h.1)

-- What a turn does to the job and the printers: it leaves both, or gives the job an idle printer.
abbrev pub Turned : Job → List Printer → Job × List Printer → Type 0
Turned job printers (job', printers') =
    ((job' ≡ job) × (printers' ≡ printers))
    ⊎ ((Keeps printers printers' × AreNumbered printers')
        × ((i : ℕ) → holder job' ≡ some i → IsBusy i printers' × (IsBusy i printers → ⊥)))

run_on-Turned :
    (fork : ℕ → ℕ) (now : ℕ) (job : Job) (name : List ℕ) (printers : List Printer)
    (r : Option Printer)
    → AreNumbered printers
    → Found (λ p. p.busy ≡ 0 → IsBusy p.id printers → ⊥) r
    → Found (λ p. IsBusy p.id (busy_printer name printers)) r
    → Turned job printers (run_on fork now job name printers r)
unfolding run_on
run_on-Turned fork now job name printers none numbered safe busy = inl (refl, refl)
run_on-Turned fork now job name printers (some p) numbered safe busy =
    elim (Bool-cases (p.busy == 0)) [
      | inl e ↦ rw e (
          inr (
            (
              λ i b. busy_printer-keeps i name printers b,
              busy_printer-AreNumbered name printers numbered,
            ),
            λ i held.
                let same : p.id ≡ i = cc held in
                (
                  subst (λ j. IsBusy j (busy_printer name printers)) same busy,
                  subst (λ j. IsBusy j printers → ⊥) same (safe (ground (arith, e))),
                ),
          ))
      | inr e ↦ rw e (inl (refl, refl))
    ]

pub run_job-Turned :
    (fork : ℕ → ℕ) (now : ℕ) (job : Job) (name : List ℕ) (printers : List Printer)
    → AreNumbered printers
    → Turned job printers (run_job fork now job name printers)
unfolding run_job
run_job-Turned fork now job name printers numbered =
    run_on-Turned fork now job name printers (get_printer name printers) numbered
      (get_printer-idle name printers numbered) (busy_printer-IsBusy name printers)

abbrev TurnedOption : Job → List Printer → Option (Job × List Printer) → Type 0
TurnedOption job printers none = Unit
TurnedOption job printers (some next) = Turned job printers next

turn-Turned :
    (fork : ℕ → ℕ) (now : ℕ) (job : Job) (printers : List Printer) (choice : Choice)
    → AreNumbered printers
    → TurnedOption job printers (turn fork now job printers choice)
unfolding turn
turn-Turned fork now job printers (Choice.chosen p) numbered =
    run_job-Turned fork now job p.name printers numbered
turn-Turned fork now job printers Choice.nobody numbered = inl (refl, refl)
turn-Turned fork now job printers Choice.crashed numbered = tt

turn_queued-Turned :
    (types : List FileType) (fork : ℕ → ℕ) (now : ℕ) (job : Job) (printers : List Printer)
    → AreNumbered printers
    → TurnedOption job printers (turn_queued types fork now job printers)
unfolding turn_queued
turn_queued-Turned types fork now job printers numbered = elim (Bool-cases (is_queued job.status)) [
  | inl e ↦
      rw e (turn-Turned fork now job printers (get_eligible_printer types job printers) numbered)
  | inr e ↦ rw e (inl (refl, refl))
]

-- What holds of the jobs and the printers together.
pub record IsSpool (jobs : List Job) (printers : List Printer) : Type 0 where
  pub numbered : AreNumbered printers
  pub served : AreServed jobs printers
  pub apart : AreApart jobs

-- After the loop over the jobs: busy printers remain so, and those busy before are held by no new job.
abbrev pub Ran : List Job → List Printer → Option (List Job × List Printer) → Type 0
Ran jobs printers none = Unit
Ran jobs printers (some (jobs', printers')) =
    IsSpool jobs' printers'
    × Keeps printers printers'
    × ((i : ℕ) → IsBusy i printers → NotHeld i jobs → NotHeld i jobs')

-- One job in front of the others.
Ran-cons :
    (job job' : Job) (jobs : List Job) (printers printers1 : List Printer)
    (rest : Option (List Job × List Printer))
    → Turned job printers (job', printers1)
    → IsSpool (job ∷ jobs) printers
    → Ran jobs printers1 rest
    → Ran
        (job ∷ jobs)
        printers
        (elim rest [ none ↦ none | some (jobs', printers2) ↦ some (job' ∷ jobs', printers2) ])
Ran-cons job job' jobs printers printers1 none turned spool ran = tt
Ran-cons job job' jobs printers printers1 (some (jobs', printers2)) (inl same) spool ran =
    let held : holder job' ≡ holder job = ap (λ (j : Job). holder j) same.0 in
    let kept : Keeps printers printers2 = λ i b. ran.1 i (subst (IsBusy i) (sym same.1) b) in
    (
      record {
        numbered = ran.0.numbered;
        served = (λ i e. kept i (spool.served.0 i (sym held ∙ e)), ran.0.served);
        apart = (
          λ i e.
              ran.2 i (subst (IsBusy i) (sym same.1) (spool.served.0 i (sym held ∙ e)))
                (spool.apart.0 i (sym held ∙ e)),
          ran.0.apart,
        );
      },
      kept,
      λ i b not_held.
          (λ e. not_held.0 (sym held ∙ e), ran.2 i (subst (IsBusy i) (sym same.1) b) not_held.1),
    )
Ran-cons job job' jobs printers printers1 (some (jobs', printers2)) (inr taken) spool ran = (
  record {
    numbered = ran.0.numbered;
    served = (λ i e. ran.1 i (taken.1 i e).0, ran.0.served);
    apart = (
      λ i e.
          ran.2 i (taken.1 i e).0 (NotHeld-served i jobs printers (taken.1 i e).1 spool.served.1),
      ran.0.apart,
    );
  },
  λ i b. ran.1 i (taken.0.0 i b),
  λ i b not_held. (λ e. (taken.1 i e).1 b, ran.2 i (taken.0.0 i b) not_held.1),
)

-- The printers after a turn, for the jobs that are left.
IsSpool-next :
    (job job' : Job) (jobs : List Job) (printers printers1 : List Printer)
    → Turned job printers (job', printers1)
    → IsSpool (job ∷ jobs) printers
    → IsSpool jobs printers1
IsSpool-next job job' jobs printers printers1 (inl same) spool =
    subst (IsSpool jobs) (sym same.1)
      (record { numbered = spool.numbered; served = spool.served.1; apart = spool.apart.1 })
IsSpool-next job job' jobs printers printers1 (inr taken) spool = record {
  numbered = taken.0.1;
  served = AreServed-Keeps jobs printers printers1 taken.0.0 spool.served.1;
  apart = spool.apart.1;
}

-- `runJobs` keeps the printers of the jobs apart. In a spool, where the printers have distinct identifiers, the
-- printers of the jobs that are running or paused are busy, and no two of these jobs have the same, it
-- leaves a spool, unless it crashes; busy printers remain busy, and those that were busy get no job.
pub run_jobs-IsSpool :
    (types : List FileType) (fork : ℕ → ℕ) (now : ℕ) (jobs : List Job) (printers : List Printer)
    → IsSpool jobs printers
    → Ran jobs printers (run_jobs types fork now jobs printers)
unfolding run_jobs
run_jobs-IsSpool types fork now [] printers spool = (spool, λ i b. b, λ i b h. tt)
run_jobs-IsSpool types fork now (job ∷ jobs) printers spool =
    elim (turn_queued types fork now job printers)
        as (λ x.
          TurnedOption job printers x
          → Ran (job ∷ jobs) printers (elim x as (λ _. Option (List Job × List Printer)) [
            | none ↦ none
            | some (job', printers1) ↦ elim (run_jobs types fork now jobs printers1) [
              | none ↦ none
              | some (jobs', printers2) ↦ some (job' ∷ jobs', printers2)
            ]
          ])) [
            | none ↦ λ _. tt
            | some (job', printers1) ↦ λ turned.
                Ran-cons job job' jobs printers printers1 (run_jobs types fork now jobs printers1)
                  turned spool
                  (run_jobs-IsSpool types fork now jobs printers1
                    (IsSpool-next job job' jobs printers printers1 turned spool))
          ]
      (turn_queued-Turned types fork now job printers spool.numbered)
