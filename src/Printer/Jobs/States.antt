-- ===== src/Printer/Jobs/States.antt =====
-- The state machine of a job under `pauseJob`, `resumeJob`, `completeJob` and `abortJob`.
use audible.Base.{ℕ, ◌≡◌, refl, ◌∙◌, ap, ◌⊎◌, inl, inr, true, List, [], ◌∷◌}
use audible.Printer.Jobs.{
  Job, JobStatus, is_over, changed, pause_job, resume_job, complete_job, abort_job,
}

pub data Operation : Type 0 where
  pause : Operation
  resume : Operation
  complete : Operation
  abort : Operation

abbrev pub act : Operation → ℕ → Job → Job
act Operation.pause now job = pause_job now job
act Operation.resume now job = resume_job now job
act Operation.complete now job = complete_job now job
act Operation.abort now job = abort_job now job

-- The calls of a sequence, each with its time.
abbrev pub acts : List (Operation × ℕ) → Job → Job
acts [] job = job
acts (call ∷ calls) job = acts calls (act call.0 call.1 job)

-- The changes of status that the operations make.
pub data Allowed : Operation → JobStatus → JobStatus → Type 0 where
  pausing : Allowed Operation.pause JobStatus.running JobStatus.paused
  resuming : Allowed Operation.resume JobStatus.paused JobStatus.running
  completing : Allowed Operation.complete JobStatus.running JobStatus.completed
  aborting : Allowed Operation.abort JobStatus.running JobStatus.aborted
  aborting_paused : Allowed Operation.abort JobStatus.paused JobStatus.aborted

-- From the status `from`, either nothing happens and nothing was allowed, or the status changes as
-- allowed and the time is recorded.
abbrev pub Moves : Operation → ℕ → Job → JobStatus → Type 0
Moves op now job from =
    ((act op now job ≡ job) × ((to : JobStatus) → Allowed op from to → ⊥))
    ⊎ ((to : JobStatus) × Allowed op from to × (act op now job ≡ changed to now job))

Source : Operation → JobStatus → Type 0
Source Operation.pause from = from ≡ JobStatus.running
Source Operation.resume from = from ≡ JobStatus.paused
Source Operation.complete from = from ≡ JobStatus.running
Source Operation.abort from = (from ≡ JobStatus.running) ⊎ (from ≡ JobStatus.paused)

Allowed-Source : (op : Operation) (from to : JobStatus) → Allowed op from to → Source op from
unfolding Source
Allowed-Source op from to Allowed.pausing = refl
Allowed-Source op from to Allowed.resuming = refl
Allowed-Source op from to Allowed.completing = refl
Allowed-Source op from to Allowed.aborting = inl refl
Allowed-Source op from to Allowed.aborting_paused = inr refl

unmoved :
    (op : Operation) (now : ℕ) (job : Job) (from : JobStatus)
    → (Source op from → ⊥)
    → act op now job ≡ job
    → Moves op now job from
unmoved op now job from bad e = inl (e, λ to a. bad (Allowed-Source op from to a))

act-from :
    (op : Operation) (now : ℕ) (job : Job) (from : JobStatus)
    → job.status ≡ from
    → Moves op now job from
unfolding Source pause_job resume_job complete_job abort_job
act-from Operation.pause now job JobStatus.running e =
    inr (JobStatus.paused, Allowed.pausing, rw e refl)
act-from Operation.pause now job JobStatus.queued e = unmoved _ now job _ (λ h. cc h) (rw e refl)
act-from Operation.pause now job JobStatus.paused e = unmoved _ now job _ (λ h. cc h) (rw e refl)
act-from Operation.pause now job JobStatus.completed e = unmoved _ now job _ (λ h. cc h) (rw e refl)
act-from Operation.pause now job JobStatus.aborted e = unmoved _ now job _ (λ h. cc h) (rw e refl)
act-from Operation.resume now job JobStatus.paused e =
    inr (JobStatus.running, Allowed.resuming, rw e refl)
act-from Operation.resume now job JobStatus.queued e = unmoved _ now job _ (λ h. cc h) (rw e refl)
act-from Operation.resume now job JobStatus.running e = unmoved _ now job _ (λ h. cc h) (rw e refl)
act-from Operation.resume now job JobStatus.completed e =
    unmoved _ now job _ (λ h. cc h) (rw e refl)
act-from Operation.resume now job JobStatus.aborted e = unmoved _ now job _ (λ h. cc h) (rw e refl)
act-from Operation.complete now job JobStatus.running e =
    inr (JobStatus.completed, Allowed.completing, rw e refl)
act-from Operation.complete now job JobStatus.queued e = unmoved _ now job _ (λ h. cc h) (rw e refl)
act-from Operation.complete now job JobStatus.paused e = unmoved _ now job _ (λ h. cc h) (rw e refl)
act-from Operation.complete now job JobStatus.completed e =
    unmoved _ now job _ (λ h. cc h) (rw e refl)
act-from Operation.complete now job JobStatus.aborted e =
    unmoved _ now job _ (λ h. cc h) (rw e refl)
act-from Operation.abort now job JobStatus.running e =
    inr (JobStatus.aborted, Allowed.aborting, rw e refl)
act-from Operation.abort now job JobStatus.paused e =
    inr (JobStatus.aborted, Allowed.aborting_paused, rw e refl)
act-from Operation.abort now job JobStatus.queued e =
    unmoved _ now job _ (λ h. elim h [ inl r ↦ cc r | inr r ↦ cc r ]) (rw e refl)
act-from Operation.abort now job JobStatus.completed e =
    unmoved _ now job _ (λ h. elim h [ inl r ↦ cc r | inr r ↦ cc r ]) (rw e refl)
act-from Operation.abort now job JobStatus.aborted e =
    unmoved _ now job _ (λ h. elim h [ inl r ↦ cc r | inr r ↦ cc r ]) (rw e refl)

-- Each operation makes the change of status that is allowed for it and records the time, or leaves the
-- job alone where none is allowed.
pub act-Moves : (op : Operation) (now : ℕ) (job : Job) → Moves op now job job.status
act-Moves op now job = act-from op now job job.status refl

act_over : (op : Operation) (now : ℕ) (job : Job) → is_over job.status ≡ true → act op now job ≡ job
unfolding is_over
act_over op now job h = elim (act-Moves op now job) [
  | inl m ↦ m.0
  | inr m ↦ absurd (not_over op job.status m.0 m.1 h)
]
  where
    not_over : (op : Operation) (from to : JobStatus) → Allowed op from to → is_over from ≡ true → ⊥
    not_over op from to Allowed.pausing h = cc h
    not_over op from to Allowed.resuming h = cc h
    not_over op from to Allowed.completing h = cc h
    not_over op from to Allowed.aborting h = cc h
    not_over op from to Allowed.aborting_paused h = cc h

-- A job that is completed or aborted remains as it is under every sequence of operations.
pub acts_over :
    (calls : List (Operation × ℕ)) (job : Job) → is_over job.status ≡ true → acts calls job ≡ job
acts_over [] job h = refl
acts_over (call ∷ calls) job h =
    ap (acts calls) (act_over call.0 call.1 job h) ∙ acts_over calls job h
