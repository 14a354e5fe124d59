-- ===== src/Printer/Process/Success.antt =====
-- When the process of a job ends well.
use audible.Base.{
  ℕ, suc, ◌≡◌, ◌≢◌, refl, ap, ◌↔◌, inl, inr, true, false, Bool-cases, List, [], ◌∷◌, arith,
}
use audible.Printer.Types.{Conversion, FileType, max_conversions}
use audible.Printer.Types.Paths.{Search, get_conversion_path}
use audible.Printer.Printers.{Printer}
use audible.Printer.Jobs.{Job}
use audible.Printer.Process.{
  Ending, System, has_failed, print_end, convert_all, convert_found, run_job_process,
}

-- No program of the path fails, and there are pipes for each.
abbrev pub AllRun : System → ℕ → List Conversion → Type 0
AllRun system n [] = Unit
AllRun system n (c ∷ []) = system.runs c ≢ Ending.exit 1
AllRun system n (c ∷ d ∷ path) =
    (system.runs c ≢ Ending.exit 1)
    × (system.pipes (suc n) ≡ true)
    × AllRun system (suc n) (d ∷ path)

abbrev pub PathRuns : System → Search → Type 0
PathRuns system (Search.found path) = AllRun system 0 path
PathRuns system Search.not_found = Unit
PathRuns system Search.fault = ⊥

has_failed_ne : (e : Ending) → has_failed e ≡ false → e ≢ Ending.exit 1
unfolding has_failed
has_failed_ne (Ending.exit code) h = λ same. ground (arith, h, code_eq same)
  where
    code_eq : Ending.exit code ≡ Ending.exit 1 → code ≡ 1
    code_eq same = cc same
has_failed_ne Ending.killed h = λ same. cc same

has_failed_eq : (e : Ending) → has_failed e ≡ true → e ≡ Ending.exit 1
unfolding has_failed
has_failed_eq (Ending.exit code) h = ap Ending.exit (ground (arith, h))
has_failed_eq Ending.killed h = absurd (cc h)

-- The exit status 0 of the end, where the program at the printer does not fail.
print_end_iff :
    (system : System) (printer : Printer)
    → (print_end system printer ≡ Ending.exit 0) ↔ (system.prints printer ≢ Ending.exit 1)
unfolding print_end
print_end_iff system printer = elim (Bool-cases (has_failed (system.prints printer))) [
  | inl e ↦ rw e (not_one, λ h. absurd (h (has_failed_eq (system.prints printer) e)))
  | inr e ↦ rw e ((λ h. has_failed_ne (system.prints printer) e), λ h. refl)
]
  where
    not_one : {A : Type 0} → Ending.exit 1 ≡ Ending.exit 0 → A
    not_one h = absurd (cc h)

convert_all_iff :
    (system : System) (printer : Printer) (n : ℕ) (path : List Conversion)
    → (convert_all system printer n path ≡ Ending.exit 0)
      ↔ (AllRun system n path × (system.prints printer ≢ Ending.exit 1))
unfolding convert_all
convert_all_iff system printer n [] =
    let last = print_end_iff system printer in ((λ h. (tt, last.0 h)), λ h. last.1 h.1)
convert_all_iff system printer n (c ∷ []) = elim (Bool-cases (has_failed (system.runs c))) [
  | inl e ↦ rw e ((λ h. absurd (cc h)), λ h. absurd (h.0 (has_failed_eq (system.runs c) e)))
  | inr e ↦
      let last = print_end_iff system printer in
      rw e ((λ h. (has_failed_ne (system.runs c) e, last.0 h)), λ h. last.1 h.1)
]
convert_all_iff system printer n (c ∷ d ∷ path) = elim (Bool-cases (has_failed (system.runs c))) [
  | inl e ↦ rw e ((λ h. absurd (cc h)), λ h. absurd (h.0.0 (has_failed_eq (system.runs c) e)))
  | inr e ↦ elim (Bool-cases (system.pipes (suc n))) [
    | inl made ↦
        let rest = convert_all_iff system printer (suc n) (d ∷ path) in
        rw (e, made)
          (
            (λ h. ((has_failed_ne (system.runs c) e, refl, (rest.0 h).0), (rest.0 h).1)),
            λ h. rest.1 (h.0.2, h.1),
          )
    | inr lost ↦ rw (e, lost) ((λ h. absurd (cc h)), λ h. absurd (cc h.0.1))
  ]
]

convert_found_iff :
    (system : System) (printer : Printer) (found : Search)
    → (convert_found system printer found ≡ Ending.exit 0)
      ↔ (PathRuns system found × (system.prints printer ≢ Ending.exit 1))
convert_found_iff system printer (Search.found path) = convert_all_iff system printer 0 path
convert_found_iff system printer Search.not_found = convert_all_iff system printer 0 []
convert_found_iff system printer Search.fault = ((λ h. absurd (cc h)), λ h. absurd h.0)

-- The process of a job exits with 0, for which the handler records the job as completed, exactly where the
-- file opens, the pipes are made, the search for a path reads no missing type, and neither a program of the
-- path nor the one at the printer exits with 1: a program that exits with another status or is killed
-- counts as one that succeeds.
pub run_job_process_iff :
    (system : System) (types : List FileType) (file : List ℕ) (job : Job) (printer : Printer)
    → (run_job_process system types file job printer ≡ Ending.exit 0) ↔ (
        (system.opens file ≡ true)
        × (system.pipes 0 ≡ true)
        × PathRuns system (get_conversion_path types job.file_type printer.type max_conversions)
        × (system.prints printer ≢ Ending.exit 1))
unfolding run_job_process
run_job_process_iff system types file job printer = elim (Bool-cases (system.opens file)) [
  | inl opened ↦ elim (Bool-cases (system.pipes 0)) [
    | inl made ↦
        let rest =
          convert_found_iff system printer
            (get_conversion_path types job.file_type printer.type max_conversions) in
        rw (opened, made) ((λ h. (refl, refl, (rest.0 h).0, (rest.0 h).1)), λ h. rest.1 (h.2, h.3))
    | inr lost ↦ rw (opened, lost) ((λ h. absurd (cc h)), λ h. absurd (cc h.1))
  ]
  | inr closed ↦ rw closed ((λ h. absurd (cc h)), λ h. absurd (cc h.0))
]
