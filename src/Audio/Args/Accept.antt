-- ===== src/Audio/Args/Accept.antt =====
-- `validargs` accepts the forms of the usage message, with the code's own factors and keys, and nothing
-- else.
mod Speed
mod Crypt
pub mod Plain
use audible.Base.{
  ℕ, zero, suc, ◌+◌, ◌-◌, ◌*◌, ◌^◌, ◌≤◌, ◌<◌, ◌≡◌, ◌≢◌, refl, sym, ◌∙◌, ap, ◌↔◌, ◌⊎◌, inl, inr,
  Bool, true, false, List, [], ◌∷◌, arith, ltb, leb, ◌==◌, if◌then◌else◌, length, Bool-cases,
}
use audible.Audio.Options.{truth}
use audible.Audio.Options.Fields.{word}
use audible.Audio.Args.{
  CString, flag, arg, compare_flags, validargs, valid_speed_usage, valid_crypt_usage, record_speed,
  record_crypt,
}
use audible.Audio.Args.Strings.{
  IsCString, AreCStrings, flag-cases, compare_flags_self, compare_flags_ne,
}
use audible.Audio.Args.Usage.{CodeUsage, help, speed_up, slow_down, crypt}
use audible.Audio.Args.Usage.{CodeSpeedArgs}
use mathlib.Core.Path.{subst}
use Speed.{speed_sound, speed_complete, Found, Recorded}
use Speed
use Crypt.{crypt_sound, crypt_complete}
use Crypt

abbrev run : List CString → ℕ × ℕ
run argv = validargs (length argv) argv

abbrev outcome : ℕ → ℕ → ℕ × ℕ
outcome valid options = if truth valid then (1, options) else (0, 0)

module _ (prog : CString) (rest : List CString) where
  run_help : run (prog ∷ flag b'h' ∷ rest) ≡ (1, 2 ^ 63)
  unfolding validargs
  run_help = ground (arith, compare_flags_self b'h')

  run_speed_up :
      run (prog ∷ flag b'u' ∷ rest)
      ≡ outcome (Speed.usage prog b'u' rest) (Speed.record_of prog b'u' 4 rest)
  unfolding validargs Speed.usage Speed.record_of
  run_speed_up = ground (arith, compare_flags_ne b'u' b'h' (omega arith), compare_flags_self b'u')

  run_slow_down :
      run (prog ∷ flag b'd' ∷ rest)
      ≡ outcome (Speed.usage prog b'd' rest) (Speed.record_of prog b'd' 2 rest)
  unfolding validargs Speed.usage Speed.record_of
  run_slow_down = ground (
    arith,
    compare_flags_ne b'd' b'h' (omega arith),
    compare_flags_ne b'd' b'u' (omega arith),
    compare_flags_self b'd',
  )

  run_crypt :
      run (prog ∷ flag b'c' ∷ rest) ≡ outcome (Crypt.usage prog rest) (Crypt.record_of prog rest)
  unfolding validargs Crypt.usage Crypt.record_of
  run_crypt = ground (
    arith,
    compare_flags_ne b'c' b'h' (omega arith),
    compare_flags_ne b'c' b'u' (omega arith),
    compare_flags_ne b'c' b'd' (omega arith),
    compare_flags_self b'c',
  )

  run_other :
      (a : CString)
      → compare_flags a (flag b'h') ≡ 0
      → compare_flags a (flag b'u') ≡ 0
      → compare_flags a (flag b'd') ≡ 0
      → compare_flags a (flag b'c') ≡ 0
      → run (prog ∷ a ∷ rest) ≡ (0, 0)
  unfolding validargs
  run_other a nh nu nd nc = ground arith

outcome_accepted : {valid o : ℕ} → valid ≢ 0 → outcome valid o ≡ (1, o)
outcome_accepted h = ground arith

-- Every command line of these forms is accepted, with the options word that it stands for.
validargs-accepts :
    {argv : List CString} {o : ℕ} → AreCStrings argv → CodeUsage argv o → run argv ≡ (1, o)
unfolding Recorded Crypt.Recorded
validargs-accepts h (help prog rest ea eo) = rw (ea, eo) (run_help prog rest)
validargs-accepts h (speed_up prog rest p f form ea eo) =
    let done = speed_complete prog b'u' 4 (omega arith) (omega arith) (omega arith) form in
    rw (ea, eo) (run_speed_up prog rest ∙ outcome_accepted done.0 ∙ ap (λ o. (1, o)) done.1)
validargs-accepts h (slow_down prog rest p f form ea eo) =
    let done = speed_complete prog b'd' 2 (omega arith) (omega arith) (omega arith) form in
    rw (ea, eo) (run_slow_down prog rest ∙ outcome_accepted done.0 ∙ ap (λ o. (1, o)) done.1)
validargs-accepts h (crypt prog rest p k form ea eo) =
    let h' = rw ea at h in
    let done = crypt_complete prog h'.1.1 form in
    rw (ea, eo) (run_crypt prog rest ∙ outcome_accepted done.0 ∙ ap (λ o. (1, o)) done.1)

Decided : List CString → Type 0
Decided argv = ((o : ℕ) × CodeUsage argv o) ⊎ (run argv ≡ (0, 0))

decide_speed :
    (prog : CString) (m mode : ℕ) (rest : List CString)
    → m ≢ b'p'
    → m ≢ b'f'
    → mode < 8
    → AreCStrings rest
    → run (prog ∷ flag m ∷ rest)
      ≡ outcome (Speed.usage prog m rest) (Speed.record_of prog m mode rest)
    → ((p : ℕ) (f : ℕ)
        → CodeSpeedArgs rest p f
        → CodeUsage (prog ∷ flag m ∷ rest) (word mode p f 0))
    → Decided (prog ∷ flag m ∷ rest)
unfolding Decided Found
decide_speed prog m mode rest np nf fits h computed form =
    elim (Bool-cases (Speed.usage prog m rest == 0)) [
      | inl e ↦ inr (computed ∙ ground arith)
      | inr e ↦
          let found = speed_sound prog m mode np nf fits rest h (ground arith) in
          inl (word mode found.0 found.1 0, form found.0 found.1 found.2)
    ]

decide_crypt :
    (prog : CString) (rest : List CString) → AreCStrings rest → Decided (prog ∷ flag b'c' ∷ rest)
unfolding Decided Crypt.Found
decide_crypt prog rest h = elim (Bool-cases (Crypt.usage prog rest == 0)) [
  | inl e ↦ inr (run_crypt prog rest ∙ ground arith)
  | inr e ↦
      let found = crypt_sound prog rest h (ground arith) in
      inl (word 1 found.0 0 found.1, crypt prog rest found.0 found.1 found.2 refl refl)
]

decide : (argv : List CString) → AreCStrings argv → Decided argv
unfolding Decided
decide [] h = inr (unfold validargs in refl)
decide (prog ∷ []) h = inr (unfold validargs in refl)
decide (prog ∷ a ∷ rest) h = elim (flag-cases a b'h' (omega arith) h.1.0) [
  | inl e ↦ rw e (inl (2 ^ 63, help prog rest refl refl))
  | inr nh ↦ elim (flag-cases a b'u' (omega arith) h.1.0) [
    | inl e ↦ rw e (
        decide_speed prog b'u' 4 rest (omega arith) (omega arith) (omega arith) h.1.1
          (run_speed_up prog rest) (λ p f form. speed_up prog rest p f form refl refl))
    | inr nu ↦ elim (flag-cases a b'd' (omega arith) h.1.0) [
      | inl e ↦ rw e (
          decide_speed prog b'd' 2 rest (omega arith) (omega arith) (omega arith) h.1.1
            (run_slow_down prog rest) (λ p f form. slow_down prog rest p f form refl refl))
      | inr nd ↦ elim (flag-cases a b'c' (omega arith) h.1.0) [
        | inl e ↦ rw e (decide_crypt prog rest h.1.1)
        | inr nc ↦ inr (run_other prog rest a nh nu nd nc)
      ]
    ]
  ]
]

pub validargs_iff :
    (argv : List CString) (o : ℕ)
    → AreCStrings argv
    → (validargs (length argv) argv ≡ (1, o)) ↔ CodeUsage argv o
unfolding Decided
validargs_iff argv o h = (accepted, validargs-accepts h)
  where
    accepted : validargs (length argv) argv ≡ (1, o) → CodeUsage argv o
    accepted e = elim (decide argv h) [
      | inl u ↦ subst (CodeUsage argv) (ap (λ r. r.1) (sym (validargs-accepts h u.1) ∙ e)) u.1
      | inr z ↦ absurd (ground arith)
    ]
