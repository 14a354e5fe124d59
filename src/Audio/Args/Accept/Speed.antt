-- ===== src/Audio/Args/Accept/Speed.antt =====
-- The arguments behind `-u` and `-d`.
use audible.Base.{ℕ, ◌-◌, ◌<◌, ◌≡◌, ◌≢◌, refl, inl, inr, List, [], ◌∷◌, arith, length}
use audible.Audio.Numerals.{char_to_int}
use audible.Audio.Options.Fields.{word}
use audible.Audio.Args.{CString, flag, valid_factor_helper, valid_speed_usage, record_speed}
use audible.Audio.Args.Numbers.{valid_factor-range, valid_factor-not_flag}
use audible.Audio.Options.Record.{preserve_record-word, factor_record-word, factor_record0-word}
use audible.Audio.Args.Strings.{
  IsCString, AreCStrings, flag-cases, compare_flags_self, compare_flags_ne,
}
use audible.Audio.Args.Usage.{
  CodeSpeedArgs, plain, preserve, factor, preserve_factor, factor_preserve,
}

-- A command line whose first flag has the letter `m`, which sets the mode bit `mode`.
module _ (prog : CString) (m : ℕ) where
  abbrev pub line : List CString → List CString
  line rest = prog ∷ flag m ∷ rest

  unfoldable pub usage : List CString → ℕ
  usage rest = valid_speed_usage (length (line rest)) (line rest)

  unfoldable pub record_of : ℕ → List CString → ℕ
  record_of mode rest = record_speed (length (line rest)) (line rest) (usage rest) (word mode 0 0 0)

  unfoldable pub Recorded : ℕ → List CString → ℕ → ℕ → Type 0
  Recorded mode rest p f = (usage rest ≢ 0) × (record_of mode rest ≡ word mode p f 0)

unfoldable pub Found : List CString → Type 0
Found rest = (p : ℕ) × (f : ℕ) × CodeSpeedArgs rest p f

module _ (prog : CString) (m mode : ℕ) (not_p : m ≢ b'p') (not_f : m ≢ b'f') (fits : mode < 8) where
  sound_one : (b : CString) → IsCString b → usage prog m (b ∷ []) ≢ 0 → Found (b ∷ [])
  unfolding usage valid_speed_usage Found
  sound_one b hb valid = elim (flag-cases b b'p' (ground arith) hb) [
    | inl e ↦ (1, 0x200, preserve (ground arith) refl refl)
    | inr z ↦ absurd (ground (arith, compare_flags_ne m b'p' not_p))
  ]

  sound_two :
      (b c : CString)
      → AreCStrings (b ∷ c ∷ [])
      → usage prog m (b ∷ c ∷ []) ≢ 0
      → Found (b ∷ c ∷ [])
  unfolding usage valid_speed_usage Found
  sound_two b c h valid = elim (flag-cases c b'f' (ground arith) h.1.0) [
    | inl e ↦ absurd (ground (arith, compare_flags_self b'f'))
    | inr z ↦ elim (flag-cases b b'f' (ground arith) h.0) [
      | inl e ↦ (
        0,
        char_to_int c - 1,
        factor c (ground (arith, valid_factor-range c, compare_flags_self b'f')) (ground arith) refl
            refl,
      )
      | inr y ↦ absurd (ground (arith, compare_flags_ne m b'f' not_f))
    ]
  ]

  sound_three :
      (b c d : CString)
      → AreCStrings (b ∷ c ∷ d ∷ [])
      → usage prog m (b ∷ c ∷ d ∷ []) ≢ 0
      → Found (b ∷ c ∷ d ∷ [])
  unfolding usage valid_speed_usage Found
  sound_three b c d h valid = elim (flag-cases d b'f' (ground arith) h.1.1.0) [
    | inl e ↦ absurd (ground (arith, compare_flags_self b'f'))
    | inr z ↦ elim (flag-cases c b'f' (ground arith) h.1.0) [
      | inl ec ↦ elim (flag-cases b b'p' (ground arith) h.0) [
        | inl eb ↦ (
          1,
          char_to_int d - 1,
          preserve_factor d (ground (arith, valid_factor-range d, compare_flags_self b'f'))
              (ground arith) refl refl,
        )
        | inr x ↦ absurd (
            ground (
              arith,
              compare_flags_self b'f',
              compare_flags_ne m b'p' not_p,
              compare_flags_ne b'f' b'p',
              valid_factor-not_flag d b'p',
            ))
      ]
      | inr y ↦ elim (flag-cases b b'f' (ground arith) h.0) [
        | inl eb ↦ elim (flag-cases d b'p' (ground arith) h.1.1.0) [
          | inl ed ↦ (
            1,
            char_to_int c - 1,
            factor_preserve c (ground (arith, valid_factor-range c, compare_flags_self b'f'))
                (ground arith) refl refl,
          )
          | inr x ↦ absurd (
              ground (
                arith,
                compare_flags_self b'f',
                compare_flags_ne m b'p' not_p,
                compare_flags_ne b'f' b'p',
                valid_factor-not_flag c b'p',
              ))
        ]
        | inr x ↦ absurd (ground (arith, compare_flags_ne m b'f' not_f))
      ]
    ]
  ]

  -- What is accepted is one of the forms.
  pub speed_sound : (rest : List CString) → AreCStrings rest → usage prog m rest ≢ 0 → Found rest
  unfolding Found
  speed_sound [] h valid = (0, 0x200, plain refl refl refl)
  speed_sound (b ∷ []) h valid = sound_one b h.0 valid
  speed_sound (b ∷ c ∷ []) h valid = sound_two b c h valid
  speed_sound (b ∷ c ∷ d ∷ []) h valid = sound_three b c d h valid
  speed_sound (b ∷ c ∷ d ∷ e ∷ rest) h valid =
      absurd (unfold usage valid_speed_usage in ground arith)

  complete_plain : Recorded prog m mode [] 0 0x200
  unfolding Recorded record_of usage valid_speed_usage record_speed
  complete_plain =
      ground (arith, compare_flags_ne m b'p' not_p, factor_record0-word mode fits 0 (omega arith))

  complete_preserve : Recorded prog m mode (flag b'p' ∷ []) 1 0x200
  unfolding Recorded record_of usage valid_speed_usage record_speed
  complete_preserve = ground (
    arith,
    compare_flags_self b'p',
    preserve_record-word mode fits,
    factor_record0-word mode fits 1 (omega arith),
  )

  module _ (n : CString) (valid : valid_factor_helper n ≡ 1) where
    complete_factor : Recorded prog m mode (flag b'f' ∷ n ∷ []) 0 (char_to_int n - 1)
    unfolding Recorded record_of usage valid_speed_usage record_speed
    complete_factor = ground (
      arith,
      compare_flags_self b'f',
      compare_flags_ne m b'p' not_p,
      compare_flags_ne b'f' b'p',
      valid_factor-range n,
      valid_factor-not_flag n b'f',
      valid_factor-not_flag n b'p',
      factor_record-word mode fits 0 (omega arith) n,
    )

    complete_preserve_factor :
        Recorded prog m mode (flag b'p' ∷ flag b'f' ∷ n ∷ []) 1 (char_to_int n - 1)
    unfolding Recorded record_of usage valid_speed_usage record_speed
    complete_preserve_factor = ground (
      arith,
      compare_flags_self b'f',
      compare_flags_self b'p',
      compare_flags_ne b'f' b'p',
      valid_factor-range n,
      valid_factor-not_flag n b'f',
      valid_factor-not_flag n b'p',
      preserve_record-word mode fits,
      factor_record-word mode fits 1 (omega arith) n,
    )

    complete_factor_preserve :
        Recorded prog m mode (flag b'f' ∷ n ∷ flag b'p' ∷ []) 1 (char_to_int n - 1)
    unfolding Recorded record_of usage valid_speed_usage record_speed
    complete_factor_preserve = ground (
      arith,
      compare_flags_self b'f',
      compare_flags_self b'p',
      compare_flags_ne b'p' b'f',
      valid_factor-range n,
      valid_factor-not_flag n b'f',
      preserve_record-word mode fits,
      factor_record-word mode fits 1 (omega arith) n,
    )

  -- Every form is accepted, and its fields are recorded.
  pub speed_complete :
      {rest : List CString} {p f : ℕ} → CodeSpeedArgs rest p f → Recorded prog m mode rest p f
  speed_complete (plain er ep ef) = rw (er, ep, ef) complete_plain
  speed_complete (preserve er ep ef) = rw (er, ep, ef) complete_preserve
  speed_complete (factor n v er ep ef) = rw (er, ep, ef) (complete_factor n v)
  speed_complete (preserve_factor n v er ep ef) = rw (er, ep, ef) (complete_preserve_factor n v)
  speed_complete (factor_preserve n v er ep ef) = rw (er, ep, ef) (complete_factor_preserve n v)
