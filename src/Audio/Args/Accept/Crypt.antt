-- ===== src/Audio/Args/Accept/Crypt.antt =====
-- The arguments behind `-c`.
use audible.Base.{ℕ, ◌≡◌, ◌≢◌, refl, inl, inr, List, [], ◌∷◌, arith, length}
use audible.Audio.Numerals.{hex_string_to_int}
use audible.Audio.Options.Fields.{word}
use audible.Audio.Options.Record.{preserve_record-word, key_record-word}
use audible.Audio.Args.{CString, flag, valid_key_helper, valid_crypt_usage, record_crypt}
use audible.Audio.Args.Strings.{
  IsCString, AreCStrings, flag-cases, compare_flags_self, compare_flags_ne,
}
use audible.Audio.Args.Numbers.{valid_key-one, valid_key-not_flag, valid_key-lt}
use audible.Audio.Args.Usage.{CodeCryptArgs, key, preserve_key, key_preserve}

module _ (prog : CString) where
  abbrev line : List CString → List CString
  line rest = prog ∷ flag b'c' ∷ rest

  unfoldable pub usage : List CString → ℕ
  usage rest = valid_crypt_usage (length (line rest)) (line rest)

  unfoldable pub Found : List CString → Type 0
  Found rest = (p : ℕ) × (k : ℕ) × CodeCryptArgs rest p k

  sound_two :
      (b c : CString) → AreCStrings (b ∷ c ∷ []) → usage (b ∷ c ∷ []) ≢ 0 → Found (b ∷ c ∷ [])
  unfolding usage valid_crypt_usage Found
  sound_two b c h valid = elim (flag-cases c b'k' (ground arith) h.1.0) [
    | inl e ↦ absurd (ground (arith, compare_flags_self b'k'))
    | inr z ↦ elim (flag-cases b b'k' (ground arith) h.0) [
      | inl e ↦ (
        0,
        hex_string_to_int c,
        key c (ground (arith, valid_key-one c, compare_flags_self b'k')) (ground arith) refl refl,
      )
      | inr y ↦ absurd (ground (arith, compare_flags_ne b'c' b'k'))
    ]
  ]

  sound_three :
      (b c d : CString)
      → AreCStrings (b ∷ c ∷ d ∷ [])
      → usage (b ∷ c ∷ d ∷ []) ≢ 0
      → Found (b ∷ c ∷ d ∷ [])
  unfolding usage valid_crypt_usage Found
  sound_three b c d h valid = elim (flag-cases d b'k' (ground arith) h.1.1.0) [
    | inl e ↦ absurd (ground (arith, compare_flags_self b'k'))
    | inr z ↦ elim (flag-cases c b'k' (ground arith) h.1.0) [
      | inl ec ↦ elim (flag-cases b b'p' (ground arith) h.0) [
        | inl eb ↦ (
          1,
          hex_string_to_int d,
          preserve_key d (ground (arith, valid_key-one d, compare_flags_self b'k')) (ground arith)
              refl refl,
        )
        | inr x ↦ absurd (
            ground (
              arith,
              compare_flags_self b'k',
              compare_flags_ne b'c' b'p',
              compare_flags_ne b'k' b'p',
              valid_key-not_flag d b'p',
            ))
      ]
      | inr y ↦ elim (flag-cases b b'k' (ground arith) h.0) [
        | inl eb ↦ elim (flag-cases d b'p' (ground arith) h.1.1.0) [
          | inl ed ↦ (
            1,
            hex_string_to_int c,
            key_preserve c (ground (arith, valid_key-one c, compare_flags_self b'k')) (ground arith)
                refl refl,
          )
          | inr x ↦ absurd (
              ground (
                arith,
                compare_flags_self b'k',
                compare_flags_ne b'c' b'p',
                compare_flags_ne b'k' b'p',
                valid_key-not_flag c b'p',
              ))
        ]
        | inr x ↦ absurd (ground (arith, compare_flags_ne b'c' b'k'))
      ]
    ]
  ]

  -- What is accepted is one of the forms.
  pub crypt_sound : (rest : List CString) → AreCStrings rest → usage rest ≢ 0 → Found rest
  unfolding Found
  crypt_sound [] h valid = absurd (unfold usage valid_crypt_usage in ground arith)
  crypt_sound (b ∷ []) h valid = absurd (unfold usage valid_crypt_usage in ground arith)
  crypt_sound (b ∷ c ∷ []) h valid = sound_two b c h valid
  crypt_sound (b ∷ c ∷ d ∷ []) h valid = sound_three b c d h valid
  crypt_sound (b ∷ c ∷ d ∷ e ∷ rest) h valid =
      absurd (unfold usage valid_crypt_usage in ground arith)

  unfoldable pub record_of : List CString → ℕ
  record_of rest = record_crypt (length (line rest)) (line rest) (usage rest) (word 1 0 0 0)

  unfoldable pub Recorded : List CString → ℕ → ℕ → Type 0
  Recorded rest p k = (usage rest ≢ 0) × (record_of rest ≡ word 1 p 0 k)

  module _ (s : CString) (plain : IsCString s) (valid : valid_key_helper s ≡ 1) where
    complete_key : Recorded (flag b'k' ∷ s ∷ []) 0 (hex_string_to_int s)
    unfolding Recorded record_of usage valid_crypt_usage record_crypt
    complete_key = ground (
      arith,
      compare_flags_self b'k',
      compare_flags_ne b'c' b'p',
      compare_flags_ne b'k' b'p',
      valid_key-not_flag s b'k',
      valid_key-not_flag s b'p',
      key_record-word 1 (omega arith) 0 (omega arith) s (valid_key-lt s plain valid),
    )

    complete_preserve_key : Recorded (flag b'p' ∷ flag b'k' ∷ s ∷ []) 1 (hex_string_to_int s)
    unfolding Recorded record_of usage valid_crypt_usage record_crypt
    complete_preserve_key = ground (
      arith,
      compare_flags_self b'k',
      compare_flags_self b'p',
      compare_flags_ne b'k' b'p',
      valid_key-not_flag s b'k',
      valid_key-not_flag s b'p',
      preserve_record-word 1 (omega arith),
      key_record-word 1 (omega arith) 1 (omega arith) s (valid_key-lt s plain valid),
    )

    complete_key_preserve : Recorded (flag b'k' ∷ s ∷ flag b'p' ∷ []) 1 (hex_string_to_int s)
    unfolding Recorded record_of usage valid_crypt_usage record_crypt
    complete_key_preserve = ground (
      arith,
      compare_flags_self b'k',
      compare_flags_self b'p',
      compare_flags_ne b'p' b'k',
      valid_key-not_flag s b'k',
      preserve_record-word 1 (omega arith),
      key_record-word 1 (omega arith) 1 (omega arith) s (valid_key-lt s plain valid),
    )

  -- Every form is accepted, and its fields are recorded.
  pub crypt_complete :
      {rest : List CString} {p k : ℕ}
      → AreCStrings rest
      → CodeCryptArgs rest p k
      → Recorded rest p k
  crypt_complete h (key s v er ep ek) =
      let h' = rw er at h in rw (er, ep, ek) (complete_key s h'.1.0 v)
  crypt_complete h (preserve_key s v er ep ek) =
      let h' = rw er at h in rw (er, ep, ek) (complete_preserve_key s h'.1.1.0 v)
  crypt_complete h (key_preserve s v er ep ek) =
      let h' = rw er at h in rw (er, ep, ek) (complete_key_preserve s h'.1.0 v)
