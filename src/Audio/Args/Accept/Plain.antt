-- ===== src/Audio/Args/Accept/Plain.antt =====
-- On plain arguments the factors and keys of the code are those of the usage message.
use audible.Base.{
  ℕ, suc, ◌-◌, ◌*◌, ◌+◌, ◌%◌, ◌^◌, ◌≤◌, ◌<◌, ◌≡◌, ◌≢◌, ◌∙◌, ap, sym, ◌↔◌, ◌⊎◌, inl, inr, List, [],
  ◌∷◌, arith, length,
}
use native.Mathlib.Nat.{add-zero, pow-suc, pow-le-pow_right}
use audible.Audio.Numerals.{
  char_to_int, char_to_int-value, hex_string_to_int, hex_string_to_int-value, dec_value, hex_value,
  AreDigits,
}
use audible.Audio.Args.{
  CString, validargs, numbers_loop, numbers_only, valid_factor_helper, valid_key_helper,
}
use audible.Audio.Args.Strings.{IsCString, AreCStrings}
use audible.Audio.Args.Numbers.{valid_key_helper_iff, valid_factor_helper_iff}
use audible.Audio.Args.Usage
use audible.Audio.Args.Usage.{SpeedArgs, CryptArgs, CommandLine, IsFactor, IsKey, Usage, CodeUsage}
use audible.Audio.Args.Accept.{validargs_iff}

-- The string has an ASCII character above the digits.
abbrev pub HasLetter : CString → Type 0
HasLetter [] = ⊥
HasLetter (c ∷ s) = ((57 < c) × (c < 128)) ⊎ HasLetter s

-- A string that is not empty, and is a number of at most nine digits, or has an ASCII character above
-- the digits.
abbrev pub IsPlain : CString → Type 0
IsPlain s = (1 ≤ length s) × ((AreDigits s × (length s ≤ 9)) ⊎ HasLetter s)

abbrev pub ArePlainArgs : List CString → Type 0
ArePlainArgs [] = Unit
ArePlainArgs (s ∷ argv) = IsPlain s × ArePlainArgs argv

dec_value-lt :
    (s : CString) (v k : ℕ) → AreDigits s → v < 10 ^ k → dec_value v s < 10 ^ (k + length s)
dec_value-lt [] v k hs hv = rw add-zero hv
dec_value-lt (c ∷ s) v k hs hv =
    let digit : c - b'0' < 10 = ground (arith, hs.0) in
    let next : v * 10 + (c - b'0') < 10 ^ suc k = omega (arith, hv, digit, pow-suc 10 k) in
    let same : suc k + length s ≡ k + length (c ∷ s) = omega arith in
    rw (sym same) (dec_value-lt s (v * 10 + (c - b'0')) (suc k) hs.1 next)

-- Nine digits do not wrap around.
dec_value-mod : (s : CString) → AreDigits s → length s ≤ 9 → dec_value 0 s % 2 ^ 32 ≡ dec_value 0 s
dec_value-mod s hs h =
    let bound : 10 ^ (0 + length s) ≤ 10 ^ 9 =
      pow-le-pow_right (omega arith) {j = 9} (omega arith) in
    omega (arith, dec_value-lt s 0 0 hs (omega arith), bound)

letter-numbers_loop : (start s : CString) → HasLetter s → numbers_loop start s ≡ 0
unfolding numbers_loop
letter-numbers_loop start [] h = absurd h
letter-numbers_loop start (c ∷ s) (inl h) = ground (arith, h)
letter-numbers_loop start (c ∷ s) (inr h) = ground (arith, letter-numbers_loop start s h)

letter-not_digits : (s : CString) → HasLetter s → ¬ AreDigits s
letter-not_digits [] h d = h
letter-not_digits (c ∷ s) (inl h) d = absurd (ground (arith, h, d.0))
letter-not_digits (c ∷ s) (inr h) d = letter-not_digits s h d.1

letter-invalid : (s : CString) → HasLetter s → valid_factor_helper s ≢ 1
unfolding valid_factor_helper numbers_only
letter-invalid s h = λ e. absurd (ground (arith, letter-numbers_loop s s h))

-- What the code takes for a factor is one, with its value, and the other way around.
factor_lem :
    (s : CString)
    → IsPlain s
    → (valid_factor_helper s ≡ 1 → IsFactor s × (char_to_int s ≡ dec_value 0 s))
      × (IsFactor s → (valid_factor_helper s ≡ 1) × (dec_value 0 s ≡ char_to_int s))
factor_lem s (some_char, inl digits) =
    let small = dec_value-mod s digits.0 digits.1 in
    let both = valid_factor_helper_iff s digits.0 in
    let value : char_to_int s ≡ dec_value 0 s = char_to_int-value s digits.0 ∙ small in
    (
      λ e.
          let range = both.0 e in
          ((digits.0, omega (arith, range, small), omega (arith, range, small)), value),
      λ f. (both.1 (omega (arith, f.1, small), omega (arith, f.2, small)), sym value),
    )
factor_lem s (some_char, inr letter) =
    (λ e. absurd (letter-invalid s letter e), λ f. absurd (letter-not_digits s letter f.0))

key_lem :
    (s : CString)
    → IsCString s
    → IsPlain s
    → (valid_key_helper s ≡ 1 → IsKey s × (hex_string_to_int s ≡ hex_value 0 s))
      × (IsKey s → (valid_key_helper s ≡ 1) × (hex_value 0 s ≡ hex_string_to_int s))
key_lem s hs plain =
    let both = valid_key_helper_iff s hs in
    (
      λ e.
          let k = both.0 e in
          ((k.0, plain.0, k.1), hex_string_to_int-value s k.0 (omega (arith, k.1))),
      λ k. (both.1 (k.0, k.2), sym (hex_string_to_int-value s k.0 (omega (arith, k.2)))),
    )

-- What holds of every argument.
abbrev Every : (CString → Type 0) → List CString → Type 0
Every P [] = Unit
Every P (s ∷ argv) = P s × Every P argv

-- A line of one grammar is one of another with the same factors and keys.
module _ {F F' K K' : CString → Type 0} {f f' k k' : CString → ℕ} (P : CString → Type 0)
    (factors : (s : CString) → P s → F s → F' s × (f s ≡ f' s))
    (keys : (s : CString) → P s → K s → K' s × (k s ≡ k' s)) where
  speed_map :
      {rest : List CString} {p v : ℕ}
      → Every P rest
      → SpeedArgs F f rest p v
      → SpeedArgs F' f' rest p v
  speed_map h (Usage.plain er ep ev) = Usage.plain er ep ev
  speed_map h (Usage.preserve er ep ev) = Usage.preserve er ep ev
  speed_map h (Usage.factor n valid er ep ev) =
      let h' = rw er at h in
      let next = factors n h'.1.0 valid in Usage.factor n next.0 er ep (ev ∙ ap (λ x. x - 1) next.1)
  speed_map h (Usage.preserve_factor n valid er ep ev) =
      let h' = rw er at h in
      let next = factors n h'.1.1.0 valid in
      Usage.preserve_factor n next.0 er ep (ev ∙ ap (λ x. x - 1) next.1)
  speed_map h (Usage.factor_preserve n valid er ep ev) =
      let h' = rw er at h in
      let next = factors n h'.1.0 valid in
      Usage.factor_preserve n next.0 er ep (ev ∙ ap (λ x. x - 1) next.1)

  crypt_map :
      {rest : List CString} {p v : ℕ}
      → Every P rest
      → CryptArgs K k rest p v
      → CryptArgs K' k' rest p v
  crypt_map h (Usage.key s valid er ep ev) =
      let h' = rw er at h in
      let next = keys s h'.1.0 valid in Usage.key s next.0 er ep (ev ∙ next.1)
  crypt_map h (Usage.preserve_key s valid er ep ev) =
      let h' = rw er at h in
      let next = keys s h'.1.1.0 valid in Usage.preserve_key s next.0 er ep (ev ∙ next.1)
  crypt_map h (Usage.key_preserve s valid er ep ev) =
      let h' = rw er at h in
      let next = keys s h'.1.0 valid in Usage.key_preserve s next.0 er ep (ev ∙ next.1)

  line_map :
      {argv : List CString} {o : ℕ}
      → Every P argv
      → CommandLine F K f k argv o
      → CommandLine F' K' f' k' argv o
  line_map h (Usage.help prog rest ea eo) = Usage.help prog rest ea eo
  line_map h (Usage.speed_up prog rest p v form ea eo) =
      let h' = rw ea at h in Usage.speed_up prog rest p v (speed_map h'.1.1 form) ea eo
  line_map h (Usage.slow_down prog rest p v form ea eo) =
      let h' = rw ea at h in Usage.slow_down prog rest p v (speed_map h'.1.1 form) ea eo
  line_map h (Usage.crypt prog rest p v form ea eo) =
      let h' = rw ea at h in Usage.crypt prog rest p v (crypt_map h'.1.1 form) ea eo

abbrev IsArg : CString → Type 0
IsArg s = IsCString s × IsPlain s

Every-IsArg : (argv : List CString) → AreCStrings argv → ArePlainArgs argv → Every IsArg argv
Every-IsArg [] h plain = tt
Every-IsArg (s ∷ argv) h plain = ((h.0, plain.0), Every-IsArg argv h.1 plain.1)

-- On arguments that are strings without nulls, not empty, and that are numbers of at most nine digits or
-- have an ASCII character above the digits, `validargs` returns 1 and stores the options word `o` exactly
-- for the command lines of the usage message that stand for `o`: its forms, with a decimal factor from 1
-- to 1024, of which the word holds the predecessor, and a key of one to eight hexadecimal digits, of
-- which it holds the value.
pub validargs-Usage_iff :
    (argv : List CString) (o : ℕ)
    → AreCStrings argv
    → ArePlainArgs argv
    → (validargs (length argv) argv ≡ (1, o)) ↔ Usage argv o
validargs-Usage_iff argv o h plain =
    let every = Every-IsArg argv h plain in
    let code = validargs_iff argv o h in
    (
      λ e.
          line_map IsArg (λ s a. (factor_lem s a.1).0) (λ s a. (key_lem s a.0 a.1).0) every
            (code.0 e),
      λ u.
          code.1
            (line_map IsArg (λ s a. (factor_lem s a.1).1) (λ s a. (key_lem s a.0 a.1).1) every u),
    )
