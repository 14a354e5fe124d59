-- ===== src/Audio/Args/Numbers.antt =====
-- What the numbers on the command line stand for.
use audible.Base.{
  ℕ, ◌-◌, ◌*◌, ◌%◌, ◌^◌, ◌≤◌, ◌<◌, ◌≡◌, ◌≢◌, refl, ◌↔◌, ◌⊎◌, inl, inr, Bool-cases, [], ◌∷◌, arith,
  length,
}
use audible.Audio.Numerals.{
  char_to_int, char_to_int-lt, char_to_int-value, hex_string_to_int, hex_string_to_int-lt,
  is_hex_digit, AreDigits, AreHexDigits, dec_value,
}
use audible.Audio.Args.{
  CString, flag, char_at, compare_flags, size_of_string, hex_digits_only, valid_key_helper,
  numbers_loop, numbers_only, valid_factor_helper,
}
use audible.Audio.Args.Strings.{IsCString}

-- An accepted factor lies between 1 and 1024.
pub valid_factor-range :
    (s : CString)
    → valid_factor_helper s ≢ 0
    → (valid_factor_helper s ≡ 1) × (1 ≤ char_to_int s) × (char_to_int s ≤ 1024)
unfolding valid_factor_helper
valid_factor-range s h = ground (arith, char_to_int-lt s)

-- A factor is no flag, since a letter is above the digits.
pub valid_factor-not_flag :
    (s : CString) (c : ℕ)
    → 57 < c
    → c < 128
    → valid_factor_helper s ≢ 0
    → compare_flags s (flag c) ≡ 0
unfolding valid_factor_helper numbers_only compare_flags
valid_factor-not_flag [] c lo hi h = ground arith
valid_factor-not_flag (a ∷ []) c lo hi h = ground arith
valid_factor-not_flag (a ∷ b ∷ s) c lo hi h = ground arith

-- A key is no flag, since a dash is no hexadecimal digit.
pub valid_key-not_flag :
    (s : CString) (c : ℕ) → valid_key_helper s ≢ 0 → compare_flags s (flag c) ≡ 0
unfolding valid_key_helper compare_flags
valid_key-not_flag [] c h = ground arith
valid_key-not_flag (a ∷ s) c h = ground arith

hex_digits_only-cases : (s : CString) → (hex_digits_only s ≡ 1) ⊎ (hex_digits_only s ≡ 0)
unfolding hex_digits_only
hex_digits_only-cases [] = inl refl
hex_digits_only-cases (c ∷ s) = ground (arith, hex_digits_only-cases s)

pub valid_key-one : (s : CString) → valid_key_helper s ≢ 0 → valid_key_helper s ≡ 1
unfolding valid_key_helper
valid_key-one s h = ground (arith, hex_digits_only-cases s)

size_of_string-length : (s : CString) → IsCString s → size_of_string s ≡ length s
unfolding size_of_string
size_of_string-length [] hs = refl
size_of_string-length (c ∷ s) hs = ground (arith, size_of_string-length s hs.1)

hex_digits_only_iff : (s : CString) → (hex_digits_only s ≢ 0) ↔ AreHexDigits s
unfolding hex_digits_only
hex_digits_only_iff [] = (λ _. tt, λ _. ground arith)
hex_digits_only_iff (c ∷ s) = elim (Bool-cases (is_hex_digit c)) [
  | inl e ↦ rw e (λ h. (refl, (hex_digits_only_iff s).0 h), λ h. (hex_digits_only_iff s).1 h.1)
  | inr e ↦ rw e (λ h. absurd (h refl), λ h. cc (h.0))
]

-- `validKeyHelper` accepts exactly the strings of at most eight hexadecimal digits.
pub valid_key_helper_iff :
    (s : CString) → IsCString s → (valid_key_helper s ≡ 1) ↔ (AreHexDigits s × (length s ≤ 8))
unfolding valid_key_helper
valid_key_helper_iff s hs =
    let digits = hex_digits_only_iff s in
    let size = size_of_string-length s hs in
    (
      λ h. (digits.0 (ground arith), ground arith),
      λ h. let found = digits.1 h.0 in ground (arith, hex_digits_only-cases s),
    )

digits-numbers_loop :
    (start s : CString) → AreDigits s → char_at start 1 < 128 → numbers_loop start s ≡ 1
unfolding numbers_loop
digits-numbers_loop start [] hs h = refl
digits-numbers_loop start (c ∷ s) hs h = ground (arith, digits-numbers_loop start s hs.1 h)

second_digit : (s : CString) → AreDigits s → char_at s 1 < 128
second_digit [] hs = omega arith
second_digit (c ∷ []) hs = omega arith
second_digit (c ∷ d ∷ s) hs = ground arith

-- On a string of digits `validFactorHelper` accepts exactly the values from 1 to 1024, taken as an
-- `int`: a value of ten digits or more wraps around first.
pub valid_factor_helper_iff :
    (s : CString)
    → AreDigits s
    → (valid_factor_helper s ≡ 1) ↔ ((1 ≤ dec_value 0 s % 2 ^ 32) × (dec_value 0 s % 2 ^ 32 ≤ 1024))
unfolding valid_factor_helper numbers_only
valid_factor_helper_iff s hs =
    ground (arith, digits-numbers_loop s s hs (second_digit s hs), char_to_int-value s hs)

-- It also accepts strings that are no decimal numbers: a digit `d` and a slash pass for `10 d - 1`.
pub valid_factor_helper-slash :
    (d : ℕ)
    → b'1' ≤ d
    → d ≤ b'9'
    → (valid_factor_helper (d ∷ b'/' ∷ []) ≡ 1)
      × (char_to_int (d ∷ b'/' ∷ []) ≡ (d - b'0') * 10 - 1)
unfolding valid_factor_helper numbers_only numbers_loop char_to_int
valid_factor_helper-slash d lo hi = ground arith

-- An accepted key fits 32 bits.
pub valid_key-lt :
    (s : CString) → IsCString s → valid_key_helper s ≡ 1 → hex_string_to_int s < 2 ^ 32
valid_key-lt s hs valid =
    let digits = (valid_key_helper_iff s hs).0 valid in hex_string_to_int-lt s digits.0 digits.1
