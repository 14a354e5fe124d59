-- ===== src/Audio/Args.antt =====
-- The command line: Audible/src/argValidation.c, and `validargs` of Audible/src/hw1.c.
--
-- A string is the list of its characters, without the null that ends it; reading at its end gives
-- that null. A character is its 8-bit pattern, and `char` is signed. A function that returns `int`
-- returns the same number here: 0 and 1, or an index.
pub mod Strings
pub mod Usage
pub mod Accept
pub mod Numbers
use audible.Base.{
  ℕ, zero, suc, ◌+◌, ◌-◌, ◌*◌, ◌^◌, ◌≡◌, Bool, true, false, not, ◌&&◌, ◌||◌, List, [], ◌∷◌, leb,
  ltb, ◌==◌, if◌then◌else◌, ◌<<<◌, lts, is_negative, int_of_char, bit_or, get_or, length,
}
use audible.Audio.Numerals.{char_to_int, is_hex_digit}
use audible.Audio.Options.{truth, preserve_record, factor_record, factor_record0, key_record}

abbrev pub CString : Type 0
CString = List ℕ

-- `*(string + i)`, where `i` is at most the length.
abbrev pub char_at : CString → ℕ → ℕ
char_at s i = get_or s i 0

-- `*(argv + i)`, where `i` is below `argc`.
abbrev pub arg : List CString → ℕ → CString
arg argv i = get_or argv i []

-- The string literal of a dash and a letter.
abbrev pub flag : ℕ → CString
flag c = b'-' ∷ c ∷ []

pub compare_flags : CString → CString → ℕ
compare_flags flag1 flag2 =
    if char_at flag1 0 == char_at flag2 0
    then if char_at flag1 1 == char_at flag2 1
      then if char_at flag1 2 == char_at flag2 2 then 1 else 0
      else 0
    else 0

pub size_of_string : CString → ℕ
size_of_string [] = 0
size_of_string (c ∷ s) = if c == 0 then 0 else suc (size_of_string s)

-- The loop of `containsPreserve` at index `i`.
preserve_loop : List CString → ℕ → ℕ
preserve_loop argv zero = 0
preserve_loop argv (suc i) =
    if truth (compare_flags (arg argv (suc i)) (flag b'p')) then 1 else preserve_loop argv i

pub contains_preserve : ℕ → List CString → ℕ
unfolding preserve_loop
contains_preserve argc argv = preserve_loop argv (argc - 1)

hex_digits_only : CString → ℕ
hex_digits_only [] = 1
hex_digits_only (c ∷ s) = if not (is_hex_digit c) then 0 else hex_digits_only s

pub valid_key_helper : CString → ℕ
unfolding hex_digits_only size_of_string
valid_key_helper key = if ltb 8 (size_of_string key) then 0 else hex_digits_only key

-- The loop of `numbersOnly` over the characters from index `i` on; it also reads the second one.
numbers_loop : CString → CString → ℕ
numbers_loop start [] = 1
numbers_loop start (c ∷ s) =
    if lts b'9' (int_of_char c) || is_negative (int_of_char (char_at start 1))
    then 0
    else numbers_loop start s

pub numbers_only : CString → ℕ
unfolding numbers_loop
numbers_only start = numbers_loop start start

pub valid_factor_helper : CString → ℕ
unfolding numbers_only
valid_factor_helper factor =
    if not (truth (numbers_only factor))
    then 0
    else let f = char_to_int factor in if lts 0 f && not (lts 1024 f) then 1 else 0

-- The loop of `containsValidKey` and `containsValidFactor` at index `i`: the last flag `c` decides.
value_loop : ℕ → (CString → ℕ) → ℕ → List CString → ℕ → ℕ
value_loop c valid argc argv zero = 0
value_loop c valid argc argv (suc i) =
    if truth (compare_flags (arg argv (suc i)) (flag c))
    then if ltb (suc i) (argc - 1)
      then if truth (valid (arg argv (suc i + 1))) then suc i + 1 else 0
      else 0
    else value_loop c valid argc argv i

pub contains_valid_key : ℕ → List CString → ℕ
unfolding value_loop
contains_valid_key argc argv = value_loop b'k' valid_key_helper argc argv (argc - 1)

pub contains_valid_factor : ℕ → List CString → ℕ
unfolding value_loop
contains_valid_factor argc argv = value_loop b'f' valid_factor_helper argc argv (argc - 1)

pub valid_speed_usage : ℕ → List CString → ℕ
unfolding contains_preserve contains_valid_factor
valid_speed_usage argc argv =
    if ltb 5 argc || ltb argc 2
    then 0
    else let valid = if argc == 3 || argc == 5 then contains_preserve argc argv else 1 in
      if (argc == 4 || argc == 5) && truth valid then contains_valid_factor argc argv else valid

pub valid_crypt_usage : ℕ → List CString → ℕ
unfolding contains_preserve contains_valid_key
valid_crypt_usage argc argv =
    if ltb 5 argc || leb argc 3
    then 0
    else let valid = if argc == 5 then contains_preserve argc argv else 1 in
      if (argc == 4 || argc == 5) && truth valid then contains_valid_key argc argv else valid

-- The recording of a speed-up or a slow-down, over the options that hold its bit.
pub record_speed : ℕ → List CString → ℕ → ℕ → ℕ
record_speed argc argv valid options =
    let kept = if truth (contains_preserve argc argv) then preserve_record options else options in
    let chosen = if ltb 1 valid then factor_record kept (arg argv valid) else kept in
    if valid == 1 then factor_record0 chosen else chosen

pub record_crypt : ℕ → List CString → ℕ → ℕ → ℕ
record_crypt argc argv valid options =
    let kept = if truth (contains_preserve argc argv) then preserve_record options else options in
    if ltb 1 valid then key_record kept (arg argv valid) else kept

-- `validargs(argc, argv)`, with the value that it leaves in `global_options`.
pub validargs : ℕ → List CString → ℕ × ℕ
validargs argc argv =
    if leb argc 1
    then (0, 0)
    else let flag1 = arg argv 1 in
      if truth (compare_flags flag1 (flag b'h'))
      then (1, 1 <<< 63)
      else if truth (compare_flags flag1 (flag b'u'))
      then (let valid = valid_speed_usage argc argv in
          if truth valid then (1, record_speed argc argv valid (1 <<< 62)) else (0, 0))
      else if truth (compare_flags flag1 (flag b'd'))
      then (let valid = valid_speed_usage argc argv in
          if truth valid then (1, record_speed argc argv valid (1 <<< 61)) else (0, 0))
      else if truth (compare_flags flag1 (flag b'c'))
      then (let valid = valid_crypt_usage argc argv in
          if truth valid then (1, record_crypt argc argv valid (1 <<< 60)) else (0, 0))
      else (0, 0)
