-- ===== src/Audio/Options.antt =====
-- The options word of Audible/include/const.h, written by the `…Record` functions of
-- Audible/src/argValidation.c and read by the accessors of Audible/src/transformations.c.
-- `unsigned long` has 64 bits; a result of type `int` is its 32-bit pattern.
pub mod Fields
pub mod Record
use audible.Audio.Numerals.{long_of_int, char_to_int, hex_string_to_int}
use audible.Base.{
  ℕ, zero, suc, ◌+◌, ◌-◌, ◌*◌, ◌^◌, ◌≡◌, Bool, true, false, not, ◌&&◌, ◌||◌, List, [], ◌∷◌, leb,
  ltb, ◌==◌, if◌then◌else◌, u32, u64, ◌<<<◌, ◌>>>◌, add32, sub32, mul32, lts, is_negative,
  minus_one, int_of_char, bit_and, bit_or,
}

pub preserve_record : ℕ → ℕ
preserve_record options = bit_or options (1 <<< 59)

pub factor_record : ℕ → List ℕ → ℕ
factor_record options start =
    let factor = long_of_int (sub32 (char_to_int start) 1) in bit_or options (u64 (factor <<< 48))

pub factor_record0 : ℕ → ℕ
factor_record0 options = bit_or options (0x200 <<< 48)

pub key_record : ℕ → List ℕ → ℕ
key_record options start = bit_or options (hex_string_to_int start)

unfoldable pub is_speed_up : ℕ → ℕ
is_speed_up options = bit_and (options >>> 62) 1

unfoldable pub is_slow_down : ℕ → ℕ
is_slow_down options = bit_and (options >>> 61) 1

unfoldable pub is_crypt : ℕ → ℕ
is_crypt options = bit_and (options >>> 60) 1

unfoldable pub is_preserve : ℕ → ℕ
is_preserve options = bit_and (options >>> 59) 1

unfoldable pub get_factor : ℕ → ℕ
get_factor options =
    if bit_and (options >>> 57) 1 == 1 then minus_one else bit_and (options >>> 48) 0x7ff + 1

unfoldable pub get_key : ℕ → ℕ
get_key options = bit_and options 0xffffffff

-- A C value used as a condition.
abbrev pub truth : ℕ → Bool
truth n = not (n == 0)

unfoldable pub get_arg_c : ℕ → ℕ
get_arg_c o =
    let chosen = truth (is_speed_up o) || (truth (is_slow_down o) || truth (is_crypt o)) in
    let i = if chosen then 1 + 1 else 1 in
    let i' = if truth (is_preserve o) then i + 1 else i in
    if truth (get_key o) || truth (get_factor o) then i' + 2 else i'
