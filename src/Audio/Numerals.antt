-- ===== src/Audio/Numerals.antt =====
-- Numbers on the command line: `charToInt`, `hexToInt` and `hexStringToInt` of
-- Audible/src/argValidation.c, and what they make of strings of digits.
use native.Mathlib.Nat.{pow-suc, add-zero, pow-le-pow_right}
use audible.Base.{
  ℕ, suc, ◌+◌, ◌-◌, ◌*◌, ◌%◌, ◌^◌, ◌≤◌, ◌<◌, ◌≡◌, refl, ◌∙◌, ap, Bool, true, false, ◌&&◌, ◌||◌,
  List, [], ◌∷◌, arith, leb, ◌==◌, if◌then◌else◌, length, u64, ◌<<<◌, add32, sub32, mul32,
  int_of_char, bit_or, minus_one, is_negative,
}
use audible.Base.Bits.{or-shifted}

-- An `int` converted to `unsigned long`.
abbrev pub long_of_int : ℕ → ℕ
long_of_int w = if is_negative w then w + 2 ^ 64 - 2 ^ 32 else w

-- What `*string` reads: past the characters stands the terminating null.
abbrev pub first : List ℕ → ℕ
first [] = 0
first (c ∷ s) = c

char_to_int_loop : List ℕ → ℕ → ℕ
char_to_int_loop [] value = value
char_to_int_loop (c ∷ s) value =
    let sum = add32 value (sub32 (int_of_char c) b'0') in
    char_to_int_loop s (if first s == 0 then sum else mul32 sum 10)

unfoldable pub char_to_int : List ℕ → ℕ
unfolding char_to_int_loop
char_to_int s = char_to_int_loop s 0

hex_to_int : ℕ → ℕ
hex_to_int hex =
    if leb b'0' hex && leb hex b'9'
    then hex - b'0'
    else if leb b'a' hex && leb hex b'f'
    then hex - b'a' + 10
    else if leb b'A' hex && leb hex b'F'
    then hex - b'A' + 10
    else minus_one

hex_loop : List ℕ → ℕ → ℕ
hex_loop [] hex = hex
hex_loop (c ∷ s) hex =
    let joined = bit_or hex (long_of_int (hex_to_int c)) in
    hex_loop s (if first s == 0 then joined else u64 (joined <<< 4))

unfoldable pub hex_string_to_int : List ℕ → ℕ
unfolding hex_loop hex_to_int
hex_string_to_int s = hex_loop s 0

char_to_int_loop-lt : (s : List ℕ) (v : ℕ) → v < 2 ^ 32 → char_to_int_loop s v < 2 ^ 32
unfolding char_to_int_loop
char_to_int_loop-lt [] v hv = hv
char_to_int_loop-lt (c ∷ s) v hv = char_to_int_loop-lt s _ (ground arith)

pub char_to_int-lt : (s : List ℕ) → char_to_int s < 2 ^ 32
unfolding char_to_int
char_to_int-lt s = char_to_int_loop-lt s 0 (omega arith)

abbrev pub is_digit : ℕ → Bool
is_digit c = leb b'0' c && leb c b'9'

abbrev pub is_hex_digit : ℕ → Bool
is_hex_digit c = leb b'a' c && leb c b'f' || (leb b'A' c && leb c b'F' || leb b'0' c && leb c b'9')

-- The numbers that strings of digits stand for, behind the digits `v`.
abbrev pub dec_value : ℕ → List ℕ → ℕ
dec_value v [] = v
dec_value v (c ∷ s) = dec_value (v * 10 + (c - b'0')) s

abbrev pub hex_digit : ℕ → ℕ
hex_digit c = if leb c b'9' then c - b'0' else if leb c b'F' then c - b'A' + 10 else c - b'a' + 10

abbrev pub hex_value : ℕ → List ℕ → ℕ
hex_value v [] = v
hex_value v (c ∷ s) = hex_value (v * 16 + hex_digit c) s

abbrev pub AreDigits : List ℕ → Type 0
AreDigits [] = Unit
AreDigits (c ∷ s) = (is_digit c ≡ true) × AreDigits s

abbrev pub AreHexDigits : List ℕ → Type 0
AreHexDigits [] = Unit
AreHexDigits (c ∷ s) = (is_hex_digit c ≡ true) × AreHexDigits s

char_to_int_loop-value :
    (c : ℕ) (s : List ℕ) (v : ℕ)
    → AreDigits (c ∷ s)
    → char_to_int_loop (c ∷ s) (v * 10 % 2 ^ 32) ≡ dec_value v (c ∷ s) % 2 ^ 32
unfolding char_to_int_loop
char_to_int_loop-value c [] v hs = ground arith
char_to_int_loop-value c (d ∷ s) v hs =
    let step : mul32 (add32 (v * 10 % 2 ^ 32) (sub32 (int_of_char c) b'0')) 10
        ≡ (v * 10 + (c - b'0')) * 10 % 2 ^ 32 =
      ground arith in
    let more : (d == 0) ≡ false = ground arith in
    ap (char_to_int_loop (d ∷ s)) ((rw more) ∙ step)
    ∙ char_to_int_loop-value d s (v * 10 + (c - b'0')) hs.1

-- On a string of digits `charToInt` is the decimal value, cut to an `int`.
pub char_to_int-value : (s : List ℕ) → AreDigits s → char_to_int s ≡ dec_value 0 s % 2 ^ 32
unfolding char_to_int
char_to_int-value [] hs = refl
char_to_int-value (c ∷ s) hs = char_to_int_loop-value c s 0 hs

hex_to_int_lem : (c : ℕ) → is_hex_digit c ≡ true → (hex_to_int c ≡ hex_digit c) × (hex_digit c < 16)
unfolding hex_to_int
hex_to_int_lem c h = ground arith

hex_value-lt :
    (s : List ℕ) (v k : ℕ) → AreHexDigits s → v < 16 ^ k → hex_value v s < 16 ^ (k + length s)
hex_value-lt [] v k hs hv = rw add-zero hv
hex_value-lt (c ∷ s) v k hs hv =
    let wider : v * 16 + hex_digit c < 16 ^ suc k =
      omega (arith, pow-suc 16 k, (hex_to_int_lem c hs.0).1) in
    let e : suc k + length s ≡ k + suc (length s) = omega arith in
    rw e at (hex_value-lt s (v * 16 + hex_digit c) (suc k) hs.1 wider)

hex_loop-value :
    (c : ℕ) (s : List ℕ) (v k : ℕ)
    → AreHexDigits (c ∷ s)
    → v < 16 ^ k
    → k + length s ≤ 14
    → hex_loop (c ∷ s) (v * 16) ≡ hex_value v (c ∷ s)
unfolding hex_loop
hex_loop-value c [] v k hs hv hk =
    ground (arith, hex_to_int_lem c hs.0, or-shifted 4 v (hex_digit c))
hex_loop-value c (d ∷ s) v k hs hv hk =
    let more : (d == 0) ≡ false = ground arith in
    let fits : 16 ^ k ≤ 16 ^ 13 = pow-le-pow_right (omega arith) {j = 13} (omega arith) in
    let digit = hex_to_int_lem c hs.0 in
    let joined : bit_or (v * 16) (long_of_int (hex_to_int c)) ≡ v * 16 + hex_digit c =
      ground (arith, digit, or-shifted 4 v (hex_digit c)) in
    let shifted : u64 ((v * 16 + hex_digit c) * 16) ≡ (v * 16 + hex_digit c) * 16 =
      omega (arith, digit.1) in
    let wider : v * 16 + hex_digit c < 16 ^ suc k = omega (arith, pow-suc 16 k, digit.1) in
    ap (hex_loop (d ∷ s)) (rw (more, joined) shifted)
    ∙ hex_loop-value d s (v * 16 + hex_digit c) (suc k) hs.1 wider (omega arith)

-- On a string of at most 15 hexadecimal digits `hexStringToInt` is its value.
pub hex_string_to_int-value :
    (s : List ℕ) → AreHexDigits s → length s ≤ 15 → hex_string_to_int s ≡ hex_value 0 s
unfolding hex_string_to_int
hex_string_to_int-value [] hs h = refl
hex_string_to_int-value (c ∷ s) hs h = hex_loop-value c s 0 0 hs (omega arith) (omega arith)

pub hex_string_to_int-lt :
    (s : List ℕ) → AreHexDigits s → length s ≤ 8 → hex_string_to_int s < 2 ^ 32
hex_string_to_int-lt s hs h =
    let value = hex_string_to_int-value s hs (omega arith) in
    let fits : 16 ^ (0 + length s) ≤ 16 ^ 8 =
      pow-le-pow_right (omega arith) {j = 8} (omega arith) in
    omega (arith, value, hex_value-lt s 0 0 hs (omega arith))
