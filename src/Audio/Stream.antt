-- ===== src/Audio/Stream.antt =====
-- Audible/src/audioHelper.c: integers on standard input and output, byte by byte.
--
-- Standard input is the list of the bytes still to come, so `getchar` returns `EOF` at its end.
-- Standard output is the list of the bytes written, with the number of bytes that it still takes:
-- past that `putchar` fails. An `int` is its bit pattern, as everywhere here.
pub mod Bytes
pub mod Read
pub mod Sample
pub mod Write
use audible.Base.{
  ℕ, zero, suc, ◌+◌, ◌-◌, ◌*◌, Bool, true, false, not, List, [], ◌∷◌, ◌++◌, ltb, ◌==◌,
  if◌then◌else◌, u8, u32, ◌<<<◌, minus_one, sar, bit_and, bit_or,
}

pub record Output : Type 0 where
  pub written : List ℕ
  pub room : ℕ

abbrev pub eof : ℕ
eof = minus_one

abbrev pub getchar : List ℕ → ℕ × List ℕ
getchar [] = (eof, [])
getchar (c ∷ rest) = (c, rest)

-- The result is the byte written, or `EOF`.
abbrev pub putchar : ℕ → Output → ℕ × Output
putchar c out =
    if out.room == 0
    then (eof, out)
    else (u8 c, record { written = out.written ++ u8 c ∷ []; room = out.room - 1 })

get_stdin_loop : ℕ → ℕ → List ℕ → ℕ × List ℕ
get_stdin_loop zero stdin input = (stdin, input)
get_stdin_loop (suc i) stdin input =
    let (c, rest) = getchar input in
    let joined = bit_or stdin c in
    elim (joined == eof) [
      | true ↦ (0, rest)
      | false ↦ get_stdin_loop i (if ltb 0 i then u32 (joined <<< 8) else joined) rest
    ]

-- `getStdinInt(i)`, with the input that it leaves.
pub get_stdin_int : ℕ → List ℕ → ℕ × List ℕ
unfolding get_stdin_loop
get_stdin_int i input = get_stdin_loop i 0 input

-- `if (putchar(…) == EOF) return 0;`, and then the rest.
unless_failed : ℕ × Output → (Output → ℕ × Output) → ℕ × Output
unless_failed (c, out) rest = if c == eof then (0, out) else rest out

-- The loop of `putCharInt` at `k`, with `n` rounds left.
put_char_loop : ℕ → ℕ → ℕ → Output → ℕ × Output
put_char_loop zero k i out = (1, out)
put_char_loop (suc n) k i out =
    unless_failed (putchar (bit_and (sar i (32 - 8 * k)) 0xff) out)
      (λ out'. put_char_loop n (k + 1) i out')

-- `putCharInt(i)`: the result is 1, or 0 where standard output fails.
pub put_char_int : ℕ → Output → ℕ × Output
unfolding put_char_loop unless_failed
put_char_int i out = put_char_loop 4 1 i out

-- `putByteInt(i, bytes)`, whose loop counts `k` down from `bytes`.
pub put_byte_int : ℕ → ℕ → Output → ℕ × Output
put_byte_int i zero out = (1, out)
put_byte_int i (suc k) out =
    unless_failed (putchar (bit_and (sar i (8 * k)) 0xff) out) (λ out'. put_byte_int i k out')

-- The loop of `signExtend` at `k`.
extend_loop : ℕ → ℕ → ℕ → ℕ
extend_loop zero bytes i = i
extend_loop (suc k) bytes i = elim (ltb bytes (suc k)) [
  | true ↦ extend_loop k bytes (bit_or i (u32 (0xff <<< (k * 8))))
  | false ↦ i
]

-- `signExtend(i, bytes)`. `&&` makes of the shifted value the test whether it is zero.
pub sign_extend : ℕ → ℕ → ℕ
unfolding extend_loop
sign_extend i bytes =
    let bit = not (sar (sar i (8 * (bytes - 1))) 7 == 0) in if bit then extend_loop 4 bytes i else i
