-- ===== src/Audio/Stream/Write.antt =====
-- What `putCharInt` and `putByteInt` write, also where standard output fails on the way.
use mathlib.Core.List.{append-nil, append_assoc}
use audible.Base.{
  ℕ, zero, suc, ◌+◌, ◌-◌, ◌*◌, ◌/◌, ◌%◌, ◌^◌, ◌≤◌, ◌<◌, ◌≡◌, refl, ◌∙◌, List, [], ◌∷◌, ◌++◌, arith,
  leb, if◌then◌else◌, sar, bit_and, take, length,
}
use audible.Base.Bits.{and_mask}
use audible.Audio.Stream.{Output, putchar, put_char_loop, put_char_int, unless_failed, put_byte_int}
use audible.Audio.Stream.Bytes.{be_bytes, length-be_bytes}

-- `w` written and room for `r` bytes.
abbrev pub output : List ℕ → ℕ → Output
output w r = record { written = w; room = r }

-- The output after an attempt to write `s`: what does not fit is lost.
abbrev pub after : Output → List ℕ → Output
after out s = output (out.written ++ take out.room s) (out.room - length s)

-- An `int` shifted right by `k` bytes and cut to one byte.
byte_of : (i k : ℕ) → i < 2 ^ 32 → k < 4 → bit_and (sar i (8 * k)) 0xff ≡ i / 2 ^ (8 * k) % 256
byte_of i zero hi hk = ground (arith, and_mask 8 (sar i 0))
byte_of i (suc zero) hi hk = ground (arith, and_mask 8 (sar i 8))
byte_of i (suc (suc zero)) hi hk = ground (arith, and_mask 8 (sar i 16))
byte_of i (suc (suc (suc zero))) hi hk = ground (arith, and_mask 8 (sar i 24))
byte_of i (suc (suc (suc (suc k)))) hi hk = absurd (omega arith)

abbrev pub status : ℕ → ℕ → ℕ
status n room = if leb n room then 1 else 0

put_byte-output :
    (i n : ℕ) (w : List ℕ) (r : ℕ)
    → i < 2 ^ 32
    → n ≤ 4
    → put_byte_int i n (output w r) ≡ (status n r, output (w ++ take r (be_bytes n i)) (r - n))
unfolding put_byte_int unless_failed
put_byte-output i zero w zero hi hn = ground (arith, append-nil w)
put_byte-output i zero w (suc r) hi hn = ground (arith, append-nil w)
put_byte-output i (suc k) w zero hi hn = ground (arith, append-nil w)
put_byte-output i (suc k) w (suc r) hi hn =
    let b = i / 2 ^ (8 * k) % 256 in
    ground (
      arith,
      byte_of i k hi hn,
      put_byte-output i k (w ++ b ∷ []) r hi (omega arith),
      append_assoc w (b ∷ []) (take r (be_bytes k i)),
    )

put_char-eq-put_byte :
    (n k i : ℕ) (out : Output) → n + k ≡ 5 → put_char_loop n k i out ≡ put_byte_int i n out
unfolding put_char_loop put_byte_int
put_char-eq-put_byte zero k i out e = refl
put_char-eq-put_byte (suc n) k i out e =
    let shift : 32 - 8 * k ≡ 8 * n = omega arith in
    λ t.
      unless_failed (putchar (bit_and (sar i (shift t)) 0xff) out)
        (λ out'. put_char-eq-put_byte n (k + 1) i out' (omega arith) t)

-- `putByteInt` writes up to four low bytes of its argument, highest first, as far as there is room, and
-- returns 1 exactly where all of them fit.
pub put_byte_int-after :
    (i n : ℕ) (out : Output)
    → i < 2 ^ 32
    → n ≤ 4
    → put_byte_int i n out ≡ (status n out.room, after out (be_bytes n i))
put_byte_int-after i n out hi hn =
    rw length-be_bytes (put_byte-output i n out.written out.room hi hn)

-- `putCharInt` is `putByteInt` with four bytes.
pub put_char_int-after :
    (i : ℕ) (out : Output)
    → i < 2 ^ 32
    → put_char_int i out ≡ (status 4 out.room, after out (be_bytes 4 i))
unfolding put_char_int
put_char_int-after i out hi =
    put_char-eq-put_byte 4 1 i out refl ∙ put_byte_int-after i 4 out hi (omega arith)
