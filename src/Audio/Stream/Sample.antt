-- ===== src/Audio/Stream/Sample.antt =====
-- A sample of one to four bytes: sign extension, and reading back what was written.
use audible.Base.{
  ℕ, zero, suc, ◌+◌, ◌-◌, ◌*◌, ◌%◌, ◌^◌, ◌≤◌, ◌<◌, ◌≡◌, ◌≢◌, refl, ◌∙◌, ap, List, [], ◌∷◌, ◌++◌,
  arith, leb, ltb, if◌then◌else◌, ◌||◌, true, take, drop, length,
}
use native.Mathlib.Nat.{mod-lt, one-le-pow}
use audible.Base.Bits.{or-split, or-above}
use audible.Audio.Stream.{eof, get_stdin_int, extend_loop, sign_extend}
use audible.Audio.Stream.Bytes.{be_bytes, be_value, IsBytes, be_bytes-IsBytes}
use audible.Audio.Stream.Read.{unless_eof, get_stdin_int-value}

-- The `int` with the value of `i` read as a signed number of `n` bytes.
abbrev pub signed_value : ℕ → ℕ → ℕ
signed_value n i = if ltb i (2 ^ (8 * n - 1)) then i else i + 2 ^ 32 - 2 ^ (8 * n)

extend_three : (i : ℕ) → i < 2 ^ 24 → extend_loop 4 3 i ≡ i + 0xff000000
unfolding extend_loop
extend_three i hi = ground (arith, or-above 24 0xff i hi)

extend_two : (i : ℕ) → i < 2 ^ 16 → extend_loop 4 2 i ≡ i + 0xffff0000
unfolding extend_loop
extend_two i hi = ground (
  arith,
  or-above 24 0xff i (omega arith),
  or-split 24 0xff i 0xff0000 (omega arith) (omega arith),
  or-above 16 0xff i hi,
)

extend_one : (i : ℕ) → i < 2 ^ 8 → extend_loop 4 1 i ≡ i + 0xffffff00
unfolding extend_loop
extend_one i hi = ground (
  arith,
  or-above 24 0xff i (omega arith),
  or-split 24 0xff i 0xff0000 (omega arith) (omega arith),
  or-above 16 0xff i (omega arith),
  or-split 16 0xffff i 0xff00 (omega arith) (omega arith),
  or-above 8 0xff i hi,
)

extend_four : (i : ℕ) → i < 2 ^ 32 → sign_extend i 4 ≡ signed_value 4 i
unfolding sign_extend extend_loop
extend_four i hi = ground arith

-- `signExtend(i, n)` is the `int` with the signed value of the `n` bytes of `i`.
pub sign_extend-signed_value :
    (n i : ℕ) → 0 < n → n ≤ 4 → i < 2 ^ (8 * n) → sign_extend i n ≡ signed_value n i
unfolding sign_extend
sign_extend-signed_value zero i hp hn hi = absurd (omega arith)
sign_extend-signed_value (suc zero) i hp hn hi = ground (arith, extend_one i hi)
sign_extend-signed_value (suc (suc zero)) i hp hn hi = ground (arith, extend_two i hi)
sign_extend-signed_value (suc (suc (suc zero))) i hp hn hi = ground (arith, extend_three i hi)
sign_extend-signed_value (suc (suc (suc (suc zero)))) i hp hn hi = extend_four i hi
sign_extend-signed_value (suc (suc (suc (suc (suc n))))) i hp hn hi = absurd (omega arith)

-- `v` is an `int` whose value fits `n` bytes.
abbrev pub IsSample : ℕ → ℕ → Type 0
IsSample n v = (v < 2 ^ 32) × ((ltb v (2 ^ (8 * n - 1)) || leb (2 ^ 32 - 2 ^ (8 * n - 1)) v) ≡ true)

be_value-be_bytes :
    (n v : ℕ) (s : List ℕ)
    → 0 < n
    → n ≤ 4
    → (be_value 0 (take n (be_bytes n v ++ s)) ≡ v % 2 ^ (8 * n))
      × (drop n (be_bytes n v ++ s) ≡ s)
      × (leb n (length (be_bytes n v ++ s)) ≡ true)
be_value-be_bytes zero v s hp hn = absurd (omega arith)
be_value-be_bytes (suc zero) v s hp hn = (omega arith, refl, ground arith)
be_value-be_bytes (suc (suc zero)) v s hp hn = (omega arith, refl, ground arith)
be_value-be_bytes (suc (suc (suc zero))) v s hp hn = (omega arith, refl, ground arith)
be_value-be_bytes (suc (suc (suc (suc zero)))) v s hp hn = (omega arith, refl, ground arith)
be_value-be_bytes (suc (suc (suc (suc (suc n))))) v s hp hn = absurd (omega arith)

pub IsBytes-append : (s t : List ℕ) → IsBytes s → IsBytes t → IsBytes (s ++ t)
IsBytes-append [] t hs ht = ht
IsBytes-append (c ∷ s) t hs ht = (hs.0, IsBytes-append s t hs.1 ht)

-- What `getStdinInt` makes of the bytes that were written for `v`.
pub get_stdin_int-be_bytes :
    (n v : ℕ) (s : List ℕ)
    → 0 < n
    → n ≤ 4
    → IsBytes s
    → get_stdin_int n (be_bytes n v ++ s) ≡ (unless_eof (v % 2 ^ (8 * n)), s)
get_stdin_int-be_bytes n v s hp hn hs =
    let got =
      get_stdin_int-value n (be_bytes n v ++ s) hp hn
        (IsBytes-append (be_bytes n v) s (be_bytes-IsBytes n v) hs) in
    let back = be_value-be_bytes n v s hp hn in ground (arith, got, back.0, back.1, back.2)

-- Only four bytes can make the word of all ones.
pub no_eof :
    (n v : ℕ)
    → 0 < n
    → n ≤ 4
    → v < 2 ^ 32
    → (n ≡ 4 → v ≢ eof)
    → unless_eof (v % 2 ^ (8 * n)) ≡ v % 2 ^ (8 * n)
no_eof zero v hp hn hv plain = absurd (omega arith)
no_eof (suc zero) v hp hn hv plain = ground arith
no_eof (suc (suc zero)) v hp hn hv plain = ground arith
no_eof (suc (suc (suc zero))) v hp hn hv plain = ground arith
no_eof (suc (suc (suc (suc zero)))) v hp hn hv plain =
    let other : v ≢ eof = plain refl in ground arith
no_eof (suc (suc (suc (suc (suc n))))) v hp hn hv plain = absurd (omega arith)

signed_value-mod : (n v : ℕ) → 0 < n → n ≤ 4 → IsSample n v → signed_value n (v % 2 ^ (8 * n)) ≡ v
signed_value-mod zero v hp hn fits = absurd (omega arith)
signed_value-mod (suc zero) v hp hn fits = ground arith
signed_value-mod (suc (suc zero)) v hp hn fits = ground arith
signed_value-mod (suc (suc (suc zero))) v hp hn fits = ground arith
signed_value-mod (suc (suc (suc (suc zero)))) v hp hn fits = ground arith
signed_value-mod (suc (suc (suc (suc (suc n))))) v hp hn fits = absurd (omega arith)

-- Reading a sample gives back the value written, and leaves what follows it. The exception is the
-- four-byte sample -1, whose bytes are taken for the end of the input.
pub sample_round_trip :
    (n v : ℕ) (s : List ℕ)
    → 0 < n
    → n ≤ 4
    → IsSample n v
    → (n ≡ 4 → v ≢ eof)
    → IsBytes s
    → (sign_extend (get_stdin_int n (be_bytes n v ++ s)).0 n ≡ v)
      × ((get_stdin_int n (be_bytes n v ++ s)).1 ≡ s)
sample_round_trip n v s hp hn fits plain hs =
    let got = get_stdin_int-be_bytes n v s hp hn hs in
    let low = v % 2 ^ (8 * n) in
    let whole = no_eof n v hp hn fits.0 plain in
    let extended =
      sign_extend-signed_value n low hp hn (mod-lt v (one-le-pow (8 * n) 2 (omega arith))) in
    (
      ap (λ r. sign_extend r.0 n) got
          ∙ ap (λ r. sign_extend r n) whole
          ∙ extended
          ∙ signed_value-mod n v hp hn fits,
      ap (λ r. r.1) got,
    )
