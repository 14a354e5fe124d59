-- ===== src/Audio/Stream/Read.antt =====
-- What `getStdinInt` and `signExtend` make of the bytes on standard input.
use audible.Base.{
  ℕ, zero, suc, ◌+◌, ◌*◌, ◌^◌, ◌≤◌, ◌<◌, ◌≡◌, List, [], ◌∷◌, arith, leb, ◌==◌, if◌then◌else◌,
  bit_or, take, drop, length,
}
use audible.Base.Bits.{or-shifted, or_ones}
use audible.Audio.Stream.{eof, get_stdin_loop, get_stdin_int}
use audible.Audio.Stream.Bytes.{be_value, IsBytes}

-- `getStdinInt` cannot tell the word of all ones from the end of the input.
abbrev pub unless_eof : ℕ → ℕ
unless_eof v = if v == eof then 0 else v

abbrev pub Got : ℕ → ℕ → List ℕ → ℕ × List ℕ → Type 0
Got n v s result =
    result ≡ (if leb n (length s) then (unless_eof (be_value v (take n s)), drop n s) else (0, []))

joined_byte : (v c : ℕ) → c < 256 → bit_or (v * 256) c ≡ v * 256 + c
joined_byte v c hc = or-shifted 8 v c hc

joined_eof : (v : ℕ) → v < 2 ^ 24 → bit_or (v * 256) eof ≡ eof
joined_eof v hv = or_ones 32 (v * 256) (omega arith)

-- One round that is not the last, on a byte: the digits so far cannot be all ones.
get_step :
    (j v c : ℕ) (s : List ℕ)
    → v < 2 ^ 16
    → c < 256
    → get_stdin_loop (suc (suc j)) (v * 256) (c ∷ s)
      ≡ get_stdin_loop (suc j) ((v * 256 + c) * 256) s
unfolding get_stdin_loop
get_step j v c s hv hc = ground (arith, joined_byte v c hc)

got_at_end : (n v : ℕ) → v < 2 ^ 24 → get_stdin_loop (suc n) (v * 256) [] ≡ (0, [])
unfolding get_stdin_loop
got_at_end n v hv = ground (arith, joined_eof v hv)

get_one : (v : ℕ) (s : List ℕ) → v < 2 ^ 24 → IsBytes s → Got 1 v s (get_stdin_loop 1 (v * 256) s)
unfolding get_stdin_loop
get_one v [] hv hs = ground (arith, joined_eof v)
get_one v (c ∷ s) hv hs = ground (arith, joined_byte v c hs.0)

get_two : (v : ℕ) (s : List ℕ) → v < 2 ^ 16 → IsBytes s → Got 2 v s (get_stdin_loop 2 (v * 256) s)
get_two v [] hv hs = got_at_end 1 v (omega arith)
get_two v (c ∷ s) hv hs =
    rw (get_step 0 v c s hv hs.0) (ground (arith, get_one (v * 256 + c) s (omega arith) hs.1))

get_three : (v : ℕ) (s : List ℕ) → v < 2 ^ 8 → IsBytes s → Got 3 v s (get_stdin_loop 3 (v * 256) s)
get_three v [] hv hs = got_at_end 2 v (omega arith)
get_three v (c ∷ s) hv hs =
    rw (get_step 1 v c s (omega arith) hs.0)
      (ground (arith, get_two (v * 256 + c) s (omega arith) hs.1))

get_four : (s : List ℕ) → IsBytes s → Got 4 0 s (get_stdin_loop 4 0 s)
get_four [] hs = got_at_end 3 0 (omega arith)
get_four (c ∷ s) hs =
    rw (get_step 2 0 c s (omega arith) hs.0) (ground (arith, get_three c s (omega arith) hs.1))

-- `getStdinInt(n)` returns the big-endian value of the next `n` bytes and consumes them, but 0 for
-- the word of all ones; where fewer than `n` bytes are left it returns 0 at the end of the input.
pub get_stdin_int-value :
    (n : ℕ) (s : List ℕ) → 0 < n → n ≤ 4 → IsBytes s → Got n 0 s (get_stdin_int n s)
unfolding get_stdin_int
get_stdin_int-value zero s hp hn hs = absurd (omega arith)
get_stdin_int-value (suc zero) s hp hn hs = get_one 0 s (omega arith) hs
get_stdin_int-value (suc (suc zero)) s hp hn hs = get_two 0 s (omega arith) hs
get_stdin_int-value (suc (suc (suc zero))) s hp hn hs = get_three 0 s (omega arith) hs
get_stdin_int-value (suc (suc (suc (suc zero)))) s hp hn hs = get_four s hs
get_stdin_int-value (suc (suc (suc (suc (suc n))))) s hp hn hs = absurd (omega arith)
