-- ===== src/Audio/Transform/Crypt.antt =====
-- Encrypting twice with one key gives the sample bytes back: one sample and one frame.
pub mod Loop
use native.Mathlib.Nat.{mod-lt, one-le-pow}
use mathlib.Core.List.{append_assoc}
use audible.Base.{
  ℕ, zero, suc, ◌+◌, ◌-◌, ◌*◌, ◌/◌, ◌%◌, ◌^◌, ◌≤◌, ◌<◌, ◌≡◌, ◌≢◌, refl, ◌∙◌, ap, ap₂, sym, ◌≡⟨◌⟩◌,
  ◌∎, Bool, true, false, List, [], ◌∷◌, ◌++◌, arith, leb, ltb, ◌==◌, if◌then◌else◌, inl, inr,
  Bool-cases, take, length, length-append, bit_xor,
}
use audible.Base.Bits.{xor-mod, xor-lt, xor_undo}
use audible.Audio.Stream.{Output, eof, get_stdin_int, sign_extend}
use audible.Audio.Stream.Bytes.{be_bytes, IsBytes, length-be_bytes, be_bytes-IsBytes}
use audible.Audio.Stream.Sample.{
  IsBytes-append, signed_value, get_stdin_int-be_bytes, no_eof, sign_extend-signed_value,
}
use audible.Audio.Stream.Write.{after}
use audible.Audio.Stream.Read.{unless_eof}
use audible.Audio.Rand.{myrand32, myrand32-lt}
use audible.Audio.Frame.{read_frame, write_frame}
use audible.Audio.Frame.RoundTrip.{frame_bytes, frame_bytes-IsBytes, AreInts}
use audible.Audio.Transform.{xor_samples}

-- The `int` that comes back for the `n` bytes that were written of `v`.
abbrev pub reread : ℕ → ℕ → ℕ
reread n v = signed_value n (v % 2 ^ (8 * n))

pub sample-reread :
    (n v : ℕ) (s : List ℕ)
    → 0 < n
    → n ≤ 4
    → v < 2 ^ 32
    → (n ≡ 4 → v ≢ eof)
    → IsBytes s
    → (sign_extend (get_stdin_int n (be_bytes n v ++ s)).0 n ≡ reread n v)
      × ((get_stdin_int n (be_bytes n v ++ s)).1 ≡ s)
sample-reread n v s hp hn hv plain hs =
    let got = get_stdin_int-be_bytes n v s hp hn hs in
    (
      ap (λ r. sign_extend r.0 n) got
          ∙ ap (λ r. sign_extend r n) (no_eof n v hp hn hv plain)
          ∙ sign_extend-signed_value n (v % 2 ^ (8 * n)) hp hn
              (mod-lt v (one-le-pow (8 * n) 2 (omega arith))),
      ap (λ r. r.1) got,
    )

-- The bytes of a word depend on its low bits alone, which rereading keeps.
be_bytes-mod : (n v w : ℕ) → n ≤ 4 → v % 2 ^ (8 * n) ≡ w % 2 ^ (8 * n) → be_bytes n v ≡ be_bytes n w
be_bytes-mod zero v w hn e = refl
be_bytes-mod (suc zero) v w hn e = ground arith
be_bytes-mod (suc (suc zero)) v w hn e = ground arith
be_bytes-mod (suc (suc (suc zero))) v w hn e = ground arith
be_bytes-mod (suc (suc (suc (suc zero)))) v w hn e = ground arith
be_bytes-mod (suc (suc (suc (suc (suc n))))) v w hn e = absurd (omega arith)

reread-mod : (n v : ℕ) → 0 < n → n ≤ 4 → reread n v % 2 ^ (8 * n) ≡ v % 2 ^ (8 * n)
reread-mod zero v hp hn = absurd (omega arith)
reread-mod (suc zero) v hp hn = ground arith
reread-mod (suc (suc zero)) v hp hn = ground arith
reread-mod (suc (suc (suc zero))) v hp hn = ground arith
reread-mod (suc (suc (suc (suc zero)))) v hp hn = ground arith
reread-mod (suc (suc (suc (suc (suc n))))) v hp hn = absurd (omega arith)

reread-lt : (n v : ℕ) → 0 < n → n ≤ 4 → reread n v < 2 ^ 32
reread-lt zero v hp hn = absurd (omega arith)
reread-lt (suc zero) v hp hn = ground arith
reread-lt (suc (suc zero)) v hp hn = ground arith
reread-lt (suc (suc (suc zero))) v hp hn = ground arith
reread-lt (suc (suc (suc (suc zero)))) v hp hn = ground arith
reread-lt (suc (suc (suc (suc (suc n))))) v hp hn = absurd (omega arith)

-- One sample: xor, write, read back, and xor again with the same number.
pub xor_reread :
    (n v r : ℕ) → 0 < n → n ≤ 4 → be_bytes n (bit_xor (reread n (bit_xor v r)) r) ≡ be_bytes n v
xor_reread n v r hp hn = be_bytes-mod n _ _ hn (
    bit_xor (reread n (bit_xor v r)) r % 2 ^ (8 * n)
    ≡⟨ xor-mod (8 * n) (reread n (bit_xor v r)) r ⟩
      bit_xor (reread n (bit_xor v r) % 2 ^ (8 * n)) (r % 2 ^ (8 * n))
    ≡⟨ ap (λ t. bit_xor t (r % 2 ^ (8 * n)))
        (reread-mod n (bit_xor v r) hp hn ∙ xor-mod (8 * n) v r) ⟩
      bit_xor (bit_xor (v % 2 ^ (8 * n)) (r % 2 ^ (8 * n))) (r % 2 ^ (8 * n))
    ≡⟨ xor_undo (8 * n) (v % 2 ^ (8 * n)) (r % 2 ^ (8 * n))
        (mod-lt v (one-le-pow (8 * n) 2 (omega arith)))
        (mod-lt r (one-le-pow (8 * n) 2 (omega arith))) ⟩
      v % 2 ^ (8 * n) ∎)

abbrev pub reread_all : ℕ → List ℕ → List ℕ
reread_all n [] = []
reread_all n (v ∷ frame) = reread n v ∷ reread_all n frame

-- No sample of four bytes is -1.
abbrev pub Plain : ℕ → List ℕ → Type 0
Plain n [] = Unit
Plain n (v ∷ frame) = (n ≡ 4 → v ≢ eof) × Plain n frame

pub frame-reread :
    (n : ℕ) (frame rest : List ℕ)
    → 0 < n
    → n ≤ 4
    → AreInts frame
    → Plain n frame
    → IsBytes rest
    → read_frame (length frame) n (frame_bytes n frame ++ rest) ≡ (reread_all n frame, rest)
unfolding read_frame
frame-reread n [] rest hp hn hs plain hr = refl
frame-reread n (v ∷ frame) rest hp hn hs plain hr =
    let more = frame_bytes n frame ++ rest in
    let sample =
      sample-reread n v more hp hn hs.0 plain.0
        (IsBytes-append (frame_bytes n frame) rest (frame_bytes-IsBytes n frame) hr) in
    ground (
      arith,
      append_assoc (be_bytes n v) (frame_bytes n frame) rest,
      sample.0,
      sample.1,
      frame-reread n frame rest hp hn hs.1 plain.1 hr,
    )

pub xor_samples-AreInts :
    (frame : List ℕ) (seed : ℕ) → AreInts frame → AreInts (xor_samples frame seed).0
unfolding xor_samples
xor_samples-AreInts [] seed hs = tt
xor_samples-AreInts (v ∷ frame) seed hs =
    (xor-lt 32 v _ hs.0 (myrand32-lt seed), xor_samples-AreInts frame _ hs.1)

-- One frame: encrypted, read back and encrypted from the same state, it has its first bytes again, and
-- the generator is left in the same state both times.
pub xor_samples_twice :
    (n : ℕ) (frame : List ℕ) (seed : ℕ)
    → 0 < n
    → n ≤ 4
    → (frame_bytes n (xor_samples (reread_all n (xor_samples frame seed).0) seed).0
        ≡ frame_bytes n frame)
      × ((xor_samples (reread_all n (xor_samples frame seed).0) seed).1
          ≡ (xor_samples frame seed).1)
unfolding xor_samples
xor_samples_twice n [] seed hp hn = (refl, refl)
xor_samples_twice n (v ∷ frame) seed hp hn =
    let rest = xor_samples_twice n frame (myrand32 seed).1 hp hn in
    (ap₂ ◌++◌ (xor_reread n v (myrand32 seed).0 hp hn) rest.0, rest.1)

pub reread_all-AreInts : (n : ℕ) (frame : List ℕ) → 0 < n → n ≤ 4 → AreInts (reread_all n frame)
reread_all-AreInts n [] hp hn = tt
reread_all-AreInts n (v ∷ frame) hp hn = (reread-lt n v hp hn, reread_all-AreInts n frame hp hn)

pub reread_all-bytes :
    (n : ℕ) (frame : List ℕ)
    → 0 < n
    → n ≤ 4
    → frame_bytes n (reread_all n frame) ≡ frame_bytes n frame
reread_all-bytes n [] hp hn = refl
reread_all-bytes n (v ∷ frame) hp hn =
    ap₂ ◌++◌ (be_bytes-mod n (reread n v) v hn (reread-mod n v hp hn))
      (reread_all-bytes n frame hp hn)
