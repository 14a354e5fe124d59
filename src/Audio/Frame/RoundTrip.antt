-- ===== src/Audio/Frame/RoundTrip.antt =====
-- A frame that was written is read back.
use mathlib.Core.List.{append-nil, append_assoc}
use native.Mathlib.Nat.{zero-sub, sub-zero, suc-sub-suc}
use audible.Base.{
  ℕ, zero, suc, ◌-◌, ◌*◌, ◌^◌, ◌≤◌, ◌<◌, ◌≡◌, ◌≢◌, refl, ap, List, [], ◌∷◌, ◌++◌, arith, leb, inl,
  inr, Bool-cases, take, length, length-append,
}
use audible.Audio.Stream.{Output, eof}
use audible.Audio.Stream.Bytes.{be_bytes, IsBytes, length-be_bytes, be_bytes-IsBytes}
use audible.Audio.Stream.Write.{status, after, put_byte_int-after}
use audible.Audio.Stream.Sample.{IsSample, sample_round_trip, IsBytes-append}
use audible.Audio.Frame.{read_frame, write_frame}

-- The bytes of a frame with `n` bytes to a sample.
abbrev pub frame_bytes : ℕ → List ℕ → List ℕ
frame_bytes n [] = []
frame_bytes n (v ∷ frame) = be_bytes n v ++ frame_bytes n frame

abbrev pub AreInts : List ℕ → Type 0
AreInts [] = Unit
AreInts (v ∷ frame) = (v < 2 ^ 32) × AreInts frame

-- Every sample fits `n` bytes, and none is the four-byte -1.
abbrev pub AreSamples : ℕ → List ℕ → Type 0
AreSamples n [] = Unit
AreSamples n (v ∷ frame) = IsSample n v × (n ≡ 4 → v ≢ eof) × AreSamples n frame

pub frame_bytes-IsBytes : (n : ℕ) (frame : List ℕ) → IsBytes (frame_bytes n frame)
frame_bytes-IsBytes n [] = tt
frame_bytes-IsBytes n (v ∷ frame) =
    IsBytes-append (be_bytes n v) (frame_bytes n frame) (be_bytes-IsBytes n v)
      (frame_bytes-IsBytes n frame)

pub length-frame_bytes : (n : ℕ) (frame : List ℕ) → length (frame_bytes n frame) ≡ length frame * n
length-frame_bytes n [] = omega arith
length-frame_bytes n (v ∷ frame) = ground (
  arith,
  length-append (be_bytes n v) (frame_bytes n frame),
  length-be_bytes n v,
  length-frame_bytes n frame,
)

take-append_lem : (r : ℕ) (s t : List ℕ) → take r (s ++ t) ≡ take r s ++ take (r - length s) t
take-append_lem zero s t = rw (zero-sub (length s))
take-append_lem (suc r) [] t = rw (sub-zero (suc r))
take-append_lem (suc r) (c ∷ s) t =
    rw (suc-sub-suc r (length s)) (ap (λ l. c ∷ l) (take-append_lem r s t))

pub after-after : (out : Output) (s t : List ℕ) → after (after out s) t ≡ after out (s ++ t)
after-after out s t = ground (
  arith,
  take-append_lem out.room s t,
  append_assoc out.written (take out.room s) (take (out.room - length s) t),
  length-append s t,
)

pub take_nil : (r : ℕ) → take {A = ℕ} r [] ≡ []
take_nil zero = refl
take_nil (suc r) = refl

pub take_all : (r : ℕ) (s : List ℕ) → length s ≤ r → take r s ≡ s
take_all r [] hr = take_nil r
take_all zero (c ∷ s) hr = absurd (omega arith)
take_all (suc r) (c ∷ s) hr = ap (λ l. c ∷ l) (take_all r s (omega arith))

-- Where the first part does not fit, the second is not tried for nothing: it would be lost.
after_full : (out : Output) (s t : List ℕ) → out.room < length s → after out s ≡ after out (s ++ t)
after_full out s t full =
    let none_left : out.room - length s ≡ 0 = omega arith in
    ground (
      arith,
      take-append_lem out.room s t,
      ap (λ (r : ℕ). take r t) none_left,
      append-nil (take out.room s),
      length-append s t,
    )

-- Reading back the bytes of a frame, with one to four of them to a sample, gives the same samples and
-- leaves what follows, where each sample fits its bytes and none is a four-byte -1.
pub frame_round_trip :
    (n : ℕ) (frame rest : List ℕ)
    → 0 < n
    → n ≤ 4
    → AreSamples n frame
    → IsBytes rest
    → read_frame (length frame) n (frame_bytes n frame ++ rest) ≡ (frame, rest)
unfolding read_frame
frame_round_trip n [] rest hp hn hs hr = refl
frame_round_trip n (v ∷ frame) rest hp hn hs hr =
    let more = frame_bytes n frame ++ rest in
    let sample =
      sample_round_trip n v more hp hn hs.0 hs.1
        (IsBytes-append (frame_bytes n frame) rest (frame_bytes-IsBytes n frame) hr) in
    ground (
      arith,
      append_assoc (be_bytes n v) (frame_bytes n frame) rest,
      sample.0,
      sample.1,
      frame_round_trip n frame rest hp hn hs.2 hr,
    )

-- With at most four bytes to a sample, `write_frame` writes the bytes of the frame, as far as there is room, and returns 1 exactly where
-- all of them fit.
pub write_frame-after :
    (n : ℕ) (frame : List ℕ) (out : Output)
    → n ≤ 4
    → AreInts frame
    → write_frame frame n out
      ≡ (status (length frame * n) out.room, after out (frame_bytes n frame))
unfolding write_frame
write_frame-after n [] out hn hs = ground (arith, take_nil out.room, append-nil out.written)
write_frame-after n (v ∷ frame) out hn hs = elim (Bool-cases (leb n out.room)) [
  | inl fits ↦ ground (
    arith,
    put_byte_int-after v n out hs.0 hn,
    write_frame-after n frame (after out (be_bytes n v)) hn hs.1,
    after-after out (be_bytes n v) (frame_bytes n frame),
    length-be_bytes n v,
  )
  | inr full ↦ ground (
    arith,
    put_byte_int-after v n out hs.0 hn,
    after_full out (be_bytes n v) (frame_bytes n frame),
    length-be_bytes n v,
  )
]
