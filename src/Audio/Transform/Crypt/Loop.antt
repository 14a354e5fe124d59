-- ===== src/Audio/Transform/Crypt/Loop.antt =====
-- The loop of `recode` under `-c`, over a run of frames.
use mathlib.Core.List.{append-nil, append_assoc}
use audible.Base.{
  ℕ, suc, ◌+◌, ◌≤◌, ◌<◌, ◌≡◌, refl, ◌∙◌, ap, ap₂, sym, List, [], ◌∷◌, ◌++◌, arith, length,
  length-append,
}
use audible.Audio.Stream.{Output}
use audible.Audio.Stream.Bytes.{IsBytes}
use audible.Audio.Stream.Sample.{IsBytes-append}
use audible.Audio.Stream.Write.{after}
use audible.Audio.Options.{is_speed_up, is_slow_down, is_crypt}
use audible.Audio.Frame.RoundTrip.{
  take_all, frame_bytes, frame_bytes-IsBytes, length-frame_bytes, AreInts, write_frame-after,
  after-after, take_nil,
}
use audible.Audio.Header.{AudioHeader}
use audible.Audio.Transform.{Recoder, xor_samples, crypt, transform, frames_loop, bytes_per_sample}
use audible.Audio.Transform.Crypt.{
  reread_all, Plain, frame-reread, xor_samples-AreInts, xor_samples_twice, reread_all-AreInts,
  reread_all-bytes,
}

-- A run of frames with `channels` samples each.
abbrev pub AreFrames : ℕ → List (List ℕ) → Type 0
AreFrames channels [] = Unit
AreFrames channels (frame ∷ frames) =
    (length frame ≡ channels) × AreInts frame × AreFrames channels frames

abbrev pub ArePlain : ℕ → List (List ℕ) → Type 0
ArePlain n [] = Unit
ArePlain n (frame ∷ frames) = Plain n frame × ArePlain n frames

abbrev pub frames_bytes : ℕ → List (List ℕ) → List ℕ
frames_bytes n [] = []
frames_bytes n (frame ∷ frames) = frame_bytes n frame ++ frames_bytes n frames

-- The frames that the loop writes.
abbrev pub crypt_frames : ℕ → List (List ℕ) → ℕ → List (List ℕ)
crypt_frames n [] seed = []
crypt_frames n (frame ∷ frames) seed =
    (xor_samples (reread_all n frame) seed).0
    ∷ crypt_frames n frames (xor_samples (reread_all n frame) seed).1

frames_bytes-IsBytes : (n : ℕ) (frames : List (List ℕ)) → IsBytes (frames_bytes n frames)
frames_bytes-IsBytes n [] = tt
frames_bytes-IsBytes n (frame ∷ frames) =
    IsBytes-append (frame_bytes n frame) (frames_bytes n frames) (frame_bytes-IsBytes n frame)
      (frames_bytes-IsBytes n frames)

crypt_frames_twice :
    (n : ℕ) (frames : List (List ℕ)) (seed : ℕ)
    → 0 < n
    → n ≤ 4
    → frames_bytes n (crypt_frames n (crypt_frames n frames seed) seed) ≡ frames_bytes n frames
crypt_frames_twice n [] seed hp hn = refl
crypt_frames_twice n (frame ∷ frames) seed hp hn =
    let once = xor_samples_twice n (reread_all n frame) seed hp hn in
    let rest = crypt_frames_twice n frames (xor_samples (reread_all n frame) seed).1 hp hn in
    ap₂ ◌++◌ (once.0 ∙ reread_all-bytes n frame hp hn) (
      ap
        (λ t.
          frames_bytes n
            (crypt_frames n (crypt_frames n frames (xor_samples (reread_all n frame) seed).1) t))
        once.1
      ∙ rest)

Plain-narrow : (n : ℕ) (frame : List ℕ) → n < 4 → Plain n frame
Plain-narrow n [] hn = tt
Plain-narrow n (v ∷ frame) hn = (λ e. absurd (omega arith), Plain-narrow n frame hn)

-- With fewer than four bytes to a sample no frame is excluded.
pub ArePlain-narrow : (n : ℕ) (frames : List (List ℕ)) → n < 4 → ArePlain n frames
ArePlain-narrow n [] hn = tt
ArePlain-narrow n (frame ∷ frames) hn = (Plain-narrow n frame hn, ArePlain-narrow n frames hn)

length-xor_reread :
    (n : ℕ) (frame : List ℕ) (seed : ℕ)
    → length (xor_samples (reread_all n frame) seed).0 ≡ length frame
unfolding xor_samples
length-xor_reread n [] seed = refl
length-xor_reread n (v ∷ frame) seed = ap suc (length-xor_reread n frame _)

crypt_frames-AreFrames :
    (n channels : ℕ) (frames : List (List ℕ)) (seed : ℕ)
    → 0 < n
    → n ≤ 4
    → AreFrames channels frames
    → AreFrames channels (crypt_frames n frames seed)
crypt_frames-AreFrames n channels [] seed hp hn hf = tt
crypt_frames-AreFrames n channels (frame ∷ frames) seed hp hn hf = (
  length-xor_reread n frame seed ∙ hf.0,
  xor_samples-AreInts (reread_all n frame) seed (reread_all-AreInts n frame hp hn),
  crypt_frames-AreFrames n channels frames _ hp hn hf.2,
)

length-crypt_frames :
    (n : ℕ) (frames : List (List ℕ)) (seed : ℕ)
    → length (crypt_frames n frames seed) ≡ length frames
length-crypt_frames n [] seed = refl
length-crypt_frames n (frame ∷ frames) seed = ap suc (length-crypt_frames n frames _)

length-crypted :
    (n : ℕ) (frames : List (List ℕ)) (seed : ℕ)
    → length (frames_bytes n (crypt_frames n frames seed)) ≡ length (frames_bytes n frames)
length-crypted n [] seed = refl
length-crypted n (frame ∷ frames) seed = ground (
  arith,
  length-append (frame_bytes n (xor_samples (reread_all n frame) seed).0)
      (frames_bytes n (crypt_frames n frames (xor_samples (reread_all n frame) seed).1)),
  length-append (frame_bytes n frame) (frames_bytes n frames),
  length-frame_bytes n (xor_samples (reread_all n frame) seed).0,
  length-frame_bytes n frame,
  length-xor_reread n frame seed,
  length-crypted n frames (xor_samples (reread_all n frame) seed).1,
)

module _ (options : ℕ) (h : AudioHeader) (n : ℕ) (hp : 0 < n) (hn : n ≤ 4)
    (size : bytes_per_sample h ≡ n) (crypting : is_crypt options ≡ 1)
    (not_up : is_speed_up options ≡ 0) (not_down : is_slow_down options ≡ 0) where
  crypt_step :
      (frame rest : List ℕ) (s : Recoder)
      → length frame ≡ h.channels
      → AreInts frame
      → Plain n frame
      → IsBytes rest
      → s.input ≡ frame_bytes n frame ++ rest
      → (crypt h s).1 ≡ record {
        input = rest;
        out = after s.out (frame_bytes n (xor_samples (reread_all n frame) s.seed).0);
        input_frame = reread_all n frame;
        seed = (xor_samples (reread_all n frame) s.seed).1;
      }
  unfolding crypt
  crypt_step frame rest s hl hi plain hr e = ground (
    arith,
    e,
    size,
    hl,
    frame-reread n frame rest hp hn hi plain hr,
    write_frame-after n (xor_samples (reread_all n frame) s.seed).0 s.out hn
        (xor_samples-AreInts (reread_all n frame) s.seed (reread_all-AreInts n frame hp hn)),
  )

  -- The loop writes the bytes of the encrypted frames, as far as there is room.
  pub frames_loop-crypt_frames :
      (frames : List (List ℕ)) (rest : List ℕ) (total i : ℕ) (s : Recoder)
      → AreFrames h.channels frames
      → ArePlain n frames
      → IsBytes rest
      → s.input ≡ frames_bytes n frames ++ rest
      → (frames_loop options h total (length frames) i s).out
        ≡ after s.out (frames_bytes n (crypt_frames n frames s.seed))
  unfolding frames_loop transform
  frames_loop-crypt_frames [] rest total i s hf plain hr e =
      ground (arith, take_nil s.out.room, append-nil s.out.written)
  frames_loop-crypt_frames (frame ∷ frames) rest total i s hf plain hr e =
      let more = frames_bytes n frames ++ rest in
      let step =
        crypt_step frame more s hf.0 hf.1 plain.0
          (IsBytes-append (frames_bytes n frames) rest (frames_bytes-IsBytes n frames) hr)
          (e ∙ append_assoc (frame_bytes n frame) (frames_bytes n frames) rest) in
      let next = transform options h total i s in
      let stepped : next ≡ _ = ground (arith, crypting, not_up, not_down) ∙ step in
      ap (λ r. (frames_loop options h total (length frames) (i + 1) r).out) stepped
      ∙ frames_loop-crypt_frames frames rest total (i + 1) _ hf.2 plain.1 hr refl
      ∙ after-after s.out _ _

  -- Under `-c`, with one to four bytes to a sample and room for the output: the loop run with a key, and
  -- run again with the same key on the bytes that the first run wrote, writes the bytes of the
  -- original frames, as far as there is room then. No sample of the two inputs may be a four-byte -1.
  pub frames_loop_twice :
      (frames : List (List ℕ)) (total : ℕ) (s t : Recoder)
      → AreFrames h.channels frames
      → ArePlain n frames
      → ArePlain n (crypt_frames n frames s.seed)
      → s.input ≡ frames_bytes n frames
      → s.out.written ≡ []
      → length (frames_bytes n frames) ≤ s.out.room
      → t.seed ≡ s.seed
      → t.input ≡ (frames_loop options h total (length frames) 0 s).out.written
      → (frames_loop options h total (length frames) 0 t).out ≡ after t.out (frames_bytes n frames)
  frames_loop_twice frames total s t hf plain plain' hs fresh room hk ht =
      let frames' = crypt_frames n frames s.seed in
      let first =
        frames_loop-crypt_frames frames [] total 0 s hf plain tt
          (hs ∙ sym (append-nil (frames_bytes n frames))) in
      let written : t.input ≡ frames_bytes n frames' ++ [] =
        ht
        ∙ ap (λ (o : Output). o.written) first
        ∙ ap₂ ◌++◌ fresh (
            take_all s.out.room (frames_bytes n frames')
              (omega (arith, length-crypted n frames s.seed)))
        ∙ sym (append-nil (frames_bytes n frames')) in
      let second =
        frames_loop-crypt_frames frames' [] total 0 t
          (crypt_frames-AreFrames n h.channels frames s.seed hp hn hf) plain' tt written in
      ap (λ k. (frames_loop options h total k 0 t).out) (sym (length-crypt_frames n frames s.seed))
      ∙ second
      ∙ ap (λ k. after t.out (frames_bytes n (crypt_frames n frames' k))) hk
      ∙ ap (after t.out) (crypt_frames_twice n frames s.seed hp hn)
