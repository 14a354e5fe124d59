-- ===== src/Audio/Transform.antt =====
-- The transformations: Audible/src/transformations.c without its accessors of the options word,
-- and the loop over the frames in `recode` of Audible/src/hw1.c.
--
-- The two frame buffers are lists of samples, the state of the generator and the streams are passed
-- on. `recode` ignores what its transformations return, and so does the loop here.
pub mod Crypt
use audible.Base.{
  ℕ, zero, suc, ◌+◌, ◌-◌, ◌*◌, ◌/◌, ◌%◌, ◌^◌, ◌≡◌, Bool, true, false, not, ◌&&◌, ◌||◌, List, [],
  ◌∷◌, ltb, leb, ◌==◌, if◌then◌else◌, u32, add32, sub32, mul32, lts, is_negative, bit_xor,
}
use audible.Audio.Stream.{Output}
use audible.Audio.Options.{truth, is_speed_up, is_slow_down, is_crypt, get_factor}
use audible.Audio.Rand.{myrand32}
use audible.Audio.Frame.{read_frame, write_frame}
use audible.Audio.Header.{AudioHeader}

-- The absolute value of an `int`.
abbrev pub magnitude : ℕ → ℕ
magnitude a = if is_negative a then 2 ^ 32 - a else a

-- `a / b` and `a % b` between values of type `int`: the quotient is cut towards 0.
abbrev pub div32 : ℕ → ℕ → ℕ
div32 a b =
    let q = magnitude a / magnitude b in
    if (is_negative a && is_negative b) || (not (is_negative a) && not (is_negative b))
    then u32 q
    else sub32 0 q

abbrev pub rem32 : ℕ → ℕ → ℕ
rem32 a b = let r = magnitude a % magnitude b in if is_negative a then sub32 0 r else r

pub record Recoder : Type 0 where
  pub input : List ℕ
  pub out : Output
  pub input_frame : List ℕ
  pub seed : ℕ

abbrev pub bytes_per_sample : AudioHeader → ℕ
bytes_per_sample h = sub32 h.encoding 1

pub set_new_data_size : ℕ → AudioHeader → ℕ → ℕ → AudioHeader
set_new_data_size options h frame_size frames =
    let factor = get_factor options in
    if truth (is_slow_down options)
    then record h {
      data_size = mul32 (add32 frames (mul32 (sub32 factor 1) (sub32 frames 1))) frame_size;
    }
    else if truth (is_speed_up options)
    then record h { data_size = mul32 (add32 (div32 frames factor) 1) frame_size }
    else h

-- The samples xor the next numbers of the generator.
pub xor_samples : List ℕ → ℕ → List ℕ × ℕ
xor_samples [] seed = ([], seed)
xor_samples (v ∷ frame) seed =
    let (r, seed') = myrand32 seed in
    let (rest, seed'') = xor_samples frame seed' in (bit_xor v r ∷ rest, seed'')

pub crypt : AudioHeader → Recoder → ℕ × Recoder
unfolding xor_samples
crypt h s =
    let (frame, rest) = read_frame h.channels (bytes_per_sample h) s.input in
    let (output_frame, seed') = xor_samples frame s.seed in
    let (done, out') = write_frame output_frame (bytes_per_sample h) s.out in
    (done, record s { input = rest; out = out'; input_frame = frame; seed = seed' })

pub speed_up : ℕ → AudioHeader → ℕ → Recoder → ℕ × Recoder
speed_up options h i s =
    let (frame, rest) = read_frame h.channels (bytes_per_sample h) s.input in
    let s' : Recoder = record s { input = rest; input_frame = frame } in
    if rem32 i (get_factor options) == 0
    then (let (done, out') = write_frame frame (bytes_per_sample h) s'.out in
        (done, record s' { out = out' }))
    else (1, s')

pub get_interpolation : ℕ → ℕ → ℕ → ℕ → ℕ
get_interpolation s t k n = add32 s (div32 (mul32 (sub32 t s) k) n)

abbrev pub interpolate : List ℕ → List ℕ → ℕ → ℕ → List ℕ
interpolate [] ts k n = []
interpolate (s ∷ ss) [] k n = []
interpolate (s ∷ ss) (t ∷ ts) k n = get_interpolation s t k n ∷ interpolate ss ts k n

-- The inserted frames: the loop of `slowDown` at `k`, with `n` rounds left.
insert_loop : ℕ → ℕ → ℕ → ℕ → List ℕ → List ℕ → Output → Output
insert_loop zero k factor size ss ts out = out
insert_loop (suc n) k factor size ss ts out =
    insert_loop n (k + 1) factor size ss ts (write_frame (interpolate ss ts k factor) size out).1

-- The rounds of `for (k = 1; k < factor; k++)` between values of type `int`.
abbrev pub rounds_below : ℕ → ℕ → ℕ
rounds_below from bound = if lts from bound then bound - from else 0

pub slow_down : ℕ → AudioHeader → ℕ → ℕ → Recoder → ℕ × Recoder
unfolding insert_loop
slow_down options h i frames s =
    let factor = get_factor options in
    let size = bytes_per_sample h in
    let first = read_frame h.channels size s.input in
    let frame = if i == 0 then first.0 else s.input_frame in
    let input' = if i == 0 then first.1 else s.input in
    let out' = (write_frame frame size s.out).1 in
    if lts (add32 i 1) frames
    then (let (next, rest) = read_frame h.channels size input' in
        (
          1,
          record s {
            input = rest;
            out = insert_loop (rounds_below 1 factor) 1 factor size frame next out';
            input_frame = next;
          },
        ))
    else (1, record s { input = input'; out = out'; input_frame = frame })

pub transform : ℕ → AudioHeader → ℕ → ℕ → Recoder → Recoder
transform options h frames i s =
    if truth (is_speed_up options)
    then (speed_up options h i s).1
    else if truth (is_slow_down options)
    then (slow_down options h i frames s).1
    else if truth (is_crypt options)
    then (crypt h s).1
    else s

-- The loop of `recode` at frame `i`, with `n` rounds left.
pub frames_loop : ℕ → AudioHeader → ℕ → ℕ → ℕ → Recoder → Recoder
frames_loop options h frames zero i s = s
frames_loop options h frames (suc n) i s =
    frames_loop options h frames n (i + 1) (transform options h frames i s)
