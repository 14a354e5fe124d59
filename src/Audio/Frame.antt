-- ===== src/Audio/Frame.antt =====
-- Frames: `read_frame` and `write_frame` of Audible/src/audio.c. A frame is the list of its samples,
-- one for each channel; a sample is an `int`. Both functions return 1 unless standard output fails.
pub mod RoundTrip
use audible.Base.{ℕ, zero, suc, ◌≡◌, Bool, true, false, List, [], ◌∷◌, ◌==◌}
use audible.Audio.Stream.{Output, get_stdin_int, sign_extend, put_byte_int}

-- `read_frame(fp, channels, bytes_per_sample)`: the frame, and the input that is left.
unfoldable pub read_frame : ℕ → ℕ → List ℕ → List ℕ × List ℕ
read_frame zero bytes_per_sample input = ([], input)
read_frame (suc channels) bytes_per_sample input =
    let (sample, rest) = get_stdin_int bytes_per_sample input in
    let (samples, rest') = read_frame channels bytes_per_sample rest in
    (sign_extend sample bytes_per_sample ∷ samples, rest')

-- `write_frame(fp, channels, bytes_per_sample)`, where `channels` is the length of the frame.
unfoldable pub write_frame : List ℕ → ℕ → Output → ℕ × Output
write_frame [] bytes_per_sample out = (1, out)
write_frame (sample ∷ samples) bytes_per_sample out =
    let (done, out') = put_byte_int sample bytes_per_sample out in
    elim (done == 0) [ true ↦ (0, out') | false ↦ write_frame samples bytes_per_sample out' ]
