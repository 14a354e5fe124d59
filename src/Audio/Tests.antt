-- ===== src/Audio/Tests.antt =====
-- Concrete runs of the theorems on Audible/src.
pub mod Recoding
use audible.Base.{
  ℕ, ◌+◌, ◌-◌, ◌%◌, ◌^◌, ◌≤◌, ◌≡◌, ◌≢◌, refl, ◌↔◌, inl, inr, true, false, List, [], ◌∷◌, ◌++◌,
  arith, ◌==◌, length,
}
use audible.Audio.Stream.{Output, get_stdin_int}
use audible.Audio.Stream.Bytes.{IsBytes}
use audible.Audio.Stream.Read.{Got, get_stdin_int-value}
use audible.Audio.Options.{get_factor, get_arg_c}
use audible.Audio.Options.Fields.{
  word, is_crypt-word, is_speed_up-word, is_slow_down-word, get_factor-word, get_arg_c-word,
}
use audible.Audio.Args.{CString, flag, validargs, valid_factor_helper}
use audible.Audio.Args.Usage.{Usage}
use audible.Audio.Args.Strings.{AreCStrings}
use audible.Audio.Args.Accept.Plain.{ArePlainArgs, validargs-Usage_iff}
use audible.Audio.Args.Numbers.{valid_factor_helper_iff}
use audible.Audio.Frame.{read_frame, write_frame}
use audible.Audio.Frame.RoundTrip.{frame_bytes, frame_round_trip, write_frame-after}
use audible.Audio.Header.{
  AudioHeader, audio_magic, valid_header, read_header, write_header, read_annotation,
}
use audible.Audio.Header.Layout.{FitsWords, write_header_read}
use audible.Audio.Transform.{Recoder, frames_loop}
use audible.Audio.Transform.Crypt.Loop.{crypt_frames, frames_loop_twice, ArePlain-narrow}

abbrev speed_line : List CString
speed_line = (b'a' ∷ []) ∷ flag b'u' ∷ flag b'p' ∷ flag b'f' ∷ (b'1' ∷ b'2' ∷ []) ∷ []

ne_b : (a b : ℕ) → (a == b) ≡ false → a ≢ b
ne_b a b h = ground arith

speed_line-strings : AreCStrings speed_line
speed_line-strings = (
  (ne_b _ _ refl, tt),
  (
    (ne_b _ _ refl, (ne_b _ _ refl, tt)),
    (
      (ne_b _ _ refl, (ne_b _ _ refl, tt)),
      ((ne_b _ _ refl, (ne_b _ _ refl, tt)), ((ne_b _ _ refl, (ne_b _ _ refl, tt)), tt)),
    ),
  ),
)

speed_line-plain : ArePlainArgs speed_line
speed_line-plain = (
  (omega arith, inr (inl (omega arith, omega arith))),
  (
    (omega arith, inr (inr (inl (omega arith, omega arith)))),
    (
      (omega arith, inr (inr (inl (omega arith, omega arith)))),
      (
        (omega arith, inr (inr (inl (omega arith, omega arith)))),
        ((omega arith, inl ((refl, (refl, tt)), omega arith)), tt),
      ),
    ),
  ),
)

validargs-Usage_iff_example :
    (validargs (length speed_line) speed_line ≡ (1, word 4 1 11 0))
    ↔ Usage speed_line (word 4 1 11 0)
validargs-Usage_iff_example =
    validargs-Usage_iff speed_line (word 4 1 11 0) speed_line-strings speed_line-plain

abbrev two_bytes : List ℕ
two_bytes = 1 ∷ 2 ∷ []

two_bytes-IsBytes : IsBytes two_bytes
two_bytes-IsBytes = (omega arith, (omega arith, tt))

frame_round_trip_example :
    read_frame 2 2 (frame_bytes 2 (300 ∷ 5 ∷ []) ++ two_bytes) ≡ (300 ∷ 5 ∷ [], two_bytes)
frame_round_trip_example =
    frame_round_trip 2 (300 ∷ 5 ∷ []) two_bytes (omega arith) (omega arith)
      (
        (omega arith, refl),
        λ e. absurd (omega arith),
        ((omega arith, refl), λ e. absurd (omega arith), tt),
      )
      two_bytes-IsBytes

abbrev stereo : AudioHeader
stereo = record {
  magic_number = audio_magic;
  data_offset = 32;
  data_size = 0xffffffff;
  encoding = 3;
  sample_rate = 8000;
  channels = 2;
}

stereo-FitsWords : FitsWords stereo
stereo-FitsWords = record {
  magic_number = omega arith;
  data_offset = omega arith;
  data_size = omega arith;
  encoding = omega arith;
  sample_rate = omega arith;
  channels = omega arith;
}

write_header_read_example :
    let wrote = write_header stereo (record { written = []; room = 30 }) in
    (wrote.0 ≡ 1)
    × (read_header ((wrote.1).written ++ two_bytes)
        ≡ (true, record stereo { data_size = 0 }, two_bytes))
unfolding valid_header
write_header_read_example =
    write_header_read stereo 30 two_bytes stereo-FitsWords (omega arith) two_bytes-IsBytes

abbrev eight : List ℕ
eight = 1 ∷ 2 ∷ 3 ∷ 4 ∷ 5 ∷ 6 ∷ 7 ∷ 8 ∷ []

eight-accepted : (read_annotation [] 8 eight).0 ≡ true
unfolding read_annotation
eight-accepted = refl

stereo-valid : valid_header stereo ≡ true
unfolding valid_header
stereo-valid = refl

abbrev crypt_word : ℕ
crypt_word = word 1 0 0 77

abbrev cleartext : Recoder
cleartext = record {
  input = 0 ∷ 1 ∷ 0 ∷ 2 ∷ [];
  out = record { written = []; room = 100 };
  input_frame = [];
  seed = 77;
}

abbrev ciphertext : Recoder
ciphertext = record cleartext {
  input = (frames_loop crypt_word stereo 1 1 0 cleartext).out.written;
}

frames_loop_twice_example :
    (frames_loop crypt_word stereo 1 1 0 ciphertext).out
    ≡ record { written = 0 ∷ 1 ∷ 0 ∷ 2 ∷ []; room = 96 }
frames_loop_twice_example =
    frames_loop_twice crypt_word stereo 2 (omega arith) (omega arith) refl
      (is_crypt-word 1 0 0 77 (omega arith) (omega arith) (omega arith) (omega arith))
      (is_speed_up-word 1 0 0 77 (omega arith) (omega arith) (omega arith) (omega arith))
      (is_slow_down-word 1 0 0 77 (omega arith) (omega arith) (omega arith) (omega arith))
      (two_bytes ∷ []) 1 cleartext ciphertext (refl, (omega arith, (omega arith, tt)), tt)
      (ArePlain-narrow 2 (two_bytes ∷ []) (omega arith))
      (ArePlain-narrow 2 (crypt_frames 2 (two_bytes ∷ []) 77) (omega arith)) refl refl (omega arith)
      refl refl
