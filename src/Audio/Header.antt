-- ===== src/Audio/Header.antt =====
-- The header and the annotation: `read_header`, `write_header`, `read_annotation` and
-- `write_annotation` of Audible/src/audio.c, and the checks of Audible/src/audioHelper.c.
pub mod Layout
use audible.Base.{
  ℕ, zero, suc, ◌+◌, ◌-◌, ◌%◌, ◌≡◌, Bool, true, false, not, ◌&&◌, ◌||◌, List, [], ◌∷◌, ltb, leb,
  ◌==◌, if◌then◌else◌, u8, int_of_char, set, get_or,
}
use audible.Audio.Stream.{Output, eof, getchar, putchar, get_stdin_int, put_char_int}

pub record AudioHeader : Type 0 where
  pub magic_number : ℕ
  pub data_offset : ℕ
  pub data_size : ℕ
  pub encoding : ℕ
  pub sample_rate : ℕ
  pub channels : ℕ

abbrev pub audio_magic : ℕ
audio_magic = 0x2e736e64

abbrev pub annotation_max : ℕ
annotation_max = 1024

-- `sizeof(hp)` is the size of a pointer, `sizeof(AUDIO_HEADER)` that of the header.
abbrev pub sizeof_pointer : ℕ
sizeof_pointer = 8

abbrev pub sizeof_header : ℕ
sizeof_header = 24

pub valid_magic_number : AudioHeader → Bool
valid_magic_number h = h.magic_number == audio_magic

pub valid_data_offset : AudioHeader → Bool
valid_data_offset h = h.data_offset % 8 == 0 && leb sizeof_pointer h.data_offset

pub valid_encoding : AudioHeader → Bool
valid_encoding h = leb h.encoding 5 && leb 2 h.encoding

pub valid_channels : AudioHeader → Bool
valid_channels h = h.channels == 1 || h.channels == 2

unfoldable pub valid_header : AudioHeader → Bool
unfolding valid_magic_number valid_data_offset valid_encoding valid_channels
valid_header h =
    valid_magic_number h && (valid_data_offset h && (valid_encoding h && valid_channels h))

-- Whether the header is valid, the header, and the input that is left.
pub read_header : List ℕ → Bool × AudioHeader × List ℕ
unfolding valid_header
read_header input =
    let (magic_number, input) = get_stdin_int 4 input in
    let (data_offset, input) = get_stdin_int 4 input in
    let (data_size, input) = get_stdin_int 4 input in
    let (encoding, input) = get_stdin_int 4 input in
    let (sample_rate, input) = get_stdin_int 4 input in
    let (channels, input) = get_stdin_int 4 input in
    let h : AudioHeader = record {
      magic_number = magic_number;
      data_offset = data_offset;
      data_size = data_size;
      encoding = encoding;
      sample_rate = sample_rate;
      channels = channels;
    } in
    (valid_header h, h, input)

-- `&&` between calls: the next one is made only if all before it returned 1.
then_put : ℕ × Output → ℕ → ℕ × Output
then_put (done, out) field = if done == 0 then (0, out) else put_char_int field out

pub write_header : AudioHeader → Output → ℕ × Output
unfolding then_put
write_header h out =
    then_put
      (then_put
        (then_put (then_put (then_put (put_char_int h.magic_number out) h.data_offset) h.data_size)
          h.encoding)
        h.sample_rate)
      h.channels

-- The loop of `read_annotation` at `i`, with `n` rounds left. The byte read passes through a
-- `char`, so the byte 0xff compares equal to `EOF`.
read_annotation_loop : ℕ → ℕ → List ℕ → List ℕ → Bool × List ℕ × List ℕ
read_annotation_loop zero i ap input = (true, ap, input)
read_annotation_loop (suc n) i ap input =
    let (c, rest) = getchar input in
    let ap' = set ap i (u8 c) in
    elim (int_of_char (u8 c) == eof) [
      | true ↦ (false, ap', rest)
      | false ↦ read_annotation_loop n (i + 1) ap' rest
    ]

-- `read_annotation(ap, size)`, with the buffer and the input that it leaves.
unfoldable pub read_annotation : List ℕ → ℕ → List ℕ → Bool × List ℕ × List ℕ
unfolding read_annotation_loop
read_annotation ap size input =
    if not (size % 8 == 0) || ltb annotation_max size
    then (false, ap, input)
    else read_annotation_loop size 0 ap input

-- The loop of `write_annotation` at `i`, with `n` rounds left.
write_annotation_loop : ℕ → ℕ → List ℕ → Output → ℕ × Output
write_annotation_loop zero i ap out = (1, out)
write_annotation_loop (suc n) i ap out =
    let (c, out') = putchar (get_or ap i 0) out in
    elim (c == eof) [ true ↦ (0, out') | false ↦ write_annotation_loop n (i + 1) ap out' ]

pub write_annotation : List ℕ → ℕ → Output → ℕ × Output
unfolding write_annotation_loop
write_annotation ap size out = write_annotation_loop size 0 ap out
