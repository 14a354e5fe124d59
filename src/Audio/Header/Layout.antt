-- ===== src/Audio/Header/Layout.antt =====
-- The 24 bytes of a header, read and written.
use audible.Base.{
  ℕ, ◌+◌, ◌-◌, ◌%◌, ◌^◌, ◌≤◌, ◌<◌, ◌≡◌, refl, ◌∙◌, ap, Bool, true, List, [], ◌++◌, take, length,
  arith,
}
use audible.Audio.Stream.{Output, get_stdin_int}
use audible.Audio.Stream.Write.{status, after, put_char_int-after}
use audible.Audio.Frame.RoundTrip.{after-after, take_all}
use audible.Audio.Stream.Bytes.{be_bytes, IsBytes, be_bytes-IsBytes}
use audible.Audio.Stream.Sample.{get_stdin_int-be_bytes, IsBytes-append}
use audible.Audio.Stream.Read.{unless_eof}
use audible.Audio.Header.{
  AudioHeader, valid_header, read_header, write_header, then_put, read_annotation, sizeof_header,
  annotation_max,
}

abbrev pub header_bytes : AudioHeader → List ℕ
header_bytes h =
    be_bytes 4 h.magic_number
    ++ (be_bytes 4 h.data_offset
        ++ (be_bytes 4 h.data_size
            ++ (be_bytes 4 h.encoding ++ (be_bytes 4 h.sample_rate ++ be_bytes 4 h.channels))))

-- What a field comes back as: the word of all ones reads as 0.
abbrev pub reread : AudioHeader → AudioHeader
reread h = record {
  magic_number = unless_eof h.magic_number;
  data_offset = unless_eof h.data_offset;
  data_size = unless_eof h.data_size;
  encoding = unless_eof h.encoding;
  sample_rate = unless_eof h.sample_rate;
  channels = unless_eof h.channels;
}

pub record FitsWords (h : AudioHeader) : Type 0 where
  pub magic_number : h.magic_number < 2 ^ 32
  pub data_offset : h.data_offset < 2 ^ 32
  pub data_size : h.data_size < 2 ^ 32
  pub encoding : h.encoding < 2 ^ 32
  pub sample_rate : h.sample_rate < 2 ^ 32
  pub channels : h.channels < 2 ^ 32

get_word :
    (v : ℕ) (s : List ℕ)
    → v < 2 ^ 32
    → IsBytes s
    → get_stdin_int 4 (be_bytes 4 v ++ s) ≡ (unless_eof v, s)
get_word v s hv hs =
    let whole : v % 2 ^ 32 ≡ v = omega arith in
    get_stdin_int-be_bytes 4 v s (omega arith) (omega arith) hs ∙ ap (λ w. (unless_eof w, s)) whole

-- What `read_header` does with each field that it has got, and with the input behind it.
abbrev Got : Type 0
Got = ℕ × List ℕ

abbrev with_channels : ℕ → ℕ → ℕ → ℕ → ℕ → Got → Bool × AudioHeader × List ℕ
with_channels m o z e r got =
    let h : AudioHeader = record {
      magic_number = m;
      data_offset = o;
      data_size = z;
      encoding = e;
      sample_rate = r;
      channels = got.0;
    } in
    (valid_header h, h, got.1)

abbrev with_rate : ℕ → ℕ → ℕ → ℕ → Got → Bool × AudioHeader × List ℕ
with_rate m o z e got = with_channels m o z e got.0 (get_stdin_int 4 got.1)

abbrev with_encoding : ℕ → ℕ → ℕ → Got → Bool × AudioHeader × List ℕ
with_encoding m o z got = with_rate m o z got.0 (get_stdin_int 4 got.1)

abbrev with_size : ℕ → ℕ → Got → Bool × AudioHeader × List ℕ
with_size m o got = with_encoding m o got.0 (get_stdin_int 4 got.1)

abbrev with_offset : ℕ → Got → Bool × AudioHeader × List ℕ
with_offset m got = with_size m got.0 (get_stdin_int 4 got.1)

abbrev with_magic : Got → Bool × AudioHeader × List ℕ
with_magic got = with_offset got.0 (get_stdin_int 4 got.1)

prepend : (v : ℕ) (s : List ℕ) → IsBytes s → IsBytes (be_bytes 4 v ++ s)
prepend v s hs = IsBytes-append (be_bytes 4 v) s (be_bytes-IsBytes 4 v) hs

-- The bytes of a header are read back field by field.
read_header-header_bytes :
    (h : AudioHeader) (s : List ℕ)
    → FitsWords h
    → IsBytes s
    → read_header (header_bytes h ++ s) ≡ (valid_header (reread h), reread h, s)
unfolding read_header
read_header-header_bytes h s fits hs =
    let after_rate = be_bytes 4 h.channels ++ s in
    let after_encoding = be_bytes 4 h.sample_rate ++ after_rate in
    let after_size = be_bytes 4 h.encoding ++ after_encoding in
    let after_offset = be_bytes 4 h.data_size ++ after_size in
    let after_magic = be_bytes 4 h.data_offset ++ after_offset in
    let f = prepend h.channels s hs in
    let e = prepend h.sample_rate after_rate f in
    let d = prepend h.encoding after_encoding e in
    let c = prepend h.data_size after_size d in
    let b = prepend h.data_offset after_offset c in
    ap with_magic (get_word h.magic_number after_magic fits.magic_number b)
    ∙ ap (with_offset (unless_eof h.magic_number))
        (get_word h.data_offset after_offset fits.data_offset c)
    ∙ ap (with_size (unless_eof h.magic_number) (unless_eof h.data_offset))
        (get_word h.data_size after_size fits.data_size d)
    ∙ ap
        (with_encoding (unless_eof h.magic_number) (unless_eof h.data_offset)
          (unless_eof h.data_size))
        (get_word h.encoding after_encoding fits.encoding e)
    ∙ ap
        (with_rate (unless_eof h.magic_number) (unless_eof h.data_offset) (unless_eof h.data_size)
          (unless_eof h.encoding))
        (get_word h.sample_rate after_rate fits.sample_rate f)
    ∙ ap
        (with_channels (unless_eof h.magic_number) (unless_eof h.data_offset)
          (unless_eof h.data_size) (unless_eof h.encoding) (unless_eof h.sample_rate))
        (get_word h.channels s fits.channels hs)

-- One more field, behind the bytes `s` and within the room.
then_put-after :
    (v : ℕ) (out : Output) (s : List ℕ)
    → v < 2 ^ 32
    → length s + 4 ≤ out.room
    → then_put (1, after out s) v ≡ (1, after out (s ++ be_bytes 4 v))
unfolding then_put
then_put-after v out s hv room =
    let fits_four : status 4 (out.room - length s) ≡ 1 = ground arith in
    put_char_int-after v (after out s) hv
    ∙ ap (λ (o : Output). (status 4 (out.room - length s), o)) (after-after out s (be_bytes 4 v))
    ∙ ap (λ (k : ℕ). (k, after out (s ++ be_bytes 4 v))) fits_four

-- The bytes in the order in which they are written.
joined : AudioHeader → List ℕ
joined h =
    ((((be_bytes 4 h.magic_number ++ be_bytes 4 h.data_offset) ++ be_bytes 4 h.data_size)
        ++ be_bytes 4 h.encoding)
      ++ be_bytes 4 h.sample_rate)
    ++ be_bytes 4 h.channels

joined_lem : (h : AudioHeader) → joined h ≡ header_bytes h
unfolding joined
joined_lem h = refl

write_header-after :
    (h : AudioHeader) (out : Output)
    → FitsWords h
    → 24 ≤ out.room
    → write_header h out ≡ (1, after out (joined h))
unfolding write_header joined
write_header-after h out fits room =
    let fits_one : status 4 out.room ≡ 1 = ground arith in
    ap
      (λ (r : ℕ × Output).
        then_put
          (then_put (then_put (then_put (then_put r h.data_offset) h.data_size) h.encoding)
            h.sample_rate)
          h.channels)
      (put_char_int-after h.magic_number out fits.magic_number
        ∙ ap (λ (k : ℕ). (k, after out (be_bytes 4 h.magic_number))) fits_one)
    ∙ ap
        (λ (r : ℕ × Output).
          then_put (then_put (then_put (then_put r h.data_size) h.encoding) h.sample_rate)
            h.channels)
        (then_put-after h.data_offset out _ fits.data_offset (omega arith))
    ∙ ap (λ (r : ℕ × Output). then_put (then_put (then_put r h.encoding) h.sample_rate) h.channels)
        (then_put-after h.data_size out _ fits.data_size (omega arith))
    ∙ ap (λ (r : ℕ × Output). then_put (then_put r h.sample_rate) h.channels)
        (then_put-after h.encoding out _ fits.encoding (omega arith))
    ∙ ap (λ (r : ℕ × Output). then_put r h.channels)
        (then_put-after h.sample_rate out _ fits.sample_rate (omega arith))
    ∙ then_put-after h.channels out _ fits.channels (omega arith)

-- `write_header` on an output with nothing written and room for the 24 bytes returns 1, and
-- `read_header` on what it wrote, with any bytes `s` behind, gives the fields back and leaves `s`; but a
-- field of all ones, such as the data size that stands for "unknown", comes back as 0. It tells whether
-- what it has read is valid. Every field is a 32-bit word.
pub write_header_read :
    (h : AudioHeader) (room : ℕ) (s : List ℕ)
    → FitsWords h
    → 24 ≤ room
    → IsBytes s
    → let wrote = write_header h (record { written = []; room = room }) in
      (wrote.0 ≡ 1)
      × (read_header ((wrote.1).written ++ s) ≡ (valid_header (reread h), reread h, s))
write_header_read h room s fits enough hs =
    let out : Output = record { written = []; room = room } in
    let wrote = write_header-after h out fits enough in
    let all : take room (joined h) ≡ header_bytes h =
      ap (take room) (joined_lem h) ∙ take_all room (header_bytes h) (omega arith) in
    (
      ap (λ (r : ℕ × Output). r.0) wrote,
      ap (λ (r : ℕ × Output). read_header ((r.1).written ++ s)) wrote
          ∙ ap (λ b. read_header (b ++ s)) all
          ∙ read_header-header_bytes h s fits hs,
    )

-- A header and an annotation that are both accepted leave room for the header: the offset is 24 or
-- more, and the annotation fits its buffer.
pub accepted_offset :
    (h : AudioHeader) (buffer input : List ℕ)
    → h.data_offset < 2 ^ 32
    → valid_header h ≡ true
    → (read_annotation buffer ((h.data_offset + 2 ^ 32 - sizeof_header) % 2 ^ 32) input).0 ≡ true
    → (sizeof_header ≤ h.data_offset)
      × (h.data_offset ≤ sizeof_header + annotation_max)
      × (h.data_offset % 8 ≡ 0)
unfolding valid_header read_annotation
accepted_offset h buffer input fits valid accepted = ground arith
