-- ===== src/Audio/Recode.antt =====
-- `recode` of Audible/src/hw1.c with the new annotation of Audible/src/transformations.c, and `main` of
-- Audible/src/main.c.
--
-- A result is `none` where the code reads an argument behind the last one or leaves an array. The two
-- global arrays for annotations have 1024 bytes, all 0 at first. The usage message is left out.
pub mod Writes
pub mod Annotation
use mathlib.Core.Option.{Option, none, some}
use audible.Base.{
  ℕ, zero, suc, ◌+◌, ◌-◌, ◌*◌, ◌/◌, ◌%◌, ◌≡◌, Bool, true, false, not, ◌||◌, List, [], ◌∷◌, ltb,
  ◌==◌, if◌then◌else◌, u32, add32, sub32, mul32, lts, set, get_elem?, bit_and, ◌>>>◌, is_negative,
  length,
}
use audible.Audio.Stream.{Output}
use audible.Audio.Options.{truth, is_preserve, get_key, get_arg_c}
use audible.Audio.Args.{CString, size_of_string, validargs}
use audible.Audio.Rand.{mysrand}
use audible.Audio.Header.{
  AudioHeader, annotation_max, sizeof_header, read_header, write_header, read_annotation,
  write_annotation,
}
use audible.Audio.Transform.{Recoder, bytes_per_sample, set_new_data_size, frames_loop}

-- `*(ap + k) = c; k++`
unfoldable pub put_char : ℕ → ℕ → List ℕ → Option (ℕ × List ℕ)
put_char c k ap = if ltb k annotation_max then some (k + 1, set ap k c) else none

-- `copyString(ap + k, string)`, with the new `k`.
unfoldable pub copy_string : CString → ℕ → List ℕ → Option (ℕ × List ℕ)
copy_string [] k ap = some (k, ap)
copy_string (c ∷ string) k ap =
    if c == 0
    then some (k, ap)
    else elim (put_char c k ap) [ none ↦ none | some (k', ap') ↦ copy_string string k' ap' ]

-- The space behind an argument that is not the last.
abbrev pub put_space : ℕ → ℕ → List ℕ → Option (ℕ × List ℕ)
put_space zero k ap = some (k, ap)
put_space (suc n) k ap = put_char b' ' k ap

-- The loop over the arguments, with `n` left.
unfoldable pub copy_args : ℕ → List CString → ℕ → List ℕ → Option (ℕ × List ℕ)
copy_args zero argv k ap = some (k, ap)
copy_args (suc n) [] k ap = none
copy_args (suc n) (string ∷ argv) k ap = elim (copy_string string k ap) [
  | none ↦ none
  | some (k1, ap1) ↦ elim (put_space n k1 ap1) [
    | none ↦ none
    | some (k2, ap2) ↦ copy_args n argv k2 ap2
  ]
]

-- The loop of the padding, with `n` rounds left: `i` and `k` both go up.
unfoldable pub pad_loop : ℕ → ℕ → ℕ → List ℕ → Option (ℕ × List ℕ)
pad_loop zero i k ap = some (k, ap)
pad_loop (suc n) i k ap =
    let rest = pad_loop n (i + 1) (k + 1) (set ap (k + i) 0) in
    if ltb (k + i) annotation_max then rest else none

-- `getNewAnnotation` behind the loop over the arguments.
unfoldable pub end_annotation : List ℕ → ℕ → List ℕ → Option (ℕ × List ℕ)
end_annotation input_annotation k ap = elim (put_char b'\n' k ap) [
  | none ↦ none
  | some (k1, ap1) ↦ elim (copy_string input_annotation k1 ap1) [
    | none ↦ none
    | some (k2, ap2) ↦ pad_loop (8 - k2 % 8) (k2 % 8) k2 ap2
  ]
]

-- `getNewAnnotation(ap, argv)`
unfoldable pub get_new_annotation : ℕ → List ℕ → List CString → List ℕ → Option (ℕ × List ℕ)
get_new_annotation options input_annotation argv ap =
    elim (copy_args (get_arg_c options) argv 0 ap) [
      | none ↦ none
      | some (k, ap') ↦ end_annotation input_annotation k ap'
    ]

-- The frames, after the header and the annotation are written.
unfoldable pub recode_frames : ℕ → AudioHeader → ℕ → List ℕ → Output → ℕ × Output
recode_frames options h frames input out =
    let start : Recoder = record {
      input = input;
      out = out;
      input_frame = [];
      seed = mysrand (get_key options);
    } in
    (1, (frames_loop options h frames (if lts 0 frames then frames else 0) 0 start).out)

-- The new annotation in place of the old one.
unfoldable pub recode_new :
    ℕ → AudioHeader → ℕ → ℕ → List ℕ → Output → Option (ℕ × List ℕ) → Option (ℕ × Output)
recode_new options h frame_size frames input out none = none
recode_new options h frame_size frames input out (some (new_size, ap)) =
    if ltb annotation_max new_size
    then some (0, out)
    else let sized = set_new_data_size options h frame_size frames in
      let h' : AudioHeader = record sized { data_offset = sizeof_header + new_size } in
      let out1 = (write_header h' out).1 in
      some (recode_frames options h' frames input (write_annotation ap new_size out1).1)

abbrev pub zeros : ℕ → List ℕ
zeros zero = []
zeros (suc n) = 0 ∷ zeros n

-- `recode(argv)`: the result and the output.
unfoldable pub recode : ℕ → List CString → List ℕ → Output → Option (ℕ × Output)
recode options argv input out =
    let (valid, h, input1) = read_header input in
    let (done, ap, input2) =
      read_annotation (zeros annotation_max) (sub32 h.data_offset sizeof_header) input1 in
    let frame_size = mul32 h.channels (bytes_per_sample h) in
    let frames = h.data_size / frame_size in
    if not valid
    then some (0, out)
    else if not done
    then some (0, out)
    else if truth (is_preserve options)
    then (let h' = set_new_data_size options h frame_size frames in
        let out1 = (write_header h' out).1 in
        some (
          recode_frames options h' frames input2
            (write_annotation ap (sub32 h'.data_offset sizeof_header) out1).1))
    else recode_new options h frame_size frames input2 out
        (get_new_annotation options ap argv (zeros annotation_max))

-- The exit status of `main`, with the output; 1 is EXIT_FAILURE.
unfoldable pub run_main : ℕ → List CString → List ℕ → Output → Option (ℕ × Output)
run_main argc argv input out =
    let (valid, options) = validargs argc argv in
    if not (truth valid)
    then some (1, out)
    else if bit_and (options >>> 63) 1 == 1
    then some (0, out)
    else elim (recode options argv input out) [
      | none ↦ none
      | some (done, out') ↦ some ((if truth done then 0 else 1), out')
    ]
