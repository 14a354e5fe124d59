-- ===== src/Audio/Recode/Annotation.antt =====
-- The new annotation.
use mathlib.Core.Option.{Option, none, some}
use mathlib.Core.Path.{subst}
use audible.Base.{
  ℕ, zero, suc, ◌∙◌, ap, ◌++◌, take, length-append, ◌+◌, ◌-◌, ◌%◌, ◌≤◌, ◌<◌, ◌≡◌, ◌≢◌, refl, List,
  [], ◌∷◌, length, arith,
}
use audible.Audio.Options.{
  get_arg_c, get_key, get_factor, is_preserve, is_speed_up, is_slow_down, is_crypt,
}
use audible.Audio.Options.Fields.{word}
use audible.Audio.Args.{CString, flag, validargs}
use audible.Audio.Args.Strings.{IsCString, AreCStrings}
use audible.Audio.Args.Usage.{plain, speed_up, slow_down}
use audible.Audio.Args.Accept.{validargs_iff}
use audible.Audio.Header.{annotation_max}
use audible.Audio.Recode.{
  put_char, copy_string, put_space, copy_args, pad_loop, end_annotation, get_new_annotation,
}
use audible.Audio.Recode.Writes.{
  text_of, joined, Wrote, put_char-Wrote, Wrote-trans, copy_string-Wrote, copy_args-Wrote, Padded,
  pad_loop-Padded,
}

copy_args-none :
    (n : ℕ) (argv : List CString) (k : ℕ) (ap : List ℕ)
    → length argv < n
    → copy_args n argv k ap ≡ none
unfolding copy_args
copy_args-none zero argv k ap h = absurd (omega (arith, h))
copy_args-none (suc n) [] k ap h = refl
copy_args-none (suc n) (string ∷ argv) k ap h =
    elim (copy_string string k ap)
      as (λ x.
        (elim x as (λ _. Option (ℕ × List ℕ)) [
          | none ↦ none
          | some (k1, ap1) ↦ elim (put_space n k1 ap1) [
            | none ↦ none
            | some (k2, ap2) ↦ copy_args n argv k2 ap2
          ]
        ])
        ≡ none) [
          | none ↦ refl
          | some (k1, ap1) ↦
              elim (put_space n k1 ap1)
                as (λ x.
                  (elim x as (λ _. Option (ℕ × List ℕ)) [
                    | none ↦ none
                    | some (k2, ap2) ↦ copy_args n argv k2 ap2
                  ])
                  ≡ none) [
                    | none ↦ refl
                    | some (k2, ap2) ↦ copy_args-none n argv k2 ap2 (omega (arith, h))
                  ]
        ]

many_args :
    (options : ℕ) (input_annotation : List ℕ) (argv : List CString) (ap : List ℕ)
    → length argv < get_arg_c options
    → get_new_annotation options input_annotation argv ap ≡ none
unfolding get_new_annotation
many_args options input_annotation argv ap h =
    ground (arith, copy_args-none (get_arg_c options) argv 0 ap h)

speed_up_count : get_arg_c (word 4 0 0x200 0) ≡ 4
unfolding get_arg_c get_key get_factor is_preserve is_speed_up is_slow_down is_crypt
speed_up_count = refl

slow_down_count : get_arg_c (word 2 0 0x200 0) ≡ 4
unfolding get_arg_c get_key get_factor is_preserve is_speed_up is_slow_down is_crypt
slow_down_count = refl

-- A flag with nothing behind it: its options word counts four arguments, and there are two.
alone :
    (prog : CString) (m o : ℕ) (input_annotation buffer : List ℕ)
    → validargs 2 (prog ∷ flag m ∷ []) ≡ (1, o)
    → get_arg_c o ≡ 4
    → ((validargs 2 (prog ∷ flag m ∷ [])).0 ≡ 1)
      × (get_new_annotation
            (validargs 2 (prog ∷ flag m ∷ [])).1
            input_annotation
            (prog ∷ flag m ∷ [])
            buffer
          ≡ none)
alone prog m o input_annotation buffer e count = (
  ap (λ (r : ℕ × ℕ). r.0) e,
  ap (λ (r : ℕ × ℕ). get_new_annotation r.1 input_annotation (prog ∷ flag m ∷ []) buffer) e
      ∙ many_args o input_annotation (prog ∷ flag m ∷ []) buffer (omega (arith, count)),
)

-- On the command lines with `-u` alone and with `-d` alone, which `validargs` accepts,
-- `getNewAnnotation` crashes with the options word that `validargs` stores, whatever the annotation.
pub get_new_annotation-speed :
    (prog : CString) (input_annotation ap : List ℕ)
    → IsCString prog
    → let up = prog ∷ flag b'u' ∷ [] in
      let down = prog ∷ flag b'd' ∷ [] in
      ((validargs 2 up).0 ≡ 1)
      × (get_new_annotation (validargs 2 up).1 input_annotation up ap ≡ none)
      × ((validargs 2 down).0 ≡ 1)
      × (get_new_annotation (validargs 2 down).1 input_annotation down ap ≡ none)
get_new_annotation-speed prog input_annotation ap h =
    let strings : (m : ℕ) → m ≢ 0 → AreCStrings (prog ∷ flag m ∷ []) =
      λ m hm. (h, (((λ e. omega (arith, e)), (hm, tt)), tt)) in
    let up =
      alone prog b'u' (word 4 0 0x200 0) input_annotation ap
        ((validargs_iff (prog ∷ flag b'u' ∷ []) (word 4 0 0x200 0)
            (strings b'u' (λ e. omega (arith, e)))).1
          (speed_up prog [] 0 0x200 (plain refl refl refl) refl refl))
        speed_up_count in
    let down =
      alone prog b'd' (word 2 0 0x200 0) input_annotation ap
        ((validargs_iff (prog ∷ flag b'd' ∷ []) (word 2 0 0x200 0)
            (strings b'd' (λ e. omega (arith, e)))).1
          (slow_down prog [] 0 0x200 (plain refl refl refl) refl refl))
        slow_down_count in
    (up.0, up.1, down.0, down.1)

-- A new annotation that begins with the text: its size, and what it holds.
abbrev pub Whole : List ℕ → Option (ℕ × List ℕ) → Type 0
Whole text none = annotation_max < length text + 15
Whole text (some (k, ap)) =
    (k % 8 ≡ 0)
    × (length text < k)
    × (k ≤ length text + 8)
    × (k ≤ annotation_max)
    × (take (length text) ap ≡ text)

Padded-Whole :
    (k : ℕ) (first ap text : List ℕ) (r : Option (ℕ × List ℕ))
    → Wrote 0 first text (some (k, ap))
    → Padded (8 - k % 8) (k % 8) k k ap r
    → Whole text r
Padded-Whole k first ap text none h p = omega (arith, p, h.0)
Padded-Whole k first ap text (some (k', ap')) h p =
    let size : k ≡ length text = h.0 ∙ omega arith in
    (
      omega (arith, p.0),
      omega (arith, p.0, size),
      omega (arith, p.0, size),
      p.1 (omega arith),
      subst (λ m. take m ap' ≡ text) size (p.2 ∙ h.1),
    )

end_annotation-Whole :
    (old : List ℕ) (k : ℕ) (first ap text : List ℕ)
    → length ap ≡ annotation_max
    → Wrote 0 first text (some (k, ap))
    → Whole (text ++ (b'\n' ∷ text_of old)) (end_annotation old k ap)
unfolding end_annotation
end_annotation-Whole old k first ap text size h =
    elim (put_char b'\n' k ap)
        as (λ x.
          Wrote k ap (b'\n' ∷ []) x
          → Whole (text ++ (b'\n' ∷ text_of old)) (elim x as (λ _. Option (ℕ × List ℕ)) [
            | none ↦ none
            | some (k1, ap1) ↦ elim (copy_string old k1 ap1) [
              | none ↦ none
              | some (k2, ap2) ↦ pad_loop (8 - k2 % 8) (k2 % 8) k2 ap2
            ]
          ])) [
            | none ↦ λ h1. omega (arith, h.0, h1, length-append text (b'\n' ∷ text_of old))
            | some (k1, ap1) ↦ λ h1.
                elim (copy_string old k1 ap1)
                    as (λ x.
                      Wrote k1 ap1 (text_of old) x
                      → Whole (text ++ (b'\n' ∷ text_of old))
                          (elim x as (λ _. Option (ℕ × List ℕ)) [
                            | none ↦ none
                            | some (k2, ap2) ↦ pad_loop (8 - k2 % 8) (k2 % 8) k2 ap2
                          ])) [
                            | none ↦ λ h2.
                                omega
                                  (arith, h.0, h1.0, h2, length-append text (b'\n' ∷ text_of old))
                            | some (k2, ap2) ↦ λ h2.
                                Padded-Whole k2 first ap2 (text ++ (b'\n' ∷ text_of old)) _
                                  (Wrote-trans 0 k first ap text (b'\n' ∷ text_of old)
                                    (some (k2, ap2)) h
                                    (Wrote-trans k k1 ap ap1 (b'\n' ∷ []) (text_of old)
                                      (some (k2, ap2)) h1 h2))
                                  (pad_loop-Padded (8 - k2 % 8) (k2 % 8) k2 k2 ap2 (omega arith))
                          ]
                  (copy_string-Wrote old k1 ap1 (h1.2 ∙ size))
          ]
      (put_char-Wrote b'\n' k ap size)

-- Where `getArgC` counts no more arguments than there are, `getNewAnnotation` leaves an array of 1024 bytes
-- only if the text is longer than 1009: the arguments that it counts, a space between two, a newline, and
-- the old annotation up to its first null. Otherwise the new annotation begins with that text, and its
-- size is a multiple of 8, is at most 1024, and is larger than the text by 1 to 8 bytes.
pub get_new_annotation-Whole :
    (options : ℕ) (old : List ℕ) (argv : List CString) (ap : List ℕ)
    → get_arg_c options ≤ length argv
    → length ap ≡ annotation_max
    → Whole
        (joined (get_arg_c options) argv ++ (b'\n' ∷ text_of old))
        (get_new_annotation options old argv ap)
unfolding get_new_annotation
get_new_annotation-Whole options old argv ap there size =
    elim (copy_args (get_arg_c options) argv 0 ap)
        as (λ x.
          Wrote 0 ap (joined (get_arg_c options) argv) x
          → Whole (joined (get_arg_c options) argv ++ (b'\n' ∷ text_of old))
              (elim x as (λ _. Option (ℕ × List ℕ)) [
                | none ↦ none
                | some (k, ap') ↦ end_annotation old k ap'
              ])) [
                | none ↦ λ h. omega (
                  arith,
                  h,
                  length-append (joined (get_arg_c options) argv) (b'\n' ∷ text_of old),
                )
                | some (k, ap') ↦ λ h.
                    end_annotation-Whole old k ap ap' (joined (get_arg_c options) argv) (h.2 ∙ size)
                      h
              ]
      (copy_args-Wrote (get_arg_c options) argv 0 ap there size)
