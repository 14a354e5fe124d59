-- ===== src/Audio/Tests/Recoding.antt =====
-- Concrete runs of the theorems on the new annotation.
use mathlib.Core.Option.{none}
use audible.Base.{ℕ, ◌+◌, ◌^◌, ◌≡◌, refl, List, [], ◌∷◌, ◌++◌, arith}
use audible.Audio.Options.{
  get_arg_c, get_key, get_factor, is_preserve, is_speed_up, is_slow_down, is_crypt,
}
use audible.Audio.Args.{CString, flag, validargs}
use audible.Audio.Header.{annotation_max}
use audible.Audio.Recode.{zeros, get_new_annotation}
use audible.Audio.Recode.Annotation.{Whole, get_new_annotation-Whole, get_new_annotation-speed}
use audible.Audio.Recode.Writes.{joined, text_of}

get_new_annotation-speed_example :
    let up : List CString = (b'a' ∷ []) ∷ flag b'u' ∷ [] in
    let down : List CString = (b'a' ∷ []) ∷ flag b'd' ∷ [] in
    ((validargs 2 up).0 ≡ 1)
    × (get_new_annotation (validargs 2 up).1 [] up (zeros annotation_max) ≡ none)
    × ((validargs 2 down).0 ≡ 1)
    × (get_new_annotation (validargs 2 down).1 [] down (zeros annotation_max) ≡ none)
get_new_annotation-speed_example =
    get_new_annotation-speed (b'a' ∷ []) [] (zeros annotation_max) ((λ e. omega (arith, e)), tt)

-- The options of `-c -k 1`, and a command line with them.
abbrev crypt_options : ℕ
crypt_options = 2 ^ 60 + 1

abbrev crypt_line : List CString
crypt_line = (b'a' ∷ []) ∷ (b'-' ∷ b'c' ∷ []) ∷ (b'-' ∷ b'k' ∷ []) ∷ (b'1' ∷ []) ∷ []

crypt_count : get_arg_c crypt_options ≡ 4
unfolding get_arg_c get_key get_factor is_preserve is_speed_up is_slow_down is_crypt
crypt_count = refl

get_new_annotation-Whole_example :
    Whole
      (joined (get_arg_c crypt_options) crypt_line ++ (b'\n' ∷ text_of (b'h' ∷ b'i' ∷ 0 ∷ [])))
      (get_new_annotation crypt_options (b'h' ∷ b'i' ∷ 0 ∷ []) crypt_line (zeros annotation_max))
get_new_annotation-Whole_example =
    get_new_annotation-Whole crypt_options (b'h' ∷ b'i' ∷ 0 ∷ []) crypt_line (zeros annotation_max)
      (omega (arith, crypt_count)) refl
