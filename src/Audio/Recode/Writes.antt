-- ===== src/Audio/Recode/Writes.antt =====
-- What the loops of `getNewAnnotation` write.
use mathlib.Core.Option.{Option, none, some}
use mathlib.Core.List.{append-nil, append_assoc}
use audible.Base.{
  ℕ, zero, suc, ◌∙◌, ap, sym, ◌++◌, take, length-append, ◌+◌, ◌≤◌, ◌<◌, ◌≡◌, refl, Bool-cases, inl,
  inr, List, [], ◌∷◌, ltb, ◌==◌, if◌then◌else◌, set, length, arith,
}
use audible.Audio.Args.{CString}
use audible.Audio.Header.{annotation_max}
use audible.Audio.Recode.{put_char, copy_string, put_space, copy_args, pad_loop}

-- The characters of a string.
abbrev pub text_of : CString → List ℕ
text_of [] = []
text_of (c ∷ string) = if c == 0 then [] else c ∷ text_of string

abbrev pub space : ℕ → List ℕ
space zero = []
space (suc n) = b' ' ∷ []

-- The first `n` arguments, with a space between two.
abbrev pub joined : ℕ → List CString → List ℕ
joined zero argv = []
joined (suc n) [] = []
joined (suc n) (string ∷ argv) = text_of string ++ (space n ++ joined n argv)

-- From `k` on the text was written, and nothing before; `none` only where it does not fit.
abbrev pub Wrote : ℕ → List ℕ → List ℕ → Option (ℕ × List ℕ) → Type 0
Wrote k ap text none = annotation_max < k + length text
Wrote k ap text (some (k', ap')) =
    (k' ≡ k + length text) × (take k' ap' ≡ take k ap ++ text) × (length ap' ≡ length ap)

take-set : (k c : ℕ) (ap : List ℕ) → k < length ap → take (k + 1) (set ap k c) ≡ take k ap ++ c ∷ []
take-set k c [] h = absurd (omega (arith, h))
take-set zero c (x ∷ ap) h = refl
take-set (suc k) c (x ∷ ap) h = ground (arith, take-set k c ap (omega (arith, h)))

length-set_annotation : (ap : List ℕ) (k c : ℕ) → length (set ap k c) ≡ length ap
length-set_annotation [] k c = refl
length-set_annotation (x ∷ ap) zero c = refl
length-set_annotation (x ∷ xs) (suc k) c = ap suc (length-set_annotation xs k c)

pub put_char-Wrote :
    (c k : ℕ) (ap : List ℕ) → length ap ≡ annotation_max → Wrote k ap (c ∷ []) (put_char c k ap)
unfolding put_char
put_char-Wrote c k ap size = elim (Bool-cases (ltb k annotation_max)) [
  | inl e ↦ rw e (refl, take-set k c ap (ground (arith, e, size)), length-set_annotation ap k c)
  | inr e ↦ rw e (ground (arith, e))
]

-- One text and then another.
pub Wrote-trans :
    (k k1 : ℕ) (ap ap1 text text1 : List ℕ) (r : Option (ℕ × List ℕ))
    → Wrote k ap text (some (k1, ap1))
    → Wrote k1 ap1 text1 r
    → Wrote k ap (text ++ text1) r
Wrote-trans k k1 ap ap1 text text1 none h h1 = omega (arith, h.0, h1, length-append text text1)
Wrote-trans k k1 ap ap1 text text1 (some (k2, ap2)) h h1 = (
  omega (arith, h.0, h1.0, length-append text text1),
  h1.1 ∙ (λ i. (h.1 i) ++ text1) ∙ append_assoc (take k ap) text text1,
  h1.2 ∙ h.2,
)

nothing-Wrote : (k : ℕ) (ap : List ℕ) → Wrote k ap [] (some (k, ap))
nothing-Wrote k ap = (omega arith, sym (append-nil (take k ap)), refl)

pub copy_string-Wrote :
    (string : CString) (k : ℕ) (ap : List ℕ)
    → length ap ≡ annotation_max
    → Wrote k ap (text_of string) (copy_string string k ap)
unfolding copy_string
copy_string-Wrote [] k ap size = nothing-Wrote k ap
copy_string-Wrote (c ∷ string) k ap size = elim (Bool-cases (c == 0)) [
  | inl e ↦ rw e (nothing-Wrote k ap)
  | inr e ↦ rw e (
      elim (put_char c k ap)
          as (λ x.
            Wrote k ap (c ∷ []) x
            → Wrote k ap (c ∷ text_of string) (elim x as (λ _. Option (ℕ × List ℕ)) [
              | none ↦ none
              | some (k', ap') ↦ copy_string string k' ap'
            ])) [
              | none ↦ λ h. omega (arith, h)
              | some (k', ap') ↦ λ h.
                  Wrote-trans k k' ap ap' (c ∷ []) (text_of string) (copy_string string k' ap') h
                    (copy_string-Wrote string k' ap' (h.2 ∙ size))
            ]
        (put_char-Wrote c k ap size))
]

put_space-Wrote :
    (n k : ℕ) (ap : List ℕ) → length ap ≡ annotation_max → Wrote k ap (space n) (put_space n k ap)
put_space-Wrote zero k ap size = nothing-Wrote k ap
put_space-Wrote (suc n) k ap size = put_char-Wrote b' ' k ap size

-- A writer behind another one.
then_Wrote :
    (k : ℕ) (ap text text1 : List ℕ) (r : Option (ℕ × List ℕ))
    (f : ℕ → List ℕ → Option (ℕ × List ℕ))
    → length ap ≡ annotation_max
    → Wrote k ap text r
    → ((k1 : ℕ) (ap1 : List ℕ) → length ap1 ≡ annotation_max → Wrote k1 ap1 text1 (f k1 ap1))
    → Wrote k ap (text ++ text1) (elim r [ none ↦ none | some (k1, ap1) ↦ f k1 ap1 ])
then_Wrote k ap text text1 none f size h g = omega (arith, h, length-append text text1)
then_Wrote k ap text text1 (some (k1, ap1)) f size h g =
    Wrote-trans k k1 ap ap1 text text1 (f k1 ap1) h (g k1 ap1 (h.2 ∙ size))

pub copy_args-Wrote :
    (n : ℕ) (argv : List CString) (k : ℕ) (ap : List ℕ)
    → n ≤ length argv
    → length ap ≡ annotation_max
    → Wrote k ap (joined n argv) (copy_args n argv k ap)
unfolding copy_args
copy_args-Wrote zero argv k ap there size = nothing-Wrote k ap
copy_args-Wrote (suc n) [] k ap there size = absurd (omega (arith, there))
copy_args-Wrote (suc n) (string ∷ argv) k ap there size =
    then_Wrote k ap (text_of string) (space n ++ joined n argv) (copy_string string k ap)
      (λ k1 ap1. elim (put_space n k1 ap1) [
        | none ↦ none
        | some (k2, ap2) ↦ copy_args n argv k2 ap2
      ])
      size (copy_string-Wrote string k ap size)
      (λ k1 ap1 size1.
        then_Wrote k1 ap1 (space n) (joined n argv) (put_space n k1 ap1)
          (λ k2 ap2. copy_args n argv k2 ap2) size1 (put_space-Wrote n k1 ap1 size1)
          (λ k2 ap2 size2. copy_args-Wrote n argv k2 ap2 (omega (arith, there)) size2))

take-set_behind : (n k c : ℕ) (ap : List ℕ) → n ≤ k → take n (set ap k c) ≡ take n ap
take-set_behind n k c [] h = refl
take-set_behind zero k c (x ∷ ap) h = refl
take-set_behind (suc n) zero c (x ∷ ap) h = absurd (omega (arith, h))
take-set_behind (suc n) (suc k) c (x ∷ ap) h =
    ground (arith, take-set_behind n k c ap (omega (arith, h)))

-- The padding leaves the first `len` bytes alone.
abbrev pub Padded : ℕ → ℕ → ℕ → ℕ → List ℕ → Option (ℕ × List ℕ) → Type 0
Padded n i len k ap none = annotation_max + 2 ≤ k + i + n + n
Padded n i len k ap (some (k', ap')) =
    (k' ≡ k + n) × (0 < n → k' ≤ annotation_max) × (take len ap' ≡ take len ap)

pub pad_loop-Padded :
    (n i k len : ℕ) (ap : List ℕ) → len ≤ k → Padded n i len k ap (pad_loop n i k ap)
unfolding pad_loop
pad_loop-Padded zero i k len ap h = (omega arith, λ p. absurd (omega (arith, p)), refl)
pad_loop-Padded (suc n) i k len ap h = elim (Bool-cases (ltb (k + i) annotation_max)) [
  | inl e ↦ rw e (
      elim (pad_loop n (i + 1) (k + 1) (set ap (k + i) 0))
          as (λ x.
            Padded n (i + 1) len (k + 1) (set ap (k + i) 0) x → Padded (suc n) i len k ap x) [
              | none ↦ λ p. omega (arith, p)
              | some (k', ap') ↦ λ p. (
                omega (arith, p.0),
                λ _. ground (arith, p.0, p.1, e),
                p.2 ∙ take-set_behind len (k + i) 0 ap (omega (arith, h)),
              )
            ]
        (pad_loop-Padded n (i + 1) (k + 1) len (set ap (k + i) 0) (omega (arith, h))))
  | inr e ↦ rw e (ground (arith, e))
]
