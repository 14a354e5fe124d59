-- ===== src/Printer/Words/Tokens.antt =====
-- The tokens of a string are the words that it was put together from.
use mathlib.Core.Option.{some}
use audible.Base.{
  ℕ, zero, suc, ◌≤◌, ◌≡◌, ◌≢◌, refl, ◌∙◌, ap, List, [], ◌∷◌, ◌==◌, length, arith, true, false,
}
use audible.Printer.Types.{Conversion}
use audible.Printer.Words.{
  skip, before, behind, split_at, strtok, go_on, tokens, all_tokens, space, get_conversion_args,
}

-- A character at least, and no delimiter.
abbrev pub IsFree : ℕ → List ℕ → Type 0
IsFree d [] = Unit
IsFree d (c ∷ s) = (c ≢ d) × IsFree d s

abbrev pub IsWord : ℕ → List ℕ → Type 0
IsWord d [] = ⊥
IsWord d (c ∷ s) = (c ≢ d) × IsFree d s

abbrev pub AreWords : ℕ → List (ℕ × List ℕ) → Type 0
AreWords d [] = Unit
AreWords d (word ∷ words) = IsWord d word.1 × AreWords d words

-- A string with so many delimiters in front.
abbrev pub padded : ℕ → ℕ → List ℕ → List ℕ
padded d zero s = s
padded d (suc n) s = d ∷ padded d n s

abbrev pub join : List ℕ → List ℕ → List ℕ
join [] s = s
join (c ∷ w) s = c ∷ join w s

-- Words, each with its delimiters in front beside the one that it needs, and the delimiters at the end.
abbrev pub spaced : ℕ → ℕ → List (ℕ × List ℕ) → List ℕ
spaced d trailing [] = padded d trailing []
spaced d trailing (word ∷ words) = padded d (suc word.0) (join word.1 (spaced d trailing words))

abbrev pub second : List (ℕ × List ℕ) → List (List ℕ)
second [] = []
second (word ∷ words) = word.1 ∷ second words

-- A string that is empty or starts with a delimiter.
abbrev Stops : ℕ → List ℕ → Type 0
Stops d [] = Unit
Stops d (c ∷ s) = c ≡ d

-- The string behind its first character.
abbrev tail : List ℕ → List ℕ
tail [] = []
tail (c ∷ s) = s

spaced-Stops : (d trailing : ℕ) (words : List (ℕ × List ℕ)) → Stops d (spaced d trailing words)
spaced-Stops d zero [] = tt
spaced-Stops d (suc trailing) [] = refl
spaced-Stops d trailing (word ∷ words) = refl

before-join : (d : ℕ) (w s : List ℕ) → IsFree d w → Stops d s → before d (join w s) ≡ w
unfolding before
before-join d [] [] h stops = refl
before-join d [] (c ∷ s) h stops = let e : (c == d) ≡ true = ground (arith, stops) in rw e refl
before-join d (c ∷ w) s h stops =
    let e : (c == d) ≡ false = ground (arith, h.0) in
    rw e (ap (λ l. c ∷ l) (before-join d w s h.1 stops))

behind-join : (d : ℕ) (w s : List ℕ) → IsFree d w → Stops d s → behind d (join w s) ≡ tail s
unfolding behind
behind-join d [] [] h stops = refl
behind-join d [] (c ∷ s) h stops = let e : (c == d) ≡ true = ground (arith, stops) in rw e refl
behind-join d (c ∷ w) s h stops =
    let e : (c == d) ≡ false = ground (arith, h.0) in rw e (behind-join d w s h.1 stops)

skip-padded : (d n : ℕ) (s : List ℕ) → skip d (padded d n s) ≡ skip d s
unfolding skip
skip-padded d zero s = refl
skip-padded d (suc n) s = let e : (d == d) ≡ true = ground arith in rw e (skip-padded d n s)

-- What `strtok` gives for a word with delimiters in front.
pub strtok-word :
    (d n : ℕ) (w s : List ℕ)
    → IsWord d w
    → Stops d s
    → strtok d (padded d n (join w s)) ≡ (some w, tail s)
unfolding strtok skip
strtok-word d n [] s h stops = absurd h
strtok-word d n (c ∷ w) s h stops =
    let e : (c == d) ≡ false = ground (arith, h.0) in
    let front : skip d (padded d n (join (c ∷ w) s)) ≡ c ∷ join w s =
      skip-padded d n (join (c ∷ w) s) ∙ rw e refl in
    rw (front, before-join d (c ∷ w) s h stops, behind-join d (c ∷ w) s h stops) refl

tokens-padding : (fuel d k : ℕ) → tokens fuel d (padded d k []) ≡ []
unfolding tokens strtok skip
tokens-padding zero d k = refl
tokens-padding (suc fuel) d k = ap (λ s. go_on (tokens fuel d) (split_at d s)) (skip-padded d k [])

abbrev count : List (ℕ × List ℕ) → ℕ
count [] = 0
count (word ∷ words) = suc (count words)

-- As much fuel as there are words is enough.
tokens-tail :
    (fuel d trailing : ℕ) (words : List (ℕ × List ℕ))
    → AreWords d words
    → count words ≤ fuel
    → tokens fuel d (tail (spaced d trailing words)) ≡ second words
unfolding tokens
tokens-tail fuel d zero [] h enough = tokens-padding fuel d 0
tokens-tail fuel d (suc trailing) [] h enough = tokens-padding fuel d trailing
tokens-tail zero d trailing (word ∷ words) h enough = absurd (omega (arith, enough))
tokens-tail (suc fuel) d trailing (word ∷ words) h enough =
    let first =
      strtok-word d word.0 word.1 (spaced d trailing words) h.0 (spaced-Stops d trailing words) in
    let rest = tokens-tail fuel d trailing words h.1 (omega (arith, enough)) in
    ap (go_on (tokens fuel d)) first ∙ ap (λ l. word.1 ∷ l) rest

length-padded : (d n : ℕ) (s : List ℕ) → length s ≤ length (padded d n s)
length-padded d zero s = omega arith
length-padded d (suc n) s = omega (arith, length-padded d n s)

length-join : (d : ℕ) (w s : List ℕ) → IsWord d w → suc (length s) ≤ length (join w s)
length-join d [] s h = absurd h
length-join d (c ∷ w) s h = omega (arith, longer w)
  where
    longer : (w : List ℕ) → length s ≤ length (join w s)
    longer [] = omega arith
    longer (c ∷ w) = omega (arith, longer w)

count-length :
    (d trailing : ℕ) (words : List (ℕ × List ℕ))
    → AreWords d words
    → count words ≤ length (tail (spaced d trailing words))
count-length d trailing [] h = omega arith
count-length d trailing (word ∷ words) h =
    let rest = spaced d trailing words in
    omega (
      arith,
      count-length d trailing words h.1,
      length-padded d word.0 (join word.1 rest),
      length-join d word.1 rest h.0,
      shorter rest,
    )
  where
    shorter : (s : List ℕ) → length (tail s) ≤ length s
    shorter [] = omega arith
    shorter (c ∷ s) = omega arith

-- A loop over `strtok` sees the words of every string that starts with a word or a delimiter and in which
-- the words stand apart.
pub all_tokens-spaced :
    (d n trailing : ℕ) (w : List ℕ) (words : List (ℕ × List ℕ))
    → IsWord d w
    → AreWords d words
    → all_tokens d (padded d n (join w (spaced d trailing words))) ≡ w ∷ second words
unfolding all_tokens
all_tokens-spaced d n trailing w words hw h =
    let string = padded d n (join w (spaced d trailing words)) in
    tokens-tail (length string) d trailing ((n, w) ∷ words) (hw, h)
      (count-length d trailing ((n, w) ∷ words) (hw, h))

-- The vector of arguments that `getConversionArgs` builds for a conversion program is the name of the
-- program and then the words of the argument string, where each word has a character at least and none
-- is a space, and any number of further spaces stands around the words.
pub get_conversion_args-spaced :
    (conversion : Conversion) (n trailing : ℕ) (w : List ℕ) (words : List (ℕ × List ℕ))
    → IsWord space w
    → AreWords space words
    → conversion.args ≡ some (padded space n (join w (spaced space trailing words)))
    → get_conversion_args conversion ≡ conversion.program ∷ w ∷ second words
unfolding get_conversion_args
get_conversion_args-spaced conversion n trailing w words hw h e =
    rw (e, all_tokens-spaced space n trailing w words hw h) refl
