-- ===== src/Audio/Stream/Bytes.antt =====
-- The big-endian bytes of a word, and the word that a list of bytes stands for.
use audible.Base.{
  ℕ, zero, suc, ◌+◌, ◌*◌, ◌/◌, ◌%◌, ◌^◌, ◌<◌, ◌≡◌, refl, List, [], ◌∷◌, arith, length,
}

-- The `n` low bytes of `v`, the highest first.
abbrev pub be_bytes : ℕ → ℕ → List ℕ
be_bytes zero v = []
be_bytes (suc n) v = v / 2 ^ (8 * n) % 256 ∷ be_bytes n v

-- What the bytes stand for, behind the digits `v` that stand in front of them.
abbrev pub be_value : ℕ → List ℕ → ℕ
be_value v [] = v
be_value v (c ∷ s) = be_value (v * 256 + c) s

abbrev pub IsBytes : List ℕ → Type 0
IsBytes [] = Unit
IsBytes (c ∷ s) = (c < 256) × IsBytes s

pub length-be_bytes : (n v : ℕ) → length (be_bytes n v) ≡ n
length-be_bytes zero v = refl
length-be_bytes (suc n) v = omega (arith, length-be_bytes n v)

pub be_bytes-IsBytes : (n v : ℕ) → IsBytes (be_bytes n v)
be_bytes-IsBytes zero v = tt
be_bytes-IsBytes (suc n) v = (omega arith, be_bytes-IsBytes n v)
