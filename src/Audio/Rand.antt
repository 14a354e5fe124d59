-- ===== src/Audio/Rand.antt =====
-- The pseudorandom numbers of Audible/src/myrand.c. The static `next` is the state.
use native.Mathlib.Nat.{zero-add}
use audible.Base.{
  ℕ, zero, suc, ◌+◌, ◌*◌, ◌/◌, ◌%◌, ◌^◌, ◌<◌, ◌≡◌, refl, ◌∙◌, ap, arith, u32, u64, ◌<<<◌, ◌>>>◌,
  bit_and, bit_or,
}
use audible.Base.Bits.{or-shifted, and_mask}

-- The new state.
abbrev pub advance : ℕ → ℕ
advance next = u64 (next * 1103515245 + 12345)

-- `myrand()` returns this number of the new state.
pub myrand : ℕ → ℕ
myrand next = u32 (next / 65536) % 32768

-- `mysrand(seed)`: the state that it leaves.
pub mysrand : ℕ → ℕ
mysrand seed = u32 seed

rand_loop : ℕ → ℕ → ℕ → ℕ × ℕ
rand_loop zero r next = (r, next)
rand_loop (suc n) r next =
    let next' = advance next in
    rand_loop n (bit_or (u32 (r <<< 8)) (bit_and (myrand next') 0x7fff >>> 7)) next'

-- `myrand32()`, with the state that it leaves.
pub myrand32 : ℕ → ℕ × ℕ
unfolding rand_loop
myrand32 next = rand_loop 4 0 next

-- The eight bits that one round contributes.
abbrev pub rand_byte : ℕ → ℕ
rand_byte next = next / 2 ^ 23 % 256

rand_byte_lem : (next : ℕ) → bit_and (myrand next) 0x7fff >>> 7 ≡ rand_byte next
unfolding myrand
rand_byte_lem next = omega (arith, and_mask 15 (u32 (next / 65536) % 32768))

rand_step :
    (n r next : ℕ)
    → r < 2 ^ 24
    → rand_loop (suc n) r next ≡ rand_loop n (r * 256 + rand_byte (advance next)) (advance next)
unfolding rand_loop
rand_step n r next hr =
    ground (arith, rand_byte_lem (advance next), or-shifted 8 r (rand_byte (advance next)))

pub rand_four : ℕ → ℕ → ℕ → ℕ → ℕ
rand_four a b c d = ((rand_byte a * 256 + rand_byte b) * 256 + rand_byte c) * 256 + rand_byte d

-- `myrand32` is made of the bits 23 to 30 of four successive states, the first state on top, so it
-- ranges over all 32 bits.
pub myrand32_lem :
    (s a b c d : ℕ)
    → a ≡ advance s
    → b ≡ advance a
    → c ≡ advance b
    → d ≡ advance c
    → (myrand32 s ≡ (rand_four a b c d, d)) × (rand_four a b c d < 2 ^ 32)
unfolding myrand32 rand_four
myrand32_lem s a b c d ea eb ec ed = (
  rw (ed, ec, eb, ea, ← zero-add (rand_byte (advance s)))
      (rand_step 3 0 s (omega arith)
        ∙ rand_step 2 _ _ (omega arith)
        ∙ rand_step 1 _ _ (omega arith)
        ∙ rand_step 0 _ _ (omega arith)),
  omega arith,
)

pub myrand32-lt : (s : ℕ) → (myrand32 s).0 < 2 ^ 32
myrand32-lt s =
    let number = myrand32_lem s _ _ _ _ refl refl refl refl in
    omega (arith, ap (λ (r : ℕ × ℕ). r.0) number.0, number.1)
