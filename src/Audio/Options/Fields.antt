-- ===== src/Audio/Options/Fields.antt =====
-- The fields of the options word: what is recorded is what is read back.
use audible.Base.{ℕ, ◌+◌, ◌-◌, ◌*◌, ◌/◌, ◌%◌, ◌^◌, ◌<◌, ◌≡◌, arith, ◌==◌, if◌then◌else◌}
use audible.Base.Bits.{and_mask}
use audible.Audio.Options.{
  is_speed_up, is_slow_down, is_crypt, is_preserve, get_factor, get_key, get_arg_c,
}

-- An options word by its fields: the mode bit `m` (4 for `-u`, 2 for `-d`, 1 for `-c`), the bit
-- of `-p`, the 11 bits of the factor and the key.
abbrev pub word : ℕ → ℕ → ℕ → ℕ → ℕ
word m p f k = m * 2 ^ 60 + p * 2 ^ 59 + f * 2 ^ 48 + k

module _ (m p f k : ℕ) (hm : m < 8) (hp : p < 2) (hf : f < 2 ^ 11) (hk : k < 2 ^ 32) where
  pub is_speed_up-word : is_speed_up (word m p f k) ≡ m / 4
  unfolding is_speed_up
  is_speed_up-word = omega (arith, and_mask 1 (word m p f k / 2 ^ 62))

  pub is_slow_down-word : is_slow_down (word m p f k) ≡ m / 2 % 2
  unfolding is_slow_down
  is_slow_down-word = omega (arith, and_mask 1 (word m p f k / 2 ^ 61))

  pub is_crypt-word : is_crypt (word m p f k) ≡ m % 2
  unfolding is_crypt
  is_crypt-word = omega (arith, and_mask 1 (word m p f k / 2 ^ 60))

  pub is_preserve-word : is_preserve (word m p f k) ≡ p
  unfolding is_preserve
  is_preserve-word = omega (arith, and_mask 1 (word m p f k / 2 ^ 59))

  pub get_key-word : get_key (word m p f k) ≡ k
  unfolding get_key
  get_key-word = omega (arith, and_mask 32 (word m p f k))

  -- `getFactor` is one more than the factor field, but -1 where bit 9 of the field is set; the other
  -- fields do not matter.
  pub get_factor-word :
      get_factor (word m p f k) ≡ (if f / 2 ^ 9 % 2 == 1 then 2 ^ 32 - 1 else f + 1)
  unfolding get_factor
  get_factor-word =
      ground (arith, and_mask 1 (word m p f k / 2 ^ 57), and_mask 11 (word m p f k / 2 ^ 48))

-- `getArgC` counts a `-f` or `-k` with its value on every command line: `getFactor` is never 0.
pub get_arg_c-word :
    (m p f k : ℕ)
    → m < 8
    → 0 < m
    → p < 2
    → f < 2 ^ 11
    → k < 2 ^ 32
    → get_arg_c (word m p f k) ≡ 4 + p
unfolding get_arg_c
get_arg_c-word m p f k hm pos hp hf hk = ground (
  arith,
  is_speed_up-word m p f k hm hp hf hk,
  is_slow_down-word m p f k hm hp hf hk,
  is_crypt-word m p f k hm hp hf hk,
  is_preserve-word m p f k hm hp hf hk,
  get_factor-word m p f k hm hp hf hk,
)
