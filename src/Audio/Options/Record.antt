-- ===== src/Audio/Options/Record.antt =====
-- What the `…Record` functions add to an options word.
use audible.Base.{ℕ, ◌+◌, ◌-◌, ◌*◌, ◌^◌, ◌≤◌, ◌<◌, ◌≡◌, List, arith}
use audible.Base.Bits.{or-shifted}
use audible.Audio.Numerals.{char_to_int, hex_string_to_int}
use audible.Audio.Options.{preserve_record, factor_record, factor_record0, key_record}
use audible.Audio.Options.Fields.{word}

module _ (m : ℕ) (hm : m < 8) where
  pub preserve_record-word : preserve_record (word m 0 0 0) ≡ word m 1 0 0
  unfolding preserve_record
  preserve_record-word = ground (arith, or-shifted 60 m (2 ^ 59) (omega arith))

  module _ (p : ℕ) (hp : p < 2) where
    pub factor_record0-word : factor_record0 (word m p 0 0) ≡ word m p 0x200 0
    unfolding factor_record0
    factor_record0-word = ground (arith, or-shifted 59 (m * 2 + p) (0x200 * 2 ^ 48) (omega arith))

    pub factor_record-word :
        (n : List ℕ)
        → 1 ≤ char_to_int n
        → char_to_int n ≤ 1024
        → factor_record (word m p 0 0) n ≡ word m p (char_to_int n - 1) 0
    unfolding factor_record
    factor_record-word n lo hi =
        ground (arith, or-shifted 59 (m * 2 + p) ((char_to_int n - 1) * 2 ^ 48) (omega arith))

    pub key_record-word :
        (s : List ℕ)
        → hex_string_to_int s < 2 ^ 32
        → key_record (word m p 0 0) s ≡ word m p 0 (hex_string_to_int s)
    unfolding key_record
    key_record-word s hk =
        ground (arith, or-shifted 59 (m * 2 + p) (hex_string_to_int s) (omega arith))
