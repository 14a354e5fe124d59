-- ===== src/Audio/Args/Usage.antt =====
-- The command lines of the usage message in Audible/include/const.h, as a grammar, and the options
-- word that each one stands for.
use audible.Base.{ℕ, ◌-◌, ◌^◌, ◌≡◌, ◌≤◌, List, [], ◌∷◌, length}
use audible.Audio.Numerals.{
  char_to_int, hex_string_to_int, dec_value, hex_value, AreDigits, AreHexDigits,
}
use audible.Audio.Options.Fields.{word}
use audible.Audio.Args.{CString, flag, valid_factor_helper, valid_key_helper}

-- What may follow `-u` and `-d`: the bit of `-p`, and the factor field, 0x200 where none is given. A factor
-- `n` is one for which `IsFactor` holds, and stands for `factor_of n`.
pub data SpeedArgs (IsFactor : CString → Type 0) (factor_of : CString → ℕ) (rest : List CString)
    (p f : ℕ) : Type 0 where
  plain : rest ≡ [] → p ≡ 0 → f ≡ 0x200 → SpeedArgs IsFactor factor_of rest p f
  preserve : rest ≡ flag b'p' ∷ [] → p ≡ 1 → f ≡ 0x200 → SpeedArgs IsFactor factor_of rest p f
  factor :
      (n : CString)
      → IsFactor n
      → rest ≡ flag b'f' ∷ n ∷ []
      → p ≡ 0
      → f ≡ factor_of n - 1
      → SpeedArgs IsFactor factor_of rest p f
  preserve_factor :
      (n : CString)
      → IsFactor n
      → rest ≡ flag b'p' ∷ flag b'f' ∷ n ∷ []
      → p ≡ 1
      → f ≡ factor_of n - 1
      → SpeedArgs IsFactor factor_of rest p f
  factor_preserve :
      (n : CString)
      → IsFactor n
      → rest ≡ flag b'f' ∷ n ∷ flag b'p' ∷ []
      → p ≡ 1
      → f ≡ factor_of n - 1
      → SpeedArgs IsFactor factor_of rest p f

-- What follows `-c`: a key, and perhaps `-p` on either side of it.
pub data CryptArgs (IsKey : CString → Type 0) (key_of : CString → ℕ) (rest : List CString) (p k : ℕ)
    : Type 0 where
  key :
      (s : CString)
      → IsKey s
      → rest ≡ flag b'k' ∷ s ∷ []
      → p ≡ 0
      → k ≡ key_of s
      → CryptArgs IsKey key_of rest p k
  preserve_key :
      (s : CString)
      → IsKey s
      → rest ≡ flag b'p' ∷ flag b'k' ∷ s ∷ []
      → p ≡ 1
      → k ≡ key_of s
      → CryptArgs IsKey key_of rest p k
  key_preserve :
      (s : CString)
      → IsKey s
      → rest ≡ flag b'k' ∷ s ∷ flag b'p' ∷ []
      → p ≡ 1
      → k ≡ key_of s
      → CryptArgs IsKey key_of rest p k

-- A command line, with the options word that it stands for.
pub data CommandLine (IsFactor IsKey : CString → Type 0) (factor_of key_of : CString → ℕ)
    (argv : List CString) (options : ℕ) : Type 0 where
  help :
      (prog : CString) (rest : List CString)
      → argv ≡ prog ∷ flag b'h' ∷ rest
      → options ≡ 2 ^ 63
      → CommandLine IsFactor IsKey factor_of key_of argv options
  speed_up :
      (prog : CString) (rest : List CString) (p f : ℕ)
      → SpeedArgs IsFactor factor_of rest p f
      → argv ≡ prog ∷ flag b'u' ∷ rest
      → options ≡ word 4 p f 0
      → CommandLine IsFactor IsKey factor_of key_of argv options
  slow_down :
      (prog : CString) (rest : List CString) (p f : ℕ)
      → SpeedArgs IsFactor factor_of rest p f
      → argv ≡ prog ∷ flag b'd' ∷ rest
      → options ≡ word 2 p f 0
      → CommandLine IsFactor IsKey factor_of key_of argv options
  crypt :
      (prog : CString) (rest : List CString) (p k : ℕ)
      → CryptArgs IsKey key_of rest p k
      → argv ≡ prog ∷ flag b'c' ∷ rest
      → options ≡ word 1 p 0 k
      → CommandLine IsFactor IsKey factor_of key_of argv options

-- A factor of the usage message: a decimal number in the range from 1 to 1024.
abbrev pub IsFactor : CString → Type 0
IsFactor n = AreDigits n × (1 ≤ dec_value 0 n) × (dec_value 0 n ≤ 1024)

-- A key of the usage message: a hexadecimal number with at most eight digits.
abbrev pub IsKey : CString → Type 0
IsKey s = AreHexDigits s × (1 ≤ length s) × (length s ≤ 8)

-- The command lines of the usage message.
abbrev pub Usage : List CString → ℕ → Type 0
Usage = CommandLine IsFactor IsKey (dec_value 0) (hex_value 0)

-- The same forms with the code's own tests and values for factors and keys.
abbrev pub CodeSpeedArgs : List CString → ℕ → ℕ → Type 0
CodeSpeedArgs = SpeedArgs (λ n. valid_factor_helper n ≡ 1) char_to_int

abbrev pub CodeCryptArgs : List CString → ℕ → ℕ → Type 0
CodeCryptArgs = CryptArgs (λ s. valid_key_helper s ≡ 1) hex_string_to_int

abbrev pub CodeUsage : List CString → ℕ → Type 0
CodeUsage =
    CommandLine (λ n. valid_factor_helper n ≡ 1) (λ s. valid_key_helper s ≡ 1) char_to_int
      hex_string_to_int
