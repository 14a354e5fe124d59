-- ===== src/Printer/Words.antt =====
-- The words of a command line, as `strtok` and `atoi` give them to Printer/src/main.c, `getPrinterSet` of
-- Printer/src/printers.c and `getConversionArgs` of Printer/src/conversions.c.
--
-- A string is the list of its characters; the pointer that `strtok` keeps is the rest of the string.
-- Every set of delimiters in the program is a single character.
pub mod Tokens
pub mod Sets
use mathlib.Core.Option.{Option, none, some}
use audible.Base.{
  ℕ, zero, suc, ◌+◌, ◌-◌, ◌*◌, ◌^◌, Bool, true, false, ◌&&◌, ◌||◌, List, [], ◌∷◌, leb, ltb, ◌==◌,
  if◌then◌else◌, length, u32, bit_or,
}
use audible.Printer.Types.{Conversion}
use audible.Printer.Printers.{Printer, get_printer}

abbrev pub space : ℕ
space = 32

abbrev pub newline : ℕ
newline = 10

abbrev pub full_stop : ℕ
full_stop = 46

-- The string without the delimiters in front.
unfoldable pub skip : ℕ → List ℕ → List ℕ
skip d [] = []
skip d (c ∷ s) = if c == d then skip d s else c ∷ s

-- The characters in front of the next delimiter, and those behind it.
unfoldable pub before : ℕ → List ℕ → List ℕ
before d [] = []
before d (c ∷ s) = if c == d then [] else c ∷ before d s

unfoldable pub behind : ℕ → List ℕ → List ℕ
behind d [] = []
behind d (c ∷ s) = if c == d then s else behind d s

abbrev pub split_at : ℕ → List ℕ → Option (List ℕ) × List ℕ
split_at d [] = (none, [])
split_at d (c ∷ s) = (some (before d (c ∷ s)), behind d (c ∷ s))

-- `strtok(s, d)`: the token, if there is one, and the string that `strtok(NULL, ...)` goes on with.
unfoldable pub strtok : ℕ → List ℕ → Option (List ℕ) × List ℕ
strtok d s = split_at d (skip d s)

abbrev pub go_on : (List ℕ → List (List ℕ)) → Option (List ℕ) × List ℕ → List (List ℕ)
go_on more (none, rest) = []
go_on more (some token, rest) = token ∷ more rest

-- The tokens that a loop over `strtok` sees, with fuel.
unfoldable pub tokens : ℕ → ℕ → List ℕ → List (List ℕ)
tokens zero d s = []
tokens (suc fuel) d s = go_on (tokens fuel d) (strtok d s)

-- A token has a character at least.
unfoldable pub all_tokens : ℕ → List ℕ → List (List ℕ)
all_tokens d s = tokens (length s) d s

-- `getConversionArgs(conversion)`, in front of the null.
pub get_conversion_args : Conversion → List (List ℕ)
get_conversion_args conversion = elim conversion.args [
  | none ↦ conversion.program ∷ []
  | some args ↦ conversion.program ∷ all_tokens space args
]

abbrev pub any_printer : ℕ
any_printer = 2 ^ 32 - 1

-- A turn of the loop of `getPrinterSet` for the printer found.
abbrev pub add_to_set : (ℕ → ℕ) → ℕ → Option Printer → ℕ
add_to_set more set none = 0
add_to_set more set (some printer) = more (bit_or set (2 ^ printer.id))

-- The loop of `getPrinterSet` over the names.
unfoldable pub set_loop : List Printer → List (List ℕ) → ℕ → ℕ
set_loop printers [] set = set
set_loop printers (name ∷ names) set =
    add_to_set (set_loop printers names) set (get_printer name printers)

-- `getPrinterSet(printers)`
unfoldable pub get_printer_set : Option (List ℕ) → List Printer → ℕ
get_printer_set none printers = any_printer
get_printer_set (some names) printers = set_loop printers (all_tokens space names) 0

-- `isspace` and `isdigit`.
abbrev is_white : ℕ → Bool
is_white c = c == 32 || (leb 9 c && leb c 13)

abbrev is_digit : ℕ → Bool
is_digit c = leb 48 c && leb c 57

pub skip_white : List ℕ → List ℕ
skip_white [] = []
skip_white (c ∷ s) = if is_white c then skip_white s else c ∷ s

-- The number that the digits in front make, after the value `n`.
pub digits : ℕ → List ℕ → ℕ
digits n [] = n
digits n (c ∷ s) = if is_digit c then digits (n * 10 + (c - 48)) s else n

-- A `long` stops at its bounds, and is cut off to an `int`.
abbrev cut : Bool → ℕ → ℕ
cut true n = u32 (2 ^ 64 - (if leb n (2 ^ 63) then n else 2 ^ 63))
cut false n = u32 (if ltb n (2 ^ 63) then n else 2 ^ 63 - 1)

pub signed_digits : List ℕ → ℕ
unfolding digits
signed_digits [] = 0
signed_digits (c ∷ s) =
    if c == 45
    then cut true (digits 0 s)
    else if c == 43
    then cut false (digits 0 s)
    else cut false (digits 0 (c ∷ s))

-- `atoi(s)`, an `int` by its 32 bits.
pub atoi : List ℕ → ℕ
unfolding signed_digits skip_white
atoi s = signed_digits (skip_white s)
