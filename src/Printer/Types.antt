-- ===== src/Printer/Types.antt =====
-- File types and conversions: Printer/src/types.c and the table of Printer/src/conversions.c.
--
-- An array of pointers is the list of its entries in front of the first null. Allocation succeeds, and
-- what is printed is left out.
pub mod Paths
pub mod Closed
use mathlib.Core.Option.{Option, none, some}
use audible.Base.{ℕ, Bool, true, false, ◌&&◌, List, [], ◌∷◌, ◌++◌, leb, ◌==◌, if◌then◌else◌, length}

-- `strcmp` finds two strings equal.
unfoldable pub same_string : List ℕ → List ℕ → Bool
same_string [] [] = true
same_string [] (d ∷ t) = false
same_string (c ∷ s) [] = false
same_string (c ∷ s) (d ∷ t) = c == d && same_string s t

pub record Conversion : Type 0 where
  pub type : List ℕ
  pub program : List ℕ
  pub args : Option (List ℕ)

pub record FileType : Type 0 where
  pub type : List ℕ
  pub conversions : List Conversion

abbrev max_types : ℕ
max_types = 31

abbrev pub max_conversions : ℕ
max_conversions = 63

unfoldable pub get_type : List ℕ → List FileType → Option FileType
get_type name [] = none
get_type name (t ∷ types) = if same_string name t.type then some t else get_type name types

-- `addType(type)`; `index` counts the types.
unfoldable pub add_type : FileType → List FileType → List FileType
add_type t types = if leb max_types (length types) then types else types ++ t ∷ []

-- A name that is defined already is reported, and added again.
unfoldable pub new_extension : Option (List ℕ) → List FileType → List FileType
unfolding add_type
new_extension none types = types
new_extension (some name) types = add_type (record { type = name; conversions = [] }) types

pub find_conversion : List ℕ → List Conversion → Option Conversion
find_conversion name [] = none
find_conversion name (c ∷ conversions) =
    if same_string name c.type then some c else find_conversion name conversions

pub get_conversion : List ℕ → List ℕ → List FileType → Option Conversion
get_conversion type1 type2 types = elim (get_type type1 types) [
  | none ↦ none
  | some t ↦ find_conversion type2 t.conversions
]

-- `addConversion` on the type that `getType` finds.
pub add_conversion : List ℕ → Conversion → List FileType → List FileType
add_conversion name c [] = []
add_conversion name c (t ∷ types) =
    if same_string name t.type
    then if leb max_conversions (length t.conversions)
      then t ∷ types
      else record t { conversions = t.conversions ++ c ∷ [] } ∷ types
    else t ∷ add_conversion name c types

pub new_conversion : List ℕ → List ℕ → List ℕ → Option (List ℕ) → List FileType → List FileType
unfolding get_type get_conversion add_conversion
new_conversion type1 type2 program args types = elim (get_type type1 types) [
  | none ↦ types
  | some t1 ↦ elim (get_type type2 types) [
    | none ↦ types
    | some t2 ↦ elim (get_conversion type1 type2 types) [
      | some c ↦ types
      | none ↦ add_conversion type1 (record { type = type2; program = program; args = args }) types
    ]
  ]
]
