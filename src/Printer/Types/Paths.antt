-- ===== src/Printer/Types/Paths.antt =====
-- The search for conversions of Printer/src/conversions.c.
--
-- `loops` counts down to 0 and the code treats what is below alike, so it stops there; the fuel is `loops`
-- at the start, and every call inside has less of both.
pub mod Chains
pub mod Faults
use mathlib.Core.Option.{Option, none, some}
use audible.Base.{
  ℕ, zero, suc, ◌+◌, ◌-◌, ◌≡◌, Bool, true, false, ◌||◌, List, [], ◌∷◌, ◌==◌, if◌then◌else◌,
}
use audible.Printer.Types.{Conversion, FileType, same_string, get_type, get_conversion}

-- A path, NULL, or a type that is not there.
pub data Search : Type 0 where
  found : List Conversion → Search
  not_found : Search
  fault : Search

abbrev pub is_empty_table : List Conversion → Bool
is_empty_table [] = true
is_empty_table (c ∷ table) = false

-- The loop over the table of a type, with the search from the next type.
unfoldable pub try_each : (ℕ → List ℕ → Search) → ℕ → List Conversion → Search
try_each search loops [] = Search.not_found
try_each search loops (c ∷ table) =
    let rest = try_each search (loops - 1) table in
    elim (search (loops - 1) c.type) [
      | Search.found path ↦ Search.found (c ∷ path)
      | Search.not_found ↦ rest
      | Search.fault ↦ Search.fault
    ]

-- What follows the tests of `getConversionPath`.
abbrev pub or_else : Option Conversion → Search → Search
or_else none others = others
or_else (some c) others = Search.found (c ∷ [])

-- `getConversionPath(fileType, printerType, loops)` with its fuel.
unfoldable pub path_search : ℕ → List FileType → List ℕ → ℕ → List ℕ → Search
path_search zero types target loops file = elim (get_type file types) [
  | none ↦ Search.fault
  | some t ↦ Search.not_found
]
path_search (suc fuel) types target loops file =
    let others = try_each (path_search fuel types target) loops in
    elim (get_type file types) [
      | none ↦ Search.fault
      | some t ↦
          if is_empty_table t.conversions || same_string file target || loops == 0
          then Search.not_found
          else or_else (get_conversion file target types) (others t.conversions)
    ]

unfoldable pub get_conversion_path : List FileType → List ℕ → List ℕ → ℕ → Search
get_conversion_path types file target loops = path_search loops types target loops file
