-- ===== src/Printer/Types/Paths/Chains.antt =====
-- What a path of conversions is.
use mathlib.Core.Option.{Option, none, some}
use mathlib.Core.Path.{subst}
use audible.Base.{
  ℕ, zero, suc, ◌-◌, ◌≤◌, ◌<◌, ◌≡◌, refl, sym, ◌⊎◌, inl, inr, Bool-cases, true, ◌||◌, List, [], ◌∷◌,
  ◌==◌, if◌then◌else◌, length, arith,
}
use audible.Printer.Types.{
  Conversion, FileType, same_string, get_type, find_conversion, get_conversion,
}
use audible.Printer.Types.Paths.{
  Search, is_empty_table, try_each, or_else, path_search, get_conversion_path,
}

-- A conversion of the table of a type.
abbrev pub IsListed : Conversion → List Conversion → Type 0
IsListed c [] = ⊥
IsListed c (d ∷ table) = (c ≡ d) ⊎ IsListed c table

abbrev pub IsOffered : Conversion → Option FileType → Type 0
IsOffered c none = ⊥
IsOffered c (some t) = IsListed c t.conversions

-- Conversions that lead from a type to another, each offered by the type that the one before leads to.
abbrev pub IsPath : List FileType → List ℕ → List ℕ → List Conversion → Type 0
IsPath types file target [] = ⊥
IsPath types file target (c ∷ []) =
    IsOffered c (get_type file types) × (same_string target c.type ≡ true)
IsPath types file target (c ∷ d ∷ path) =
    IsOffered c (get_type file types) × IsPath types c.type target (d ∷ path)

-- A path that is found leads to the target in at most so many conversions.
abbrev pub IsSound : List FileType → List ℕ → List ℕ → ℕ → Search → Type 0
IsSound types file target loops (Search.found path) =
    IsPath types file target path × (length path ≤ loops)
IsSound types file target loops Search.not_found = Unit
IsSound types file target loops Search.fault = Unit

-- The conversion that a look-up finds.
abbrev pub IsFor : List ℕ → List Conversion → Option Conversion → Type 0
IsFor target table none = Unit
IsFor target table (some c) = IsListed c table × (same_string target c.type ≡ true)

IsFor-cons :
    (target : List ℕ) (d : Conversion) (table : List Conversion) (r : Option Conversion)
    → IsFor target table r
    → IsFor target (d ∷ table) r
IsFor-cons target d table none h = tt
IsFor-cons target d table (some c) h = (inr h.0, h.1)

find_conversion-IsFor :
    (target : List ℕ) (table : List Conversion) → IsFor target table (find_conversion target table)
unfolding find_conversion
find_conversion-IsFor target [] = tt
find_conversion-IsFor target (d ∷ table) = elim (Bool-cases (same_string target d.type)) [
  | inl e ↦ rw e (inl refl, e)
  | inr e ↦ rw e (
      IsFor-cons target d table (find_conversion target table) (find_conversion-IsFor target table))
]

-- A longer way round.
IsPath-cons :
    (types : List FileType) (file target : List ℕ) (c : Conversion) (path : List Conversion)
    → IsOffered c (get_type file types)
    → IsPath types c.type target path
    → IsPath types file target (c ∷ path)
IsPath-cons types file target c [] offered h = absurd h
IsPath-cons types file target c (d ∷ path) offered h = (offered, h)

IsPath-length :
    (types : List FileType) (file target : List ℕ) (path : List Conversion)
    → IsPath types file target path
    → 0 < length path
IsPath-length types file target [] h = absurd h
IsPath-length types file target (c ∷ path) h = omega arith

-- One turn of the loop over the table of `file`.
turn-IsSound :
    (types : List FileType) (file target : List ℕ) (loops : ℕ) (c : Conversion) (r rest : Search)
    → IsOffered c (get_type file types)
    → IsSound types c.type target (loops - 1) r
    → IsSound types file target loops rest
    → IsSound types file target loops (elim r [
      | Search.found path ↦ Search.found (c ∷ path)
      | Search.not_found ↦ rest
      | Search.fault ↦ Search.fault
    ])
turn-IsSound types file target loops c (Search.found path) rest offered h k = (
  IsPath-cons types file target c path offered h.0,
  omega (arith, h.1, IsPath-length types c.type target path h.0),
)
turn-IsSound types file target loops c Search.not_found rest offered h k = k
turn-IsSound types file target loops c Search.fault rest offered h k = tt

longer :
    (types : List FileType) (file target : List ℕ) (loops : ℕ) (r : Search)
    → IsSound types file target (loops - 1) r
    → IsSound types file target loops r
longer types file target loops (Search.found path) h = (h.0, omega (arith, h.1))
longer types file target loops Search.not_found h = tt
longer types file target loops Search.fault h = tt

try_each-IsSound :
    (types : List FileType) (file target : List ℕ) (search : ℕ → List ℕ → Search)
    → ((n : ℕ) (next : List ℕ) → IsSound types next target n (search n next))
    → (loops : ℕ) (table : List Conversion)
    → ((c : Conversion) → IsListed c table → IsOffered c (get_type file types))
    → IsSound types file target loops (try_each search loops table)
unfolding try_each
try_each-IsSound types file target search sound loops [] part = tt
try_each-IsSound types file target search sound loops (c ∷ table) part =
    turn-IsSound types file target loops c (search (loops - 1) c.type)
      (try_each search (loops - 1) table) (part c (inl refl)) (sound (loops - 1) c.type)
      (longer types file target loops _
        (try_each-IsSound types file target search sound (loops - 1) table (λ d h. part d (inr h))))

or_else-IsSound :
    (types : List FileType) (file target : List ℕ) (loops : ℕ) (r : Option Conversion)
    (t : FileType) (others : Search)
    → get_type file types ≡ some t
    → IsFor target t.conversions r
    → 0 < loops
    → IsSound types file target loops others
    → IsSound types file target loops (or_else r others)
or_else-IsSound types file target loops none t others here h pos k = k
or_else-IsSound types file target loops (some c) t others here h pos k =
    ((subst (IsOffered c) (sym here) h.0, h.1), omega arith)

get_conversion-IsFor :
    (types : List FileType) (file target : List ℕ) (t : FileType)
    → get_type file types ≡ some t
    → IsFor target t.conversions (get_conversion file target types)
unfolding get_conversion
get_conversion-IsFor types file target t here =
    subst
      (λ x. IsFor target t.conversions (elim x as (λ _. Option Conversion) [
        | none ↦ none
        | some t' ↦ find_conversion target t'.conversions
      ]))
      (sym here) (find_conversion-IsFor target t.conversions)

-- A step for a type `t` that is there.
type-IsSound :
    (fuel : ℕ) (types : List FileType) (target : List ℕ) (loops : ℕ) (file : List ℕ) (t : FileType)
    → get_type file types ≡ some t
    → ((n : ℕ) (next : List ℕ) → IsSound types next target n (path_search fuel types target n next))
    → IsSound types file target loops (
        if is_empty_table t.conversions || same_string file target || loops == 0
        then Search.not_found
        else or_else
            (get_conversion file target types)
            (try_each (path_search fuel types target) loops t.conversions))
type-IsSound fuel types target loops file t here sound =
    elim (Bool-cases (is_empty_table t.conversions || same_string file target || loops == 0)) [
      | inl e ↦ rw e tt
      | inr e ↦ rw e (
          or_else-IsSound types file target loops (get_conversion file target types) t
            (try_each (path_search fuel types target) loops t.conversions) here
            (get_conversion-IsFor types file target t here) (ground (arith, e))
            (try_each-IsSound types file target (path_search fuel types target) sound loops
              t.conversions (λ c h. subst (IsOffered c) (sym here) h)))
    ]

path_search-IsSound :
    (fuel : ℕ) (types : List FileType) (target : List ℕ) (loops : ℕ) (file : List ℕ)
    → IsSound types file target loops (path_search fuel types target loops file)
unfolding path_search
path_search-IsSound zero types target loops file =
    elim (get_type file types)
      as (λ x.
        IsSound types file target loops
          (elim x as (λ _. Search) [ none ↦ Search.fault | some t ↦ Search.not_found ])) [
            | none ↦ tt
            | some t ↦ tt
          ]
path_search-IsSound (suc fuel) types target loops file =
    elim (get_type file types)
        as (λ x.
          get_type file types ≡ x
          → IsSound types file target loops (elim x as (λ _. Search) [
            | none ↦ Search.fault
            | some t ↦
                if is_empty_table t.conversions || same_string file target || loops == 0
                then Search.not_found
                else or_else (get_conversion file target types)
                    (try_each (path_search fuel types target) loops t.conversions)
          ])) [
            | none ↦ λ _. tt
            | some t ↦ λ here.
                type-IsSound fuel types target loops file t here
                  (λ n next. path_search-IsSound fuel types target n next)
          ]
      refl

-- A path that `getConversionPath` finds leads from the type of the file to that of the printer, through
-- conversions that the types offer, and is no longer than the bound that it is called with.
pub get_conversion_path-IsSound :
    (types : List FileType) (file target : List ℕ) (loops : ℕ)
    → IsSound types file target loops (get_conversion_path types file target loops)
unfolding get_conversion_path
get_conversion_path-IsSound types file target loops =
    path_search-IsSound loops types target loops file
