-- ===== src/Printer/Types/Paths/Faults.antt =====
-- The search for conversions reads no type that is missing.
use mathlib.Core.Option.{Option, none, some}
use mathlib.Core.Path.{subst}
use audible.Base.{
  ℕ, zero, suc, ◌-◌, ◌≡◌, ◌≢◌, refl, sym, inl, inr, Bool-cases, true, ◌||◌, List, [], ◌∷◌, ◌==◌,
  if◌then◌else◌, arith,
}
use audible.Printer.Types.{Conversion, FileType, same_string, get_type, get_conversion}
use audible.Printer.Types.Paths.{
  Search, is_empty_table, try_each, or_else, path_search, get_conversion_path,
}
use audible.Printer.Types.Paths.Chains.{IsListed, IsOffered}

-- Every type that a conversion leads to is defined.
abbrev pub AreDefined : List FileType → Type 0
AreDefined types =
    (file : List ℕ) (c : Conversion)
    → IsOffered c (get_type file types)
    → get_type c.type types ≢ none

try_each-no_fault :
    (types : List FileType) (search : ℕ → List ℕ → Search)
    → ((n : ℕ) (next : List ℕ) → get_type next types ≢ none → search n next ≢ Search.fault)
    → (loops : ℕ) (table : List Conversion)
    → ((c : Conversion) → IsListed c table → get_type c.type types ≢ none)
    → try_each search loops table ≢ Search.fault
unfolding try_each
try_each-no_fault types search no_fault loops [] part = λ e. cc e
try_each-no_fault types search no_fault loops (c ∷ table) part =
    elim (search (loops - 1) c.type)
        as (λ r.
          r ≢ Search.fault
          → (elim r as (λ _. Search) [
            | Search.found path ↦ Search.found (c ∷ path)
            | Search.not_found ↦ try_each search (loops - 1) table
            | Search.fault ↦ Search.fault
          ])
            ≢ Search.fault) [
              | Search.found path ↦ λ _ e. cc e
              | Search.not_found ↦ λ _.
                  try_each-no_fault types search no_fault (loops - 1) table (λ d h. part d (inr h))
              | Search.fault ↦ λ h. h
            ]
      (no_fault (loops - 1) c.type (part c (inl refl)))

or_else-no_fault :
    (r : Option Conversion) (others : Search)
    → others ≢ Search.fault
    → or_else r others ≢ Search.fault
or_else-no_fault none others h = h
or_else-no_fault (some c) others h = λ e. cc e

path_search-no_fault :
    (fuel : ℕ) (types : List FileType) (target : List ℕ)
    → AreDefined types
    → (loops : ℕ) (file : List ℕ) → get_type file types ≢ none
    → path_search fuel types target loops file ≢ Search.fault
unfolding path_search
path_search-no_fault zero types target defined loops file there =
    elim (get_type file types)
        as (λ x.
          x ≢ none
          → (elim x as (λ _. Search) [ none ↦ Search.fault | some t ↦ Search.not_found ])
            ≢ Search.fault) [ none ↦ λ h e. h refl | some t ↦ λ h e. cc e ]
      there
path_search-no_fault (suc fuel) types target defined loops file there =
    elim (get_type file types)
        as (λ x.
          get_type file types ≡ x
          → x ≢ none
          → (elim x as (λ _. Search) [
            | none ↦ Search.fault
            | some t ↦
                if is_empty_table t.conversions || same_string file target || loops == 0
                then Search.not_found
                else or_else (get_conversion file target types)
                    (try_each (path_search fuel types target) loops t.conversions)
          ])
            ≢ Search.fault) [
              | none ↦ λ here h e. h refl
              | some t ↦ λ here h.
                  elim (Bool-cases
                    (is_empty_table t.conversions || same_string file target || loops == 0)) [
                      | inl e ↦ rw e (λ e'. cc e')
                      | inr e ↦ rw e (
                          or_else-no_fault (get_conversion file target types) _ (
                            try_each-no_fault types (path_search fuel types target)
                              (λ n next. path_search-no_fault fuel types target defined n next)
                              loops t.conversions
                              (λ c listed. defined file c (subst (IsOffered c) (sym here) listed))))
                    ]
            ]
      refl there

-- The search reads no type that is missing, where the type of the file and all types that conversions
-- lead to are defined.
pub get_conversion_path-no_fault :
    (types : List FileType) (file target : List ℕ) (loops : ℕ)
    → AreDefined types
    → get_type file types ≢ none
    → get_conversion_path types file target loops ≢ Search.fault
unfolding get_conversion_path
get_conversion_path-no_fault types file target loops defined there =
    path_search-no_fault loops types target defined loops file there

pub same_string_self : (s : List ℕ) → same_string s s ≡ true
unfolding same_string
same_string_self [] = refl
same_string_self (c ∷ s) = ground (arith, same_string_self s)

-- The name of a type that is found is defined.
abbrev pub IsNamed : List FileType → Option FileType → Type 0
IsNamed types none = Unit
IsNamed types (some t) = get_type t.type types ≢ none

IsNamed-cons :
    (u : FileType) (types : List FileType) (r : Option FileType)
    → IsNamed types r
    → IsNamed (u ∷ types) r
unfolding get_type
IsNamed-cons u types none h = tt
IsNamed-cons u types (some t) h = elim (Bool-cases (same_string t.type u.type)) [
  | inl e ↦ rw e (λ e'. cc e')
  | inr e ↦ rw e h
]

pub get_type-IsNamed : (name : List ℕ) (types : List FileType) → IsNamed types (get_type name types)
unfolding get_type
get_type-IsNamed name [] = tt
get_type-IsNamed name (u ∷ types) = elim (Bool-cases (same_string name u.type)) [
  | inl e ↦ rw e (rw (same_string_self u.type) (λ e'. cc e'))
  | inr e ↦ rw e (IsNamed-cons u types (get_type name types) (get_type-IsNamed name types))
]

-- What holds of the conversions of every type.
abbrev pub AllTables : (Conversion → Type 0) → List FileType → Type 0
AllTables P [] = Unit
AllTables P (u ∷ types) = ((c : Conversion) → IsListed c u.conversions → P c) × AllTables P types

pub AllTables-get :
    (P : Conversion → Type 0) (types : List FileType) (file : List ℕ) (c : Conversion)
    → AllTables P types
    → IsOffered c (get_type file types)
    → P c
unfolding get_type
AllTables-get P [] file c h = λ offered. absurd offered
AllTables-get P (u ∷ types) file c h = elim (Bool-cases (same_string file u.type)) [
  | inl e ↦ rw e (h.0 c)
  | inr e ↦ rw e (AllTables-get P types file c h.1)
]
