-- ===== src/Printer/Types/Closed.antt =====
-- Every conversion leads to a type that is defined.
use mathlib.Core.Option.{Option, none, some}
use mathlib.Core.Path.{subst}
use audible.Base.{
  ℕ, ◌≡◌, ◌≢◌, refl, sym, inl, inr, Bool-cases, Option-cases, List, [], ◌∷◌, ◌++◌, length, leb,
  if◌then◌else◌,
}
use audible.Printer.Types.{
  Conversion, FileType, same_string, get_type, add_type, new_extension, get_conversion,
  add_conversion, new_conversion, max_conversions, max_types,
}
use audible.Printer.Types.Paths.Chains.{IsListed}
use audible.Printer.Types.Paths.Faults.{AllTables, AllTables-get, AreDefined}

abbrev pub IsDefined : List FileType → Conversion → Type 0
IsDefined types c = get_type c.type types ≢ none

abbrev pub IsClosed : List FileType → Type 0
IsClosed types = AllTables (IsDefined types) types

pub IsClosed-AreDefined : (types : List FileType) → IsClosed types → AreDefined types
IsClosed-AreDefined types h =
    λ file c offered. AllTables-get (IsDefined types) types file c h offered

AllTables-weaken :
    (P Q : Conversion → Type 0)
    → ((c : Conversion) → P c → Q c)
    → (types : List FileType) → AllTables P types
    → AllTables Q types
AllTables-weaken P Q f [] h = tt
AllTables-weaken P Q f (t ∷ types) h =
    ((λ c listed. f c (h.0 c listed)), AllTables-weaken P Q f types h.1)

AllTables-snoc :
    (P : Conversion → Type 0) (t : FileType) (types : List FileType)
    → ((c : Conversion) → IsListed c t.conversions → P c)
    → AllTables P types
    → AllTables P (types ++ t ∷ [])
AllTables-snoc P t [] ht h = (ht, tt)
AllTables-snoc P t (u ∷ types) ht h = (h.0, AllTables-snoc P t types ht h.1)

get-snoc :
    (name : List ℕ) (t : FileType) (types : List FileType)
    → get_type name types ≢ none
    → get_type name (types ++ t ∷ []) ≢ none
unfolding get_type
get-snoc name t [] h = absurd (h refl)
get-snoc name t (u ∷ types) h = elim (Bool-cases (same_string name u.type)) [
  | inl e ↦ rw e (λ e'. cc e')
  | inr e ↦
      rw e (
        get-snoc name t types (subst (λ b. (if b then some u else get_type name types) ≢ none) e h))
]

-- `type` keeps the types closed.
pub new_extension-IsClosed :
    (name : Option (List ℕ)) (types : List FileType)
    → IsClosed types
    → IsClosed (new_extension name types)
unfolding new_extension add_type
new_extension-IsClosed none types h = h
new_extension-IsClosed (some name) types h = elim (Bool-cases (leb max_types (length types))) [
  | inl e ↦ rw e h
  | inr e ↦ rw e (
      AllTables-snoc _ (record { type = name; conversions = [] }) types (λ c listed. absurd listed)
        (AllTables-weaken (IsDefined types) _
          (λ c there. get-snoc c.type (record { type = name; conversions = [] }) types there) types
          h))
]

abbrev IsThere : List ℕ → List FileType → Type 0
IsThere name types = get_type name types ≢ none

-- A type in front, changed under its name.
IsThere-cons :
    (name : List ℕ) (u u' : FileType) (types types' : List FileType)
    → u'.type ≡ u.type
    → (IsThere name types → IsThere name types')
    → IsThere name (u ∷ types)
    → IsThere name (u' ∷ types')
unfolding get_type
IsThere-cons name u u' types types' same f h = elim (Bool-cases (same_string name u.type)) [
  | inl e ↦ rw (same, e) (λ e'. cc e')
  | inr e ↦ rw (same, e) (f (subst (λ b. (if b then some u else get_type name types) ≢ none) e h))
]

get-add_conversion :
    (name other : List ℕ) (c : Conversion) (types : List FileType)
    → IsThere name types
    → IsThere name (add_conversion other c types)
unfolding add_conversion
get-add_conversion name other c [] h = h
get-add_conversion name other c (u ∷ types) h = elim (Bool-cases (same_string other u.type)) [
  | inl e ↦ elim (Bool-cases (leb max_conversions (length u.conversions))) [
    | inl full ↦ rw (e, full) h
    | inr room ↦ rw (e, room) (IsThere-cons name u _ types types refl (λ k. k) h)
  ]
  | inr e ↦ rw e (IsThere-cons name u u types _ refl (get-add_conversion name other c types) h)
]

IsListed-snoc :
    (P : Conversion → Type 0) (d : Conversion) (table : List Conversion)
    → P d
    → ((c : Conversion) → IsListed c table → P c)
    → (c : Conversion) → IsListed c (table ++ d ∷ [])
    → P c
IsListed-snoc P d [] hd h c (inl e) = subst P (sym e) hd
IsListed-snoc P d [] hd h c (inr e) = absurd e
IsListed-snoc P d (x ∷ table) hd h c (inl e) = h c (inl e)
IsListed-snoc P d (x ∷ table) hd h c (inr e) = IsListed-snoc P d table hd (λ c' l. h c' (inr l)) c e

AllTables-add_conversion :
    (P : Conversion → Type 0) (name : List ℕ) (d : Conversion) (types : List FileType)
    → P d
    → AllTables P types
    → AllTables P (add_conversion name d types)
unfolding add_conversion
AllTables-add_conversion P name d [] hd h = h
AllTables-add_conversion P name d (u ∷ types) hd h = elim (Bool-cases (same_string name u.type)) [
  | inl e ↦ elim (Bool-cases (leb max_conversions (length u.conversions))) [
    | inl full ↦ rw (e, full) h
    | inr room ↦ rw (e, room) (IsListed-snoc P d u.conversions hd h.0, h.1)
  ]
  | inr e ↦ rw e (h.0, AllTables-add_conversion P name d types hd h.1)
]

-- `conversion` keeps the types closed.
pub new_conversion-IsClosed :
    (type1 type2 program : List ℕ) (args : Option (List ℕ)) (types : List FileType)
    → IsClosed types
    → IsClosed (new_conversion type1 type2 program args types)
unfolding new_conversion
new_conversion-IsClosed type1 type2 program args types h =
    elim (Option-cases (get_type type1 types)) [
      | inl e ↦ rw (new_conversion, e) h
      | inr (t1, e) ↦ elim (Option-cases (get_type type2 types)) [
        | inl e2 ↦ rw (new_conversion, e, e2) h
        | inr (t2, e2) ↦ elim (Option-cases (get_conversion type1 type2 types)) [
          | inl e3 ↦
              rw (new_conversion, e, e2, e3)
                (AllTables-add_conversion _ type1
                  (record { type = type2; program = program; args = args }) types
                  (get-add_conversion type2 type1 _ types (λ n. cc (e2, n)))
                  (AllTables-weaken (IsDefined types) _
                    (λ c there. get-add_conversion c.type type1 _ types there) types h))
          | inr (c, e3) ↦ rw (new_conversion, e, e2, e3) h
        ]
      ]
    ]
