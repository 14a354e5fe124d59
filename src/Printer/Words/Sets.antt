-- ===== src/Printer/Words/Sets.antt =====
-- The set of printers that a command names.
use mathlib.Core.Option.{Option, none, some}
use mathlib.Core.Path.{subst}
use audible.Base.{
  ℕ, ◌/◌, ◌%◌, ◌^◌, ◌≡◌, ◌≢◌, refl, ap, sym, ◌⊎◌, inl, inr, Bool-cases, Option-cases, ◌==◌, ◌↔◌,
  List, [], ◌∷◌, arith, bit_or,
}
use native.Mathlib.Nat.{zero-div}
use audible.Base.Bits.{or-bit, power-bit, power-bit_ne}
use audible.Printer.Printers.{Printer, get_printer}
use audible.Printer.Words.{add_to_set, set_loop, get_printer_set, all_tokens, space}

-- The test of `getEligiblePrinter` for a printer in a set.
abbrev pub IsIn : ℕ → ℕ → Type 0
IsIn id set = set / 2 ^ id % 2 ≡ 1

-- The printer with the identifier `id` is the one that a name finds.
abbrev pub Finds : ℕ → Option Printer → Type 0
Finds id none = ⊥
Finds id (some printer) = printer.id ≡ id

abbrev pub IsNamed : ℕ → List Printer → List (List ℕ) → Type 0
IsNamed id printers [] = ⊥
IsNamed id printers (name ∷ names) =
    Finds id (get_printer name printers) ⊎ IsNamed id printers names

-- Every name finds a printer.
abbrev pub AreKnown : List Printer → List (List ℕ) → Type 0
AreKnown printers [] = Unit
AreKnown printers (name ∷ names) = (get_printer name printers ≢ none) × AreKnown printers names

-- Nothing where a name is unknown, else the printers of the names with those of the set before.
abbrev pub Adds : List Printer → List (List ℕ) → ℕ → ℕ → Type 0
Adds printers names set result =
    ((result ≡ 0) × (AreKnown printers names → ⊥))
    ⊎ (AreKnown printers names
        × ((id : ℕ) → IsIn id result ↔ (IsIn id set ⊎ IsNamed id printers names)))

or-IsIn : (id set j : ℕ) → IsIn id (bit_or set (2 ^ j)) ↔ (IsIn id set ⊎ (j ≡ id))
or-IsIn id set j = elim (compare_cases id j) [
  | inl e ↦ (
    λ h. inr e,
    λ h. omega (arith, or-bit id set (2 ^ j), power-bit id, ap (λ (n : ℕ). 2 ^ n / 2 ^ id % 2) e),
  )
  | inr ne ↦ (
    λ h. inl (omega (arith, or-bit id set (2 ^ j), power-bit_ne id j ne, h)),
    λ h. elim h [
      | inl b ↦ omega (arith, or-bit id set (2 ^ j), power-bit_ne id j ne, b)
      | inr e ↦ absurd (ne e)
    ],
  )
]
  where
    compare_cases : (id j : ℕ) → (j ≡ id) ⊎ (j ≢ id)
    compare_cases id j = elim (Bool-cases (j == id)) [
      | inl e ↦ inl (ground (arith, e))
      | inr e ↦ inr (ground (arith, e))
    ]

Adds-found :
    (printers : List Printer) (name : List ℕ) (names : List (List ℕ)) (set result : ℕ) (p : Printer)
    → get_printer name printers ≡ some p
    → Adds printers names (bit_or set (2 ^ p.id)) result
    → Adds printers (name ∷ names) set result
Adds-found printers name names set result p e (inl h) = inl (h.0, λ k. h.1 k.1)
Adds-found printers name names set result p e (inr h) = inr (
  ((λ n. cc (e, n)), h.0),
  λ id. (
    λ b. elim ((h.1 id).0 b) [
      | inl old ↦ elim ((or-IsIn id set p.id).0 old) [
        | inl before ↦ inl before
        | inr new ↦ inr (inl (rw e new))
      ]
      | inr named ↦ inr (inr named)
    ],
    λ b. (h.1 id).1 (elim b [
      | inl before ↦ inl ((or-IsIn id set p.id).1 (inl before))
      | inr (inl new) ↦ inl ((or-IsIn id set p.id).1 (inr (found new)))
      | inr (inr named) ↦ inr named
    ]),
  ),
)
  where
    found : {id : ℕ} → Finds id (get_printer name printers) → p.id ≡ id
    found {id} h = subst (Finds id) e h

set_loop-Adds :
    (printers : List Printer) (names : List (List ℕ)) (set : ℕ)
    → Adds printers names set (set_loop printers names set)
unfolding set_loop
set_loop-Adds printers [] set =
    inr (tt, λ id. ((λ b. inl b), λ b. elim b [ inl h ↦ h | inr h ↦ absurd h ]))
set_loop-Adds printers (name ∷ names) set = elim (Option-cases (get_printer name printers)) [
  | inl e ↦ subst (Adds printers (name ∷ names) set) (sym (ap next e)) (inl (refl, λ k. k.0 e))
  | inr (p, e) ↦ subst (Adds printers (name ∷ names) set) (sym (ap next e)) (
      Adds-found printers name names set (set_loop printers names (bit_or set (2 ^ p.id))) p e
        (set_loop-Adds printers names (bit_or set (2 ^ p.id))))
]
  where
    next : Option Printer → ℕ
    next r = add_to_set (set_loop printers names) set r

zero-digit : (id : ℕ) → IsIn id 0 → ⊥
zero-digit id h = omega (arith, h, zero-div (2 ^ id))

-- The set of printers that `getPrinterSet` builds from a list of names.
abbrev pub Collects : List Printer → List (List ℕ) → ℕ → Type 0
Collects printers names set =
    ((set ≡ 0) × (AreKnown printers names → ⊥))
    ⊎ (AreKnown printers names × ((id : ℕ) → IsIn id set ↔ IsNamed id printers names))

-- From a string of names `getPrinterSet` builds the set of the identifiers of the printers that the words of
-- the string name, bit by bit, where each word names a printer; where some word names none it is 0.
pub get_printer_set-Collects :
    (names : List ℕ) (printers : List Printer)
    → Collects printers (all_tokens space names) (get_printer_set (some names) printers)
unfolding get_printer_set
get_printer_set-Collects names printers = elim (set_loop-Adds printers (all_tokens space names) 0) [
  | inl h ↦ inl h
  | inr h ↦ inr (
    h.0,
    λ id. (
      λ b. elim ((h.1 id).0 b) [ inl z ↦ absurd (zero-digit id z) | inr n ↦ n ],
      λ n. (h.1 id).1 (inr n),
    ),
  )
]
