-- ===== src/Printer/Printers/Lookup.antt =====
-- Finding a printer after a change.
use mathlib.Core.Option.{Option, none, some}
use audible.Base.{
  ℕ, ◌≡◌, ◌≢◌, refl, ◌∙◌, ap, sym, true, false, Bool-cases, inl, inr, List, [], ◌∷◌, arith, ◌==◌,
  if◌then◌else◌,
}
use audible.Printer.Types.{same_string}
use audible.Printer.Printers.{
  Printer, get_printer, change_printer, disabled, enabled_printer, disable_printer, enable_printer,
  busy_printer, free_printer,
}

pub same_string_eq : (s t : List ℕ) → same_string s t ≡ true → s ≡ t
unfolding same_string
same_string_eq [] [] h = refl
same_string_eq [] (d ∷ t) h = absurd (cc h)
same_string_eq (c ∷ s) [] h = absurd (cc h)
same_string_eq (c ∷ s) (d ∷ t) h = ground (arith, same_string_eq s t)

-- What becomes of the printer found, if any.
abbrev pub on_found : (Printer → Printer) → Option Printer → Option Printer
on_found f none = none
on_found f (some printer) = some (f printer)

get-change :
    (f : Printer → Printer) (name : List ℕ) (printers : List Printer)
    → ((p : Printer) → (f p).name ≡ p.name)
    → get_printer name (change_printer f name printers) ≡ on_found f (get_printer name printers)
unfolding get_printer change_printer
get-change f name [] hf = refl
get-change f name (p ∷ printers) hf = elim (Bool-cases (same_string name p.name)) [
  | inl e ↦ rw (e, hf p, e) refl
  | inr e ↦ rw (e, e) (get-change f name printers hf)
]

get-change_ne :
    (f : Printer → Printer) (name other : List ℕ) (printers : List Printer)
    → ((p : Printer) → (f p).name ≡ p.name)
    → other ≢ name
    → get_printer other (change_printer f name printers) ≡ get_printer other printers
unfolding get_printer change_printer
get-change_ne f name other [] hf hn = refl
get-change_ne f name other (p ∷ printers) hf hn = elim (Bool-cases (same_string name p.name)) [
  | inl e ↦
      let distinct : same_string other p.name ≡ false =
        elim (Bool-cases (same_string other p.name)) [
          | inl o ↦ absurd (hn (same_string_eq other p.name o ∙ sym (same_string_eq name p.name e)))
          | inr o ↦ o
        ] in
      rw (e, hf p, distinct) refl
  | inr e ↦ rw e (
      ap (λ r. if same_string other p.name then some p else r)
        (get-change_ne f name other printers hf hn))
]

disabled-name : (p : Printer) → (disabled p).name ≡ p.name
disabled-name p = ground arith

enabled_printer-name : (p : Printer) → (enabled_printer p).name ≡ p.name
enabled_printer-name p = ground arith

-- Disabling, enabling, occupying and freeing a printer changes what `getPrinter` finds under that name
-- in the one flag, and what it finds under no other name.
pub get-set_flag :
    (name other : List ℕ) (printers : List Printer)
    → other ≢ name
    → let here = get_printer name printers in
      let there = get_printer other printers in
      (get_printer name (disable_printer name printers)
        ≡ on_found (λ p. record p { enabled = 0 }) here)
      × (get_printer name (enable_printer name printers)
          ≡ on_found (λ p. record p { enabled = if p.enabled == 0 then 1 else p.enabled }) here)
      × (get_printer name (busy_printer name printers) ≡ on_found (λ p. record p { busy = 1 }) here)
      × (get_printer name (free_printer name printers) ≡ on_found (λ p. record p { busy = 0 }) here)
      × (get_printer other (disable_printer name printers) ≡ there)
      × (get_printer other (enable_printer name printers) ≡ there)
      × (get_printer other (busy_printer name printers) ≡ there)
      × (get_printer other (free_printer name printers) ≡ there)
unfolding disable_printer enable_printer busy_printer free_printer
get-set_flag name other printers hn = (
  get-change disabled name printers disabled-name
      ∙ flag disabled _ disabled_eq (get_printer name printers),
  get-change enabled_printer name printers enabled_printer-name
      ∙ flag enabled_printer _ enabled_eq (get_printer name printers),
  get-change _ name printers (λ p. refl),
  get-change _ name printers (λ p. refl),
  get-change_ne disabled name other printers disabled-name hn,
  get-change_ne enabled_printer name other printers enabled_printer-name hn,
  get-change_ne _ name other printers (λ p. refl) hn,
  get-change_ne _ name other printers (λ p. refl) hn,
)
  where
    flag :
        (f g : Printer → Printer)
        → ((p : Printer) → f p ≡ g p)
        → (found : Option Printer) → on_found f found ≡ on_found g found
    flag f g h none = refl
    flag f g h (some p) = ap some (h p)

    disabled_eq : (p : Printer) → disabled p ≡ record p { enabled = 0 }
    disabled_eq p = ground arith

    enabled_eq :
        (p : Printer)
        → enabled_printer p ≡ record p { enabled = if p.enabled == 0 then 1 else p.enabled }
    enabled_eq p = ground arith
