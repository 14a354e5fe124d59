-- ===== src/Printer/Printers/Handing.antt =====
-- Adding a printer, giving it a job and freeing it.
use mathlib.Core.Option.{Option, none, some}
use mathlib.Core.Path.{subst}
use audible.Base.{
  ℕ, ◌≡◌, ◌≢◌, refl, ◌∙◌, sym, inl, inr, Bool-cases, true, false, List, [], ◌∷◌, arith, ◌==◌,
}
use audible.Printer.Types.{same_string}
use audible.Printer.Types.Paths.Faults.{same_string_self}
use audible.Printer.Printers.{
  Printer, get_printer, change_printer, busy_printer, free_printer, printer_at,
}
use audible.Printer.Printers.Lookup.{same_string_eq}
use audible.Printer.Printers.Busy.{IsBusy, NotId, AreNumbered, Found, NotId-IsBusy}
use audible.Printer.Printers.Fleet.{AreIdle, InFront, IsFleet, change_printer-IsFleet}

pub busy_printer-IsFleet :
    (n : ℕ) (name : List ℕ) (printers : List Printer)
    → IsFleet n printers
    → IsFleet n (busy_printer name printers)
unfolding busy_printer
busy_printer-IsFleet n name printers h =
    change_printer-IsFleet (λ p. record p { busy = 1 }) (λ p. (refl, refl)) n name printers h

pub free_printer-IsFleet :
    (n : ℕ) (name : List ℕ) (printers : List Printer)
    → IsFleet n printers
    → IsFleet n (free_printer name printers)
unfolding free_printer
free_printer-IsFleet n name printers h =
    change_printer-IsFleet (λ p. record p { busy = 0 }) (λ p. (refl, refl)) n name printers h

-- The printers that the name does not lead to remain busy.
pub free_printer-others :
    (i j : ℕ) (name : List ℕ) (printers : List Printer)
    → Found (λ q. q.id ≡ i) (get_printer name printers)
    → j ≢ i
    → IsBusy j printers
    → IsBusy j (free_printer name printers)
unfolding free_printer change_printer get_printer
free_printer-others i j name [] found differ b = b
free_printer-others i j name (p ∷ printers) found differ b =
    elim (Bool-cases (same_string name p.name)) [
      | inl e ↦ rw e (elim b [
        | inl b' ↦ absurd (differ (sym b'.0 ∙ subst (Found (λ q. q.id ≡ i)) (taken e) found))
        | inr b' ↦ inr b'
      ])
      | inr e ↦ rw e (elim b [
        | inl b' ↦ inl b'
        | inr b' ↦ inr (
            free_printer-others i j name printers (subst (Found (λ q. q.id ≡ i)) (passed e) found)
              differ b')
      ])
    ]
  where
    taken : same_string name p.name ≡ true → get_printer name (p ∷ printers) ≡ some p
    taken e = rw e refl

    passed :
        same_string name p.name ≡ false
        → get_printer name (p ∷ printers) ≡ get_printer name printers
    passed e = rw e refl

AreIdle-at :
    (i : ℕ) (name : List ℕ) (printers : List Printer)
    → AreIdle name printers
    → Found (λ p. same_string name p.name ≡ true → p.busy ≡ 0) (printer_at i printers)
unfolding printer_at
AreIdle-at i name [] h = tt
AreIdle-at i name (q ∷ printers) h = elim (Bool-cases (q.id == i)) [
  | inl e ↦ rw e (λ o. (h.0 o).0)
  | inr e ↦ rw e (AreIdle-at i name printers h.1)
]

-- The busy printer with the identifier `i`, which its name leads to.
abbrev pub LeadsBack : ℕ → List Printer → Option Printer → Type 0
LeadsBack i printers none = ⊥
LeadsBack i printers (some p) = (p.busy ≢ 0) × Found (λ q. q.id ≡ i) (get_printer p.name printers)

LeadsBack-cons :
    (i : ℕ) (q : Printer) (printers : List Printer) (r : Option Printer)
    → Found (λ p. same_string q.name p.name ≡ true → p.busy ≡ 0) r
    → LeadsBack i printers r
    → LeadsBack i (q ∷ printers) r
unfolding get_printer
LeadsBack-cons i q printers none idle h = h
LeadsBack-cons i q printers (some p) idle h = elim (Bool-cases (same_string p.name q.name)) [
  | inl e ↦
      let back : same_string q.name p.name ≡ true =
        rw (same_string_eq p.name q.name e) (same_string_self q.name) in
      absurd (h.0 (idle back))
  | inr e ↦ rw e h
]

-- Where names lead to the busy printers, so does the name of the one with the identifier `i`.
pub printer_at-LeadsBack :
    (i : ℕ) (printers : List Printer)
    → InFront printers
    → AreNumbered printers
    → IsBusy i printers
    → LeadsBack i printers (printer_at i printers)
unfolding printer_at get_printer
printer_at-LeadsBack i [] front numbered b = b
printer_at-LeadsBack i (q ∷ printers) front numbered b = elim (Bool-cases (q.id == i)) [
  | inl e ↦ rw e (
    (λ idle. elim b [
      | inl b' ↦ b'.1 idle
      | inr b' ↦
          NotId-IsBusy i printers (subst (λ k. NotId k printers) (ground (arith, e)) numbered.0) b'
    ]),
    rw (same_string_self q.name) (ground (arith, e)),
  )
  | inr e ↦ rw e (
      LeadsBack-cons i q printers (printer_at i printers) (AreIdle-at i q.name printers front.0) (
        printer_at-LeadsBack i printers front.1 numbered.1
          (elim b [ inl b' ↦ absurd (ground (arith, e, b'.0)) | inr b' ↦ b' ])))
]
