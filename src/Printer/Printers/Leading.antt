-- ===== src/Printer/Printers/Leading.antt =====
-- The name of a printer that is enabled leads to it.
use mathlib.Core.Option.{some}
use mathlib.Core.Path.{subst}
use audible.Base.{ℕ, ◌≡◌, ◌≢◌, ap, sym, ◌⊎◌, inl, inr, Bool, Bool-cases, true, false, List, [], ◌∷◌}
use audible.Printer.Types.{same_string}
use audible.Printer.Types.Paths.Faults.{same_string_self}
use audible.Printer.Printers.{Printer, get_printer, change_printer, busy_printer}
use audible.Printer.Printers.Lookup.{same_string_eq}
use audible.Printer.Printers.Fleet.{AreIdle, InFront}

abbrev pub IsAmong : Printer → List Printer → Type 0
IsAmong p [] = ⊥
IsAmong p (q ∷ printers) = (p ≡ q) ⊎ IsAmong p printers

abbrev pub NoneOf : (Printer → Bool) → List Printer → Type 0
NoneOf test [] = Unit
NoneOf test (p ∷ printers) = (test p ≡ false) × NoneOf test printers

AreIdle-among :
    (name : List ℕ) (p : Printer) (printers : List Printer)
    → AreIdle name printers
    → IsAmong p printers
    → same_string name p.name ≡ true
    → p.enabled ≡ 0
AreIdle-among name p [] h among e = absurd among
AreIdle-among name p (q ∷ printers) h (inl same) e =
    subst (λ (r : Printer). r.enabled ≡ 0) (sym same)
      (h.0 (subst (λ (r : Printer). same_string name r.name ≡ true) same e)).1
AreIdle-among name p (q ∷ printers) h (inr among) e = AreIdle-among name p printers h.1 among e

pub get_printer-enabled :
    (p : Printer) (printers : List Printer)
    → InFront printers
    → IsAmong p printers
    → p.enabled ≢ 0
    → get_printer p.name printers ≡ some p
unfolding get_printer
get_printer-enabled p [] front among on = absurd among
get_printer-enabled p (q ∷ printers) front (inl same) on =
    let self : same_string p.name q.name ≡ true =
      subst (λ (r : Printer). same_string p.name r.name ≡ true) same (same_string_self p.name) in
    rw self (ap some (sym same))
get_printer-enabled p (q ∷ printers) front (inr among) on =
    elim (Bool-cases (same_string p.name q.name)) [
      | inl e ↦
          let back : same_string q.name p.name ≡ true =
            subst (λ n. same_string n p.name ≡ true) (same_string_eq p.name q.name e)
              (same_string_self p.name) in
          absurd (on (AreIdle-among q.name p printers front.0 among back))
      | inr e ↦ rw e (get_printer-enabled p printers front.1 among on)
    ]

-- A test that fails for busy printers fails where it did after one more is busy.
pub NoneOf-busy :
    (test : Printer → Bool)
    → ((p : Printer) → test (record p { busy = 1 }) ≡ false)
    → (name : List ℕ) (printers : List Printer) → NoneOf test printers
    → NoneOf test (busy_printer name printers)
unfolding busy_printer change_printer
NoneOf-busy test off name [] h = h
NoneOf-busy test off name (p ∷ printers) h = elim (Bool-cases (same_string name p.name)) [
  | inl e ↦ rw e (off p, h.1)
  | inr e ↦ rw e (h.0, NoneOf-busy test off name printers h.1)
]
