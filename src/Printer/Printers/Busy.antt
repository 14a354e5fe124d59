-- ===== src/Printer/Printers/Busy.antt =====
-- The printers that are busy.
use mathlib.Core.Option.{Option, none, some}
use audible.Base.{ℕ, ◌≡◌, ◌≢◌, refl, sym, ◌⊎◌, inl, inr, Bool-cases, List, [], ◌∷◌, arith}
use audible.Printer.Types.{same_string}
use audible.Printer.Printers.{Printer, get_printer, change_printer, busy_printer}

-- The printer `i` is there and is busy.
abbrev pub IsBusy : ℕ → List Printer → Type 0
IsBusy i [] = ⊥
IsBusy i (p ∷ printers) = ((p.id ≡ i) × (p.busy ≢ 0)) ⊎ IsBusy i printers

abbrev pub NotId : ℕ → List Printer → Type 0
NotId i [] = Unit
NotId i (p ∷ printers) = (p.id ≢ i) × NotId i printers

-- The identifiers are distinct.
abbrev pub AreNumbered : List Printer → Type 0
AreNumbered [] = Unit
AreNumbered (p ∷ printers) = NotId p.id printers × AreNumbered printers

pub NotId-IsBusy : (i : ℕ) (printers : List Printer) → NotId i printers → IsBusy i printers → ⊥
NotId-IsBusy i [] h b = b
NotId-IsBusy i (p ∷ printers) h (inl b) = h.0 b.0
NotId-IsBusy i (p ∷ printers) h (inr b) = NotId-IsBusy i printers h.1 b

-- What holds of the printer found, if any.
abbrev pub Found : (Printer → Type 0) → Option Printer → Type 0
Found P none = Unit
Found P (some p) = P p

NotId-get :
    (i : ℕ) (name : List ℕ) (printers : List Printer)
    → NotId i printers
    → Found (λ p. p.id ≢ i) (get_printer name printers)
unfolding get_printer
NotId-get i name [] h = tt
NotId-get i name (q ∷ printers) h = elim (Bool-cases (same_string name q.name)) [
  | inl s ↦ rw s h.0
  | inr s ↦ rw s (NotId-get i name printers h.1)
]

Found-both :
    (P Q R : Printer → Type 0)
    → ((p : Printer) → P p → Q p → R p)
    → (r : Option Printer) → Found P r
    → Found Q r
    → Found R r
Found-both P Q R f none h k = tt
Found-both P Q R f (some p) h k = f p h k

-- Where the printer that is found is idle, no printer with its identifier is busy.
pub get_printer-idle :
    (name : List ℕ) (printers : List Printer)
    → AreNumbered printers
    → Found (λ p. p.busy ≡ 0 → IsBusy p.id printers → ⊥) (get_printer name printers)
unfolding get_printer
get_printer-idle name [] h = tt
get_printer-idle name (q ∷ printers) h = elim (Bool-cases (same_string name q.name)) [
  | inl s ↦
      rw s (λ idle b. elim b [ inl b' ↦ b'.1 idle | inr b' ↦ NotId-IsBusy q.id printers h.0 b' ])
  | inr s ↦ rw s (
      Found-both (λ p. p.id ≢ q.id) (λ p. p.busy ≡ 0 → IsBusy p.id printers → ⊥) _
        (λ p differ safe idle b. elim b [ inl b' ↦ differ (sym b'.0) | inr b' ↦ safe idle b' ])
        (get_printer name printers) (NotId-get q.id name printers h.0)
        (get_printer-idle name printers h.1))
]

everywhere : (r : Option Printer) → Found (λ p. Unit) r
everywhere none = tt
everywhere (some p) = tt

-- After `busyPrinter` the printer that was found is busy.
pub busy_printer-IsBusy :
    (name : List ℕ) (printers : List Printer)
    → Found (λ p. IsBusy p.id (busy_printer name printers)) (get_printer name printers)
unfolding get_printer busy_printer change_printer
busy_printer-IsBusy name [] = tt
busy_printer-IsBusy name (q ∷ printers) = elim (Bool-cases (same_string name q.name)) [
  | inl s ↦ rw s (inl (refl, λ e. omega arith))
  | inr s ↦ rw s (
      Found-both (λ p. Unit) (λ p. IsBusy p.id (busy_printer name printers)) _ (λ p t b. inr b)
        (get_printer name printers) (everywhere (get_printer name printers))
        (busy_printer-IsBusy name printers))
]

-- The others remain busy.
pub busy_printer-keeps :
    (i : ℕ) (name : List ℕ) (printers : List Printer)
    → IsBusy i printers
    → IsBusy i (busy_printer name printers)
unfolding busy_printer change_printer
busy_printer-keeps i name [] b = b
busy_printer-keeps i name (q ∷ printers) b = elim (Bool-cases (same_string name q.name)) [
  | inl s ↦ rw s (elim b [ inl b' ↦ inl (b'.0, λ e. omega arith) | inr b' ↦ inr b' ])
  | inr s ↦ rw s (elim b [ inl b' ↦ inl b' | inr b' ↦ inr (busy_printer-keeps i name printers b') ])
]

NotId-busy :
    (i : ℕ) (name : List ℕ) (printers : List Printer)
    → NotId i printers
    → NotId i (busy_printer name printers)
unfolding busy_printer change_printer
NotId-busy i name [] h = tt
NotId-busy i name (q ∷ printers) h = elim (Bool-cases (same_string name q.name)) [
  | inl s ↦ rw s (h.0, h.1)
  | inr s ↦ rw s (h.0, NotId-busy i name printers h.1)
]

pub busy_printer-AreNumbered :
    (name : List ℕ) (printers : List Printer)
    → AreNumbered printers
    → AreNumbered (busy_printer name printers)
unfolding busy_printer change_printer
busy_printer-AreNumbered name [] h = tt
busy_printer-AreNumbered name (q ∷ printers) h = elim (Bool-cases (same_string name q.name)) [
  | inl s ↦ rw s (h.0, h.1)
  | inr s ↦ rw s (NotId-busy q.id name printers h.0, busy_printer-AreNumbered name printers h.1)
]
