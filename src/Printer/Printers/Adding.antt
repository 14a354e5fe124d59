-- ===== src/Printer/Printers/Adding.antt =====
-- A new printer.
use mathlib.Core.Option.{Option, none, some}
use audible.Base.{
  ℕ, ◌+◌, ◌≤◌, ◌≡◌, ◌≢◌, refl, inl, inr, Bool-cases, Option-cases, List, [], ◌∷◌, arith, leb,
}
use audible.Printer.Types.{FileType, get_type}
use audible.Printer.Printers.{Printer, Printers, add_printer, new_printer, max_printers}
use audible.Printer.Printers.Busy.{IsBusy, NotId, AreNumbered}
use audible.Printer.Printers.Fleet.{AreIdle, InFront, IdsBelow, IsFleet}

module _ (q : Printer) (idle : (q.busy ≡ 0) × (q.enabled ≡ 0)) where
  NotId-add :
      (i : ℕ) (printers : List Printer)
      → q.id ≢ i
      → NotId i printers
      → NotId i (add_printer q printers)
  unfolding add_printer
  NotId-add i [] hq h = (hq, tt)
  NotId-add i (p ∷ printers) hq h = (h.0, NotId-add i printers hq h.1)

  AreNumbered-add :
      (printers : List Printer)
      → IdsBelow q.id printers
      → AreNumbered printers
      → AreNumbered (add_printer q printers)
  unfolding add_printer
  AreNumbered-add [] low h = (tt, tt)
  AreNumbered-add (p ∷ printers) low h = (
    NotId-add p.id printers (λ e. omega (arith, e, low.0)) h.0,
    AreNumbered-add printers low.1 h.1,
  )

  AreIdle-add :
      (name : List ℕ) (printers : List Printer)
      → AreIdle name printers
      → AreIdle name (add_printer q printers)
  unfolding add_printer
  AreIdle-add name [] h = ((λ e. idle), tt)
  AreIdle-add name (p ∷ printers) h = (h.0, AreIdle-add name printers h.1)

  InFront-add : (printers : List Printer) → InFront printers → InFront (add_printer q printers)
  unfolding add_printer
  InFront-add [] h = (tt, tt)
  InFront-add (p ∷ printers) h = (AreIdle-add p.name printers h.0, InFront-add printers h.1)

  IdsBelow-add :
      (n : ℕ) (printers : List Printer)
      → q.id ≡ n
      → IdsBelow n printers
      → IdsBelow (n + 1) (add_printer q printers)
  unfolding add_printer
  IdsBelow-add n [] e h = (omega (arith, e), tt)
  IdsBelow-add n (p ∷ printers) e h = (omega (arith, h.0), IdsBelow-add n printers e h.1)

  IsBusy-add :
      (i : ℕ) (printers : List Printer) → IsBusy i printers → IsBusy i (add_printer q printers)
  unfolding add_printer
  IsBusy-add i [] b = absurd b
  IsBusy-add i (p ∷ printers) (inl b) = inl b
  IsBusy-add i (p ∷ printers) (inr b) = inr (IsBusy-add i printers b)

-- The printers after `newPrinter`.
abbrev pub Grows : Printers → Printers → Type 0
Grows l l' =
    IsFleet l'.index l'.printers
    × (l'.index ≤ 32)
    × ((i : ℕ) → IsBusy i l.printers → IsBusy i l'.printers)

pub new_printer-Grows :
    (name type : Option (List ℕ)) (types : List FileType) (l : Printers)
    → IsFleet l.index l.printers
    → l.index ≤ 32
    → Grows l (new_printer name type types l).1
unfolding new_printer
new_printer-Grows none type types l h few = (h, few, λ i b. b)
new_printer-Grows (some name) none types l h few = (h, few, λ i b. b)
new_printer-Grows (some name) (some type) types l h few =
    elim (Option-cases (get_type type types)) [
      | inl e ↦ rw (new_printer, e) (h, few, λ i b. b)
      | inr (t, e) ↦ elim (Bool-cases (leb max_printers l.index)) [
        | inl full ↦ rw (new_printer, e, full) (h, few, λ i b. b)
        | inr room ↦
            rw (new_printer, e, room)
              (
                record {
                  numbered = AreNumbered-add _ (refl, refl) l.printers h.below h.numbered;
                  in_front = InFront-add _ (refl, refl) l.printers h.in_front;
                  below = IdsBelow-add _ (refl, refl) l.index l.printers refl h.below;
                },
                ground (arith, room),
                λ i b. IsBusy-add _ (refl, refl) i l.printers b,
              )
      ]
    ]
