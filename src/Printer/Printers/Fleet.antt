-- ===== src/Printer/Printers/Fleet.antt =====
-- The printers of one name: only the first of them is ever busy or enabled.
use audible.Base.{ℕ, ◌<◌, ◌≡◌, inl, inr, Bool-cases, true, false, List, [], ◌∷◌, arith}
use audible.Printer.Types.{same_string}
use audible.Printer.Printers.{
  Printer, change_printer, disabled, enabled_printer, disable_printer, enable_printer,
}
use audible.Printer.Printers.Lookup.{same_string_eq}
use audible.Printer.Printers.Busy.{IsBusy, NotId, AreNumbered}

-- No printer of the name is busy or enabled.
abbrev pub AreIdle : List ℕ → List Printer → Type 0
AreIdle name [] = Unit
AreIdle name (p ∷ printers) =
    (same_string name p.name ≡ true → (p.busy ≡ 0) × (p.enabled ≡ 0)) × AreIdle name printers

-- Of the printers with one name only the first is ever busy or enabled: the one that the name leads to.
abbrev pub InFront : List Printer → Type 0
InFront [] = Unit
InFront (p ∷ printers) = AreIdle p.name printers × InFront printers

abbrev pub IdsBelow : ℕ → List Printer → Type 0
IdsBelow n [] = Unit
IdsBelow n (p ∷ printers) = (p.id < n) × IdsBelow n printers

-- What holds of the printers.
pub record IsFleet (n : ℕ) (printers : List Printer) : Type 0 where
  pub numbered : AreNumbered printers
  pub in_front : InFront printers
  pub below : IdsBelow n printers

-- A change of a printer that leaves its identifier and its name.
abbrev pub IsSteady : (Printer → Printer) → Type 0
IsSteady f = (p : Printer) → ((f p).id ≡ p.id) × ((f p).name ≡ p.name)

module _ (f : Printer → Printer) (steady : IsSteady f) where
  NotId-change :
      (i : ℕ) (name : List ℕ) (printers : List Printer)
      → NotId i printers
      → NotId i (change_printer f name printers)
  unfolding change_printer
  NotId-change i name [] h = h
  NotId-change i name (p ∷ printers) h = elim (Bool-cases (same_string name p.name)) [
    | inl e ↦ rw (e, (steady p).0) h
    | inr e ↦ rw e (h.0, NotId-change i name printers h.1)
  ]

  AreNumbered-change :
      (name : List ℕ) (printers : List Printer)
      → AreNumbered printers
      → AreNumbered (change_printer f name printers)
  unfolding change_printer
  AreNumbered-change name [] h = h
  AreNumbered-change name (p ∷ printers) h = elim (Bool-cases (same_string name p.name)) [
    | inl e ↦ rw (e, (steady p).0) h
    | inr e ↦ rw e (NotId-change p.id name printers h.0, AreNumbered-change name printers h.1)
  ]

  -- A change under another name.
  AreIdle-change :
      (name other : List ℕ) (printers : List Printer)
      → same_string name other ≡ false
      → AreIdle other printers
      → AreIdle other (change_printer f name printers)
  unfolding change_printer
  AreIdle-change name other [] differ h = h
  AreIdle-change name other (p ∷ printers) differ h = elim (Bool-cases (same_string name p.name)) [
    | inl e ↦
        rw (e, (steady p).1) ((λ o. absurd (cc (differ, e, same_string_eq other p.name o))), h.1)
    | inr e ↦ rw e (h.0, AreIdle-change name other printers differ h.1)
  ]

  InFront-change :
      (name : List ℕ) (printers : List Printer)
      → InFront printers
      → InFront (change_printer f name printers)
  unfolding change_printer
  InFront-change name [] h = h
  InFront-change name (p ∷ printers) h = elim (Bool-cases (same_string name p.name)) [
    | inl e ↦ rw (e, (steady p).1) h
    | inr e ↦ rw e (AreIdle-change name p.name printers e h.0, InFront-change name printers h.1)
  ]

  IdsBelow-change :
      (n : ℕ) (name : List ℕ) (printers : List Printer)
      → IdsBelow n printers
      → IdsBelow n (change_printer f name printers)
  unfolding change_printer
  IdsBelow-change n name [] h = h
  IdsBelow-change n name (p ∷ printers) h = elim (Bool-cases (same_string name p.name)) [
    | inl e ↦ rw (e, (steady p).0) h
    | inr e ↦ rw e (h.0, IdsBelow-change n name printers h.1)
  ]

  pub change_printer-IsFleet :
      (n : ℕ) (name : List ℕ) (printers : List Printer)
      → IsFleet n printers
      → IsFleet n (change_printer f name printers)
  change_printer-IsFleet n name printers h = record {
    numbered = AreNumbered-change name printers h.numbered;
    in_front = InFront-change name printers h.in_front;
    below = IdsBelow-change n name printers h.below;
  }

-- A change that leaves whether the printer is busy.
module _ (f : Printer → Printer) (steady : IsSteady f)
    (quiet : (p : Printer) → (f p).busy ≡ p.busy) where
  IsBusy-quiet :
      (i : ℕ) (name : List ℕ) (printers : List Printer)
      → IsBusy i printers
      → IsBusy i (change_printer f name printers)
  unfolding change_printer
  IsBusy-quiet i name [] h = h
  IsBusy-quiet i name (p ∷ printers) h = elim (Bool-cases (same_string name p.name)) [
    | inl e ↦ rw (e, (steady p).0, quiet p) h
    | inr e ↦ rw e (elim h [ inl b ↦ inl b | inr b ↦ inr (IsBusy-quiet i name printers b) ])
  ]

disabled-IsSteady : IsSteady disabled
disabled-IsSteady p = (ground arith, ground arith)

enabled_printer-IsSteady : IsSteady enabled_printer
enabled_printer-IsSteady p = (ground arith, ground arith)

-- What disabling and enabling a printer leaves.
abbrev pub Leaves : (List ℕ → List Printer → List Printer) → Type 0
Leaves change =
    (n : ℕ) (name : List ℕ) (printers : List Printer)
    → IsFleet n printers
    → IsFleet n (change name printers)
      × ((i : ℕ) → IsBusy i printers → IsBusy i (change name printers))

pub disable_printer-Leaves : Leaves disable_printer
unfolding disable_printer
disable_printer-Leaves n name printers h = (
  change_printer-IsFleet disabled disabled-IsSteady n name printers h,
  λ i b. IsBusy-quiet disabled disabled-IsSteady (λ p. ground arith) i name printers b,
)

pub enable_printer-Leaves : Leaves enable_printer
unfolding enable_printer
enable_printer-Leaves n name printers h = (
  change_printer-IsFleet enabled_printer enabled_printer-IsSteady n name printers h,
  λ i b.
      IsBusy-quiet enabled_printer enabled_printer-IsSteady (λ p. ground arith) i name printers b,
)
