-- ===== src/Printer/Printers.antt =====
-- The printers: the first part of Printer/src/printers.c.
--
-- The array of printers is the list of its entries in front of the first null: the identifier of a new
-- printer is the number of those before it. Allocation succeeds, and what is printed is left out.
pub mod Lookup
pub mod Busy
pub mod Fleet
pub mod Handing
pub mod Leading
pub mod Adding
use audible.Printer.Types.{FileType, same_string, get_type}
use mathlib.Core.Option.{Option, none, some}
use audible.Base.{
  ℕ, zero, suc, ◌+◌, ◌≡◌, Bool, true, false, ◌&&◌, List, [], ◌∷◌, leb, ltb, ◌==◌, if◌then◌else◌,
}

abbrev max_printers : ℕ
max_printers = 32

pub record Printer : Type 0 where
  pub id : ℕ
  pub name : List ℕ
  pub type : List ℕ
  pub enabled : ℕ
  pub busy : ℕ

-- The printers, and the static `index` of `newPrinter`.
pub record Printers : Type 0 where
  pub printers : List Printer
  pub index : ℕ

pub add_printer : Printer → List Printer → List Printer
add_printer printer [] = printer ∷ []
add_printer printer (first ∷ printers) = first ∷ add_printer printer printers

-- `newPrinter(name, type)`, over the types defined.
pub new_printer :
    Option (List ℕ) → Option (List ℕ) → List FileType → Printers → Option Printer × Printers
unfolding add_printer
new_printer none type types l = (none, l)
new_printer (some name) none types l = (none, l)
new_printer (some name) (some type) types l = elim (get_type type types) [
  | none ↦ (none, l)
  | some t ↦
      if leb max_printers l.index
      then (none, l)
      else (let printer : Printer = record {
        id = l.index;
        name = name;
        type = type;
        enabled = 0;
        busy = 0;
      } in
          (some printer, record { printers = add_printer printer l.printers; index = l.index + 1 }))
]

pub get_printer : List ℕ → List Printer → Option Printer
get_printer name [] = none
get_printer name (printer ∷ printers) =
    if same_string name printer.name then some printer else get_printer name printers

-- A change to the printer that `getPrinter` finds.
pub change_printer : (Printer → Printer) → List ℕ → List Printer → List Printer
change_printer f name [] = []
change_printer f name (printer ∷ printers) =
    if same_string name printer.name
    then f printer ∷ printers
    else printer ∷ change_printer f name printers

abbrev pub disabled : Printer → Printer
disabled printer = if printer.enabled == 0 then printer else record printer { enabled = 0 }

abbrev pub enabled_printer : Printer → Printer
enabled_printer printer = if ltb 0 printer.enabled then printer else record printer { enabled = 1 }

pub disable_printer : List ℕ → List Printer → List Printer
unfolding change_printer
disable_printer name printers = change_printer disabled name printers

pub enable_printer : List ℕ → List Printer → List Printer
unfolding change_printer
enable_printer name printers = change_printer enabled_printer name printers

pub busy_printer : List ℕ → List Printer → List Printer
unfolding change_printer
busy_printer name printers = change_printer (λ printer. record printer { busy = 1 }) name printers

pub free_printer : List ℕ → List Printer → List Printer
unfolding change_printer
free_printer name printers = change_printer (λ printer. record printer { busy = 0 }) name printers

-- The printer that a pointer of a job refers to.
pub printer_at : ℕ → List Printer → Option Printer
printer_at id [] = none
printer_at id (printer ∷ printers) =
    if printer.id == id then some printer else printer_at id printers
