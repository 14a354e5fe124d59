-- ===== src/Printer/Spool/Eligible.antt =====
-- The printer that `getEligiblePrinter` chooses.
use mathlib.Core.Option.{Option, none, some}
use audible.Base.{
  ℕ, ◌≡◌, ◌≢◌, refl, inl, inr, Bool, Bool-cases, true, false, ◌&&◌, ◌||◌, List, [], ◌∷◌, ◌==◌,
  arith,
}
use audible.Printer.Types.{FileType, same_string, get_type, max_conversions}
use audible.Printer.Types.Paths.{Search, get_conversion_path}
use audible.Printer.Types.Paths.Faults.{
  AreDefined, IsNamed, get_conversion_path-no_fault, get_type-IsNamed,
}
use audible.Printer.Printers.{Printer}
use audible.Printer.Printers.Leading.{IsAmong, NoneOf}
use audible.Printer.Jobs.{Job}
use audible.Printer.Spool.{
  Choice, is_usable, first_printer, first_reached, as_choice, or_choice, get_eligible_printer,
}

abbrev pub is_found : Search → Bool
is_found (Search.found path) = true
is_found Search.not_found = false
is_found Search.fault = false

-- A printer can print a file of a type for a job: it is enabled and eligible, and it has that type or the
-- conversions lead to its own.
abbrev pub can_print : List FileType → Job → List ℕ → Printer → Bool
can_print types job type p =
    is_usable job p
    && (same_string p.type type || is_found (get_conversion_path types type p.type max_conversions))

-- The choice among the printers that pass a test.
abbrev pub ChoosesBy : (Printer → Bool) → List Printer → Choice → Type 0
ChoosesBy test printers (Choice.chosen p) = IsAmong p printers × (test p ≡ true)
ChoosesBy test printers Choice.nobody = NoneOf test printers
ChoosesBy test printers Choice.crashed = ⊥

ChoosesBy-cons :
    (test : Printer → Bool) (q : Printer) (printers : List Printer) (choice : Choice)
    → test q ≡ false
    → ChoosesBy test printers choice
    → ChoosesBy test (q ∷ printers) choice
ChoosesBy-cons test q printers (Choice.chosen p) no_q h = (inr h.0, h.1)
ChoosesBy-cons test q printers Choice.nobody no_q h = (no_q, h)
ChoosesBy-cons test q printers Choice.crashed no_q h = h

pub first_printer-ChoosesBy :
    (test : Printer → Bool) (printers : List Printer)
    → ChoosesBy test printers (as_choice (first_printer test printers))
unfolding first_printer
first_printer-ChoosesBy test [] = tt
first_printer-ChoosesBy test (q ∷ printers) = elim (Bool-cases (test q)) [
  | inl e ↦ rw e (inl refl, e)
  | inr e ↦ rw e (
      ChoosesBy-cons test q printers (as_choice (first_printer test printers)) e
        (first_printer-ChoosesBy test printers))
]

-- The test of the second loop.
abbrev reaches : List FileType → Job → List ℕ → Printer → Bool
reaches types job type p =
    is_usable job p && is_found (get_conversion_path types type p.type max_conversions)

reached_turn :
    (test : Printer → Bool) (q : Printer) (printers : List Printer) (rest : Choice) (r : Search)
    → test q ≡ is_found r
    → r ≢ Search.fault
    → ChoosesBy test printers rest
    → ChoosesBy test (q ∷ printers) (elim r [
      | Search.found path ↦ Choice.chosen q
      | Search.not_found ↦ rest
      | Search.fault ↦ Choice.crashed
    ])
reached_turn test q printers rest (Search.found path) e sound h = (inl refl, e)
reached_turn test q printers rest Search.not_found e sound h =
    ChoosesBy-cons test q printers rest e h
reached_turn test q printers rest Search.fault e sound h = absurd (sound refl)

first_reached-ChoosesBy :
    (types : List FileType) (job : Job) (type : List ℕ)
    → AreDefined types
    → get_type type types ≢ none
    → (printers : List Printer)
    → ChoosesBy (reaches types job type) printers (first_reached types job type printers)
unfolding first_reached
first_reached-ChoosesBy types job type defined there [] = tt
first_reached-ChoosesBy types job type defined there (q ∷ printers) =
    elim (Bool-cases (is_usable job q)) [
      | inl e ↦ rw e (
          reached_turn (reaches types job type) q printers (first_reached types job type printers)
            (get_conversion_path types type q.type max_conversions) (ground (arith, e))
            (get_conversion_path-no_fault types type q.type max_conversions defined there)
            (first_reached-ChoosesBy types job type defined there printers))
      | inr e ↦ rw e (
          ChoosesBy-cons (reaches types job type) q printers (first_reached types job type printers)
            (ground (arith, e)) (first_reached-ChoosesBy types job type defined there printers))
    ]

NoneOf-both :
    (test2 test3 test : Printer → Bool)
    → ((p : Printer) → test2 p ≡ false → test3 p ≡ false → test p ≡ false)
    → (printers : List Printer) → NoneOf test2 printers
    → NoneOf test3 printers
    → NoneOf test printers
NoneOf-both test2 test3 test f [] h k = tt
NoneOf-both test2 test3 test f (p ∷ printers) h k =
    (f p h.0 k.0, NoneOf-both test2 test3 test f printers h.1 k.1)

-- The three loops in turn.
three_loops :
    (test1 test2 test3 test : Printer → Bool) (printers : List Printer) (c1 c2 c3 : Choice)
    → ((p : Printer) → test1 p ≡ true → test p ≡ true)
    → ((p : Printer) → test2 p ≡ true → test p ≡ true)
    → ((p : Printer) → test3 p ≡ true → test p ≡ true)
    → ((p : Printer) → test2 p ≡ false → test3 p ≡ false → test p ≡ false)
    → ChoosesBy test1 printers c1
    → ChoosesBy test2 printers c2
    → ChoosesBy test3 printers c3
    → ChoosesBy test printers (or_choice c1 (or_choice c2 c3))
three_loops test1 test2 test3 test printers (Choice.chosen p) c2 c3 f1 f2 f3 f h1 h2 h3 =
    (h1.0, f1 p h1.1)
three_loops test1 test2 test3 test printers Choice.crashed c2 c3 f1 f2 f3 f h1 h2 h3 = absurd h1
three_loops test1 test2 test3 test printers Choice.nobody (Choice.chosen p) c3 f1 f2 f3 f h1 h2 h3 =
    (h2.0, f2 p h2.1)
three_loops test1 test2 test3 test printers Choice.nobody Choice.crashed c3 f1 f2 f3 f h1 h2 h3 =
    absurd h2
three_loops test1 test2 test3 test printers Choice.nobody Choice.nobody (Choice.chosen p) f1 f2 f3 f
      h1 h2 h3 =
    (h3.0, f3 p h3.1)
three_loops test1 test2 test3 test printers Choice.nobody Choice.nobody Choice.nobody f1 f2 f3 f h1
      h2 h3 =
    NoneOf-both test2 test3 test f printers h2 h3
three_loops test1 test2 test3 test printers Choice.nobody Choice.nobody Choice.crashed f1 f2 f3 f h1
      h2 h3 =
    absurd h3

-- What `getEligiblePrinter` promises for the type that it finds.
abbrev pub Chooses : List FileType → Job → List Printer → Option FileType → Choice → Type 0
Chooses types job printers none choice = choice ≡ Choice.nobody
Chooses types job printers (some t) choice = ChoosesBy (can_print types job t.type) printers choice

pub get_eligible_printer-Chooses :
    (types : List FileType) (job : Job) (printers : List Printer)
    → AreDefined types
    → Chooses types job printers
        (get_type job.file_type types)
        (get_eligible_printer types job printers)
unfolding get_eligible_printer
get_eligible_printer-Chooses types job printers defined =
    elim (get_type job.file_type types)
        as (λ x.
          IsNamed types x
          → Chooses types job printers x (elim x as (λ _. Choice) [
            | none ↦ Choice.nobody
            | some t ↦
                or_choice
                  (as_choice (
                    first_printer
                      (λ p. is_usable job p && (p.busy == 0 && same_string p.type t.type))
                      printers))
                  (or_choice (first_reached types job t.type printers) (
                    as_choice
                      (first_printer (λ p. is_usable job p && same_string p.type t.type) printers)))
          ])) [
            | none ↦ λ _. refl
            | some t ↦ λ there.
                let test1 =
                  λ (p : Printer). is_usable job p && (p.busy == 0 && same_string p.type t.type) in
                let test3 = λ (p : Printer). is_usable job p && same_string p.type t.type in
                three_loops test1 (reaches types job t.type) test3 (can_print types job t.type)
                  printers (as_choice (first_printer test1 printers))
                  (first_reached types job t.type printers)
                  (as_choice (first_printer test3 printers)) (λ p e. ground (arith, e))
                  (λ p e. ground (arith, e)) (λ p e. ground (arith, e))
                  (λ p e e'. ground (arith, e, e')) (first_printer-ChoosesBy test1 printers)
                  (first_reached-ChoosesBy types job t.type defined there printers)
                  (first_printer-ChoosesBy test3 printers)
          ]
      (get_type-IsNamed job.file_type types)
