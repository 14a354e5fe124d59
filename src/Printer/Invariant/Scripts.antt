-- ===== src/Printer/Invariant/Scripts.antt =====
-- The scripts of `batchMode`.
use audible.Base.{
  ℕ, zero, suc, ◌-◌, ◌≤◌, ◌≡◌, ◌<◌, false, ◌∙◌, refl, ap, inl, inr, Bool-cases, List, [], ◌∷◌, ◌==◌,
  length, arith,
}
use audible.Printer.Words.{newline}
use audible.Printer.Words.Tokens.{IsFree, join}
use audible.Printer.Console.{Spooler, Outcome}
use audible.Printer.Session.{
  fgets, max_chars, batch_line, with_signals, and_then, batch_loop, run_script,
}

fgets-length : (room : ℕ) (script : List ℕ) → length (fgets room script).1 ≤ length script
unfolding fgets
fgets-length zero script = omega arith
fgets-length (suc room) [] = omega arith
fgets-length (suc room) (c ∷ script) = elim (Bool-cases (c == newline)) [
  | inl e ↦ rw e (omega arith)
  | inr e ↦ rw e (omega (arith, fgets-length room script))
]

longer : (line script : List ℕ) → suc (length script) ≤ length (join line (newline ∷ script))
longer [] script = omega arith
longer (c ∷ line) script = omega (arith, longer line script)

-- A line takes a character off at least.
fgets-shorter :
    (room c : ℕ) (script : List ℕ) → length (fgets (suc room) (c ∷ script)).1 ≤ length script
unfolding fgets
fgets-shorter room c script = elim (Bool-cases (c == newline)) [
  | inl e ↦ rw e (omega arith)
  | inr e ↦ rw e (fgets-length room script)
]

and_then-same :
    (f g : Spooler → Outcome) (outcome : Outcome)
    → ((s : Spooler) → f s ≡ g s)
    → and_then f outcome ≡ and_then g outcome
and_then-same f g (Outcome.continues signals s) h = ap (with_signals signals) (h s)
and_then-same f g (Outcome.exits code) h = refl
and_then-same f g Outcome.crashes h = refl

batch_loop-both :
    (fuel fuel' : ℕ) (fork : ℕ → ℕ) (now : ℕ) (script : List ℕ)
    → length script ≤ fuel
    → length script ≤ fuel'
    → (s : Spooler) → batch_loop fuel fork now script s ≡ batch_loop fuel' fork now script s
unfolding batch_loop
batch_loop-both zero zero fork now script h h' s = refl
batch_loop-both zero (suc fuel') fork now [] h h' s = refl
batch_loop-both (suc fuel) zero fork now [] h h' s = refl
batch_loop-both (suc fuel) (suc fuel') fork now [] h h' s = refl
batch_loop-both zero (suc fuel') fork now (c ∷ script) h h' s = absurd (omega (arith, h))
batch_loop-both (suc fuel) zero fork now (c ∷ script) h h' s = absurd (omega (arith, h'))
batch_loop-both (suc fuel) (suc fuel') fork now (c ∷ script) h h' s =
    let line = fgets (max_chars - 1) (c ∷ script) in
    let less : length line.1 ≤ length script = fgets-shorter 253 c script in
    and_then-same (batch_loop fuel fork now line.1) (batch_loop fuel' fork now line.1)
      (batch_line fork now line.0 s)
      (batch_loop-both fuel fuel' fork now line.1 (omega (arith, less, h))
        (omega (arith, less, h')))

-- The loop of `batchMode` ends on every script: with as much fuel as the script has characters, and with
-- any more of it, the outcome is the same.
pub batch_loop-enough :
    (fuel : ℕ) (fork : ℕ → ℕ) (now : ℕ) (script : List ℕ) (s : Spooler)
    → length script ≤ fuel
    → batch_loop fuel fork now script s ≡ run_script fork now script s
unfolding run_script
batch_loop-enough fuel fork now script s enough =
    batch_loop-both fuel (length script) fork now script enough (omega arith) s

-- Lines of less than 254 characters, none a line end.
abbrev pub AreLines : List (List ℕ) → Type 0
AreLines [] = Unit
AreLines (line ∷ lines) = (IsFree newline line × (length line < 254)) × AreLines lines

-- The lines with their ends.
abbrev pub unlines : List (List ℕ) → List ℕ
unlines [] = []
unlines (line ∷ lines) = join line (newline ∷ unlines lines)

-- The commands on the lines in order.
abbrev pub run_lines : (ℕ → ℕ) → ℕ → List (List ℕ) → Spooler → Outcome
run_lines fork now [] s = Outcome.continues [] s
run_lines fork now (line ∷ lines) s =
    and_then (run_lines fork now lines) (batch_line fork now (join line (newline ∷ [])) s)

fgets-line :
    (room : ℕ) (line script : List ℕ)
    → IsFree newline line
    → length line < room
    → fgets room (join line (newline ∷ script)) ≡ (join line (newline ∷ []), script)
unfolding fgets
fgets-line zero line script free fits = absurd (omega (arith, fits))
fgets-line (suc room) [] script free fits = refl
fgets-line (suc room) (c ∷ line) script free fits =
    let e : (c == newline) ≡ false = ground (arith, free.0) in
    let rest = fgets-line room line script free.1 (omega (arith, fits)) in
    rw e (ap (λ (r : List ℕ × List ℕ). (c ∷ r.0, r.1)) rest)

-- The loop on a script that is not at its end.
batch_loop-step :
    (fuel : ℕ) (fork : ℕ → ℕ) (now : ℕ) (line script : List ℕ) (s : Spooler)
    → batch_loop (suc fuel) fork now (join line (newline ∷ script)) s ≡ (
        let next = fgets 254 (join line (newline ∷ script)) in
        and_then (batch_loop fuel fork now next.1) (batch_line fork now next.0 s))
unfolding batch_loop
batch_loop-step fuel fork now [] script s = refl
batch_loop-step fuel fork now (c ∷ line) script s = refl

batch_loop-lines :
    (fuel : ℕ) (fork : ℕ → ℕ) (now : ℕ) (lines : List (List ℕ))
    → AreLines lines
    → length (unlines lines) ≤ fuel
    → (s : Spooler) → batch_loop fuel fork now (unlines lines) s ≡ run_lines fork now lines s
unfolding batch_loop
batch_loop-lines zero fork now [] h enough s = refl
batch_loop-lines (suc fuel) fork now [] h enough s = refl
batch_loop-lines zero fork now (line ∷ lines) h enough s =
    absurd (omega (arith, enough, longer line (unlines lines)))
batch_loop-lines (suc fuel) fork now (line ∷ lines) h enough s =
    batch_loop-step fuel fork now line (unlines lines) s
    ∙ ap (λ next. and_then (batch_loop fuel fork now next.1) (batch_line fork now next.0 s))
        (fgets-line 254 line (unlines lines) h.0.0 h.0.1)
    ∙ and_then-same (batch_loop fuel fork now (unlines lines)) (run_lines fork now lines) _ (
        batch_loop-lines fuel fork now lines h.1
          (omega (arith, enough, longer line (unlines lines))))

-- A script of lines that have less than 254 characters runs as the commands on its lines, one after the other:
-- the signals of each come before those of the next, and the first to exit or crash ends the run.
pub run_script-lines :
    (fork : ℕ → ℕ) (now : ℕ) (lines : List (List ℕ)) (s : Spooler)
    → AreLines lines
    → run_script fork now (unlines lines) s ≡ run_lines fork now lines s
unfolding run_script
run_script-lines fork now lines s h =
    batch_loop-lines (length (unlines lines)) fork now lines h (omega arith) s
