-- ===== src/Audio/Args/Strings.antt =====
-- Comparing an argument with a flag, and searching the arguments for it.
use audible.Base.{ℕ, ◌≡◌, ◌≢◌, ◌⊎◌, inl, inr, Bool-cases, List, [], ◌∷◌, arith, ◌==◌}
use audible.Audio.Args.{CString, flag, compare_flags}

-- A string holds no null.
abbrev pub IsCString : CString → Type 0
IsCString [] = Unit
IsCString (c ∷ s) = (c ≢ 0) × IsCString s

abbrev pub AreCStrings : List CString → Type 0
AreCStrings [] = Unit
AreCStrings (s ∷ argv) = IsCString s × AreCStrings argv

pub compare_flags_self : (c : ℕ) → compare_flags (flag c) (flag c) ≡ 1
unfolding compare_flags
compare_flags_self c = ground arith

pub eq_of_compare_flags :
    (s : CString) (c : ℕ) → c ≢ 0 → IsCString s → compare_flags s (flag c) ≢ 0 → s ≡ flag c
unfolding compare_flags
eq_of_compare_flags [] c hc hs h = absurd (ground arith)
eq_of_compare_flags (a ∷ []) c hc hs h = ground arith
eq_of_compare_flags (a ∷ b ∷ []) c hc hs h = ground arith
eq_of_compare_flags (a ∷ b ∷ d ∷ s) c hc hs h = ground arith

pub compare_flags_ne : (a c : ℕ) → a ≢ c → compare_flags (flag a) (flag c) ≡ 0
unfolding compare_flags
compare_flags_ne a c h = ground arith

-- The first three characters decide, so a comparison of two strings is 1 or 0.
pub flag-cases :
    (s : CString) (c : ℕ) → c ≢ 0 → IsCString s → (s ≡ flag c) ⊎ (compare_flags s (flag c) ≡ 0)
flag-cases s c hc hs = elim (Bool-cases (compare_flags s (flag c) == 0)) [
  | inl e ↦ inr (ground arith)
  | inr e ↦ inl (eq_of_compare_flags s c hc hs (ground arith))
]
