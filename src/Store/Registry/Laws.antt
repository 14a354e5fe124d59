-- ===== src/Store/Registry/Laws.antt =====
-- The registry keeps its count, and keeps exactly the registered descriptors.
use audible.Base.{
  ℕ, suc, ◌+◌, ◌-◌, ◌^◌, ◌≤◌, ◌<◌, ◌≡◌, ◌≢◌, refl, ◌⊎◌, inl, inr, Bool-cases, List, [], ◌∷◌, arith,
  ltb, ◌==◌, if◌then◌else◌, ◌&&◌, minus_one, length,
}
use audible.Store.Registry.{ClientRegistry, max_clients, replace_first}

-- How many slots hold `fd`.
abbrev pub count : ℕ → List ℕ → ℕ
count fd [] = 0
count fd (slot ∷ slots) = if slot == fd then suc (count fd slots) else count fd slots

-- The slots in use.
abbrev pub in_use : List ℕ → ℕ
in_use [] = 0
in_use (slot ∷ slots) = if slot == minus_one then in_use slots else suc (in_use slots)

-- Every slot is free or holds a descriptor that is not negative.
abbrev pub AreSlots : List ℕ → Type 0
AreSlots [] = Unit
AreSlots (slot ∷ slots) = ((slot ≡ minus_one) ⊎ (slot < 2 ^ 31)) × AreSlots slots

pub record IsRegistry (cr : ClientRegistry) : Type 0 where
  pub size : length cr.client_list ≡ max_clients
  pub counted : cr.clients ≡ in_use cr.client_list
  pub slots : AreSlots cr.client_list

pub slots_split : (slots : List ℕ) → count minus_one slots + in_use slots ≡ length slots
slots_split [] = refl
slots_split (slot ∷ slots) = ground (arith, slots_split slots)

pub count-in_use : (fd : ℕ) (slots : List ℕ) → fd < 2 ^ 31 → count fd slots ≤ in_use slots
count-in_use fd [] hf = omega arith
count-in_use fd (slot ∷ slots) hf = ground (arith, count-in_use fd slots hf)

pub length-replace_first :
    (old new : ℕ) (slots : List ℕ) → length (replace_first old new slots).1 ≡ length slots
unfolding replace_first
length-replace_first old new [] = refl
length-replace_first old new (slot ∷ slots) = ground (arith, length-replace_first old new slots)

pub replace_first-AreSlots :
    (old new : ℕ) (slots : List ℕ)
    → ((new ≡ minus_one) ⊎ (new < 2 ^ 31))
    → AreSlots slots
    → AreSlots (replace_first old new slots).1
unfolding replace_first
replace_first-AreSlots old new [] hn hs = tt
replace_first-AreSlots old new (slot ∷ slots) hn hs = elim (Bool-cases (slot == old)) [
  | inl e ↦ rw e (hn, hs.1)
  | inr e ↦ rw e (hs.0, replace_first-AreSlots old new slots hn hs.1)
]

-- Whether a slot with `old` is there.
pub replace_first-found :
    (old new : ℕ) (slots : List ℕ) → (replace_first old new slots).0 ≡ ltb 0 (count old slots)
unfolding replace_first
replace_first-found old new [] = refl
replace_first-found old new (slot ∷ slots) = ground (arith, replace_first-found old new slots)

pub taken :
    (new : ℕ) (slots : List ℕ)
    → new < 2 ^ 31
    → in_use (replace_first minus_one new slots).1
      ≡ (if ltb 0 (count minus_one slots) then suc (in_use slots) else in_use slots)
unfolding replace_first
taken new [] hn = refl
taken new (slot ∷ slots) hn = ground (arith, taken new slots hn)

pub released :
    (old : ℕ) (slots : List ℕ)
    → old < 2 ^ 31
    → in_use (replace_first old minus_one slots).1
      ≡ (if ltb 0 (count old slots) then in_use slots - 1 else in_use slots)
unfolding replace_first
released old [] hn = refl
released old (slot ∷ slots) hn = ground (arith, released old slots hn, count-in_use old slots hn)

-- The other descriptors keep their slots.
pub replace_first-count :
    (old new fd : ℕ) (slots : List ℕ)
    → fd ≢ old
    → count fd (replace_first old new slots).1
      ≡ (if new == fd && ltb 0 (count old slots) then suc (count fd slots) else count fd slots)
unfolding replace_first
replace_first-count old new fd [] hn = ground arith
replace_first-count old new fd (slot ∷ slots) hn =
    ground (arith, replace_first-count old new fd slots hn)

pub replace_first-count_old :
    (old new : ℕ) (slots : List ℕ)
    → new ≢ old
    → count old (replace_first old new slots).1 ≡ count old slots - 1
unfolding replace_first
replace_first-count_old old new [] hn = refl
replace_first-count_old old new (slot ∷ slots) hn =
    ground (arith, replace_first-count_old old new slots hn)
