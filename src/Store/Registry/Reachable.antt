-- ===== src/Store/Registry/Reachable.antt =====
-- The registry over a run: what each function does to the set of registered descriptors, and what holds
-- in every state that is reached.
use audible.Base.{
  ℕ, zero, suc, ◌-◌, ◌^◌, ◌<◌, ◌≡◌, refl, ◌∙◌, sym, ◌↔◌, inl, inr, true, List, [], ◌∷◌, arith, ltb,
  ◌==◌, if◌then◌else◌, ◌&&◌, minus_one, length,
}
use audible.Store.Registry.{
  ClientRegistry, max_clients, free_slots, init_client_list, creg_init, creg_register,
  creg_unregister, creg_shutdown_all, is_empty,
}
use audible.Store.Registry.Laws.{
  count, in_use, AreSlots, IsRegistry, slots_split, count-in_use, length-replace_first,
  replace_first-AreSlots, replace_first-found, taken, released, replace_first-count,
  replace_first-count_old,
}

length-free_slots : (n : ℕ) → length (free_slots n) ≡ n
length-free_slots zero = refl
length-free_slots (suc n) = omega (arith, length-free_slots n)

in_use-free_slots : (n : ℕ) → in_use (free_slots n) ≡ 0
in_use-free_slots zero = refl
in_use-free_slots (suc n) = in_use-free_slots n

free_slots-AreSlots : (n : ℕ) → AreSlots (free_slots n)
free_slots-AreSlots zero = tt
free_slots-AreSlots (suc n) = (inl refl, free_slots-AreSlots n)

pub creg_init-IsRegistry : IsRegistry creg_init
unfolding creg_init init_client_list
creg_init-IsRegistry = record {
  size = length-free_slots max_clients;
  counted = omega (arith, in_use-free_slots max_clients);
  slots = free_slots-AreSlots max_clients;
}

pub creg_init-clients : creg_init.clients ≡ 0
unfolding creg_init
creg_init-clients = refl

creg_register-IsRegistry :
    (fd : ℕ) (cr : ClientRegistry) → fd < 2 ^ 31 → IsRegistry cr → IsRegistry (creg_register fd cr)
unfolding creg_register
creg_register-IsRegistry fd cr hf h = record {
  size = length-replace_first minus_one fd cr.client_list ∙ h.size;
  counted = ground (
    arith,
    replace_first-found minus_one fd cr.client_list,
    taken fd cr.client_list hf,
    h.counted,
    h.size,
    slots_split cr.client_list,
  );
  slots = replace_first-AreSlots minus_one fd cr.client_list (inr hf) h.slots;
}

creg_unregister-IsRegistry :
    (fd : ℕ) (cr : ClientRegistry)
    → fd < 2 ^ 31
    → IsRegistry cr
    → IsRegistry (creg_unregister fd cr)
unfolding creg_unregister
creg_unregister-IsRegistry fd cr hf h = record {
  size = length-replace_first fd minus_one cr.client_list ∙ h.size;
  counted = ground (
    arith,
    replace_first-found fd minus_one cr.client_list,
    released fd cr.client_list hf,
    h.counted,
    h.size,
    slots_split cr.client_list,
    count-in_use fd cr.client_list hf,
  );
  slots = replace_first-AreSlots fd minus_one cr.client_list (inl refl) h.slots;
}

-- The states that calls with descriptors that are not negative lead to.
pub data Reachable : ClientRegistry → Type 0 where
  init : Reachable creg_init
  register :
      (fd : ℕ) (cr : ClientRegistry) → Reachable cr → fd < 2 ^ 31 → Reachable (creg_register fd cr)
  unregister :
      (fd : ℕ) (cr : ClientRegistry)
      → Reachable cr
      → fd < 2 ^ 31
      → Reachable (creg_unregister fd cr)

-- In every reachable state there are 1024 slots, each free or with a descriptor that is not negative,
-- and the count of clients is the number of slots in use.
pub Reachable-IsRegistry : {cr : ClientRegistry} → Reachable cr → IsRegistry cr
Reachable-IsRegistry Reachable.init = creg_init-IsRegistry
Reachable-IsRegistry (Reachable.register fd cr r hf) =
    creg_register-IsRegistry fd cr hf (Reachable-IsRegistry r)
Reachable-IsRegistry (Reachable.unregister fd cr r hf) =
    creg_unregister-IsRegistry fd cr hf (Reachable-IsRegistry r)

-- For descriptors that are not negative, registering `fd` adds one slot with `fd` and touches no other descriptor, as long as there are
-- fewer than 1024 clients; otherwise the descriptor is lost and nothing changes.
pub creg_register-count :
    (fd other : ℕ) (cr : ClientRegistry)
    → fd < 2 ^ 31
    → other < 2 ^ 31
    → IsRegistry cr
    → count other (creg_register fd cr).client_list ≡ (
        if fd == other && ltb cr.clients max_clients
        then suc (count other cr.client_list)
        else count other cr.client_list)
unfolding creg_register
creg_register-count fd other cr hf ho h = ground (
  arith,
  replace_first-count minus_one fd other cr.client_list (omega arith),
  slots_split cr.client_list,
  h.counted,
  h.size,
)

-- Unregistering `fd` takes away one slot with `fd`, if there is one, and touches no other descriptor.
pub creg_unregister-count :
    (fd other : ℕ) (cr : ClientRegistry)
    → fd < 2 ^ 31
    → other < 2 ^ 31
    → count other (creg_unregister fd cr).client_list
      ≡ (if fd == other then count other cr.client_list - 1 else count other cr.client_list)
unfolding creg_unregister
creg_unregister-count fd other cr hf ho = ground (
  arith,
  replace_first-count fd minus_one other cr.client_list,
  replace_first-count_old fd minus_one cr.client_list,
)

count-shutdown :
    (fd : ℕ) (slots : List ℕ) → fd < 2 ^ 31 → count fd (creg_shutdown_all slots) ≡ count fd slots
unfolding creg_shutdown_all
count-shutdown fd [] hf = refl
count-shutdown fd (slot ∷ slots) hf = ground (arith, count-shutdown fd slots hf)

shutdown-length :
    (slots : List ℕ) → AreSlots slots → length (creg_shutdown_all slots) ≡ in_use slots
unfolding creg_shutdown_all
shutdown-length [] hs = refl
shutdown-length (slot ∷ slots) hs = ground (arith, shutdown-length slots hs.1, hs.0)

-- `creg_shutdown_all` shuts down each registered descriptor once for every slot that holds it, and
-- makes as many calls as there are clients.
pub creg_shutdown_all-count :
    (fd : ℕ) (cr : ClientRegistry)
    → fd < 2 ^ 31
    → IsRegistry cr
    → (count fd (creg_shutdown_all cr.client_list) ≡ count fd cr.client_list)
      × (length (creg_shutdown_all cr.client_list) ≡ cr.clients)
creg_shutdown_all-count fd cr hf h =
    (count-shutdown fd cr.client_list hf, shutdown-length cr.client_list h.slots ∙ sym h.counted)

in_use-zero :
    (slots : List ℕ)
    → AreSlots slots
    → ((fd : ℕ) → fd < 2 ^ 31 → count fd slots ≡ 0)
    → in_use slots ≡ 0
in_use-zero [] hs none = refl
in_use-zero (slot ∷ slots) hs none = elim hs.0 [
  | inl e ↦ ground (arith, in_use-zero slots hs.1 (λ fd hf. ground (arith, none fd hf)))
  | inr e ↦ absurd (ground (arith, none slot e))
]

-- The test that ends `creg_wait_for_empty` holds exactly where no descriptor is registered.
pub is_empty_iff :
    (cr : ClientRegistry)
    → IsRegistry cr
    → (is_empty cr ≡ true) ↔ ((fd : ℕ) → fd < 2 ^ 31 → count fd cr.client_list ≡ 0)
unfolding is_empty
is_empty_iff cr h = (
  λ e fd hf.
      ground
        (arith, h.counted, h.size, slots_split cr.client_list, count-in_use fd cr.client_list hf),
  λ none. ground (arith, h.counted, in_use-zero cr.client_list h.slots none),
)
