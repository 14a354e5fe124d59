-- ===== src/Store/Registry.antt =====
-- Server Store/src/client_registry.c. The registry's semaphore and mutex make each function one step,
-- so a state is the list of slots with the count; a slot holds a file descriptor or -1, as an `int`.
-- `creg_fini` frees the registry and is not modelled.
pub mod Laws
pub mod Reachable
use audible.Base.{
  ℕ, zero, suc, ◌+◌, Bool, true, false, List, [], ◌∷◌, ◌==◌, ltb, not, if◌then◌else◌, add32, sub32,
  lts, minus_one, is_negative,
}

pub record ClientRegistry : Type 0 where
  pub clients : ℕ
  pub client_list : List ℕ

abbrev pub max_clients : ℕ
max_clients = 1024

-- The loop of `initClientList`, with `n` slots left.
abbrev pub free_slots : ℕ → List ℕ
free_slots zero = []
free_slots (suc n) = minus_one ∷ free_slots n

pub init_client_list : List ℕ
init_client_list = free_slots max_clients

unfoldable pub creg_init : ClientRegistry
unfolding init_client_list
creg_init = record { clients = 0; client_list = init_client_list }

-- The loop shared by `creg_register` and `creg_unregister`: put `new` into the first slot that holds
-- `old`, and tell whether there was one.
pub replace_first : ℕ → ℕ → List ℕ → Bool × List ℕ
replace_first old new [] = (false, [])
replace_first old new (slot ∷ slots) =
    let (found, rest) = replace_first old new slots in
    if slot == old then (true, new ∷ slots) else (found, slot ∷ rest)

pub creg_register : ℕ → ClientRegistry → ClientRegistry
creg_register fd cr =
    let (found, slots) = replace_first minus_one fd cr.client_list in
    record { clients = if found then add32 cr.clients 1 else cr.clients; client_list = slots }

pub creg_unregister : ℕ → ClientRegistry → ClientRegistry
creg_unregister fd cr =
    let (found, slots) = replace_first fd minus_one cr.client_list in
    record { clients = if found then sub32 cr.clients 1 else cr.clients; client_list = slots }

-- `creg_wait_for_empty` leaves its loop exactly in a state with this test.
unfoldable pub is_empty : ClientRegistry → Bool
is_empty cr = not (lts 0 cr.clients)

-- The file descriptors that `creg_shutdown_all` shuts down, in order.
pub creg_shutdown_all : List ℕ → List ℕ
creg_shutdown_all [] = []
creg_shutdown_all (slot ∷ slots) =
    let rest = creg_shutdown_all slots in if lts minus_one slot then slot ∷ rest else rest
