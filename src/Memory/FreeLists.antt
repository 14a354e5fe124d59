-- ===== src/Memory/FreeLists.antt =====
-- The free lists of Memory Manager/src/sfmm.c: circular lists of headers, one for each size, in the
-- circular list of nodes behind `sf_free_list_head`.
pub mod Ring
pub mod Nodes
use audible.Base.{
  ℕ, zero, suc, ◌+◌, ◌≡◌, Bool, true, false, Option, none, some, leb, ◌==◌, if◌then◌else◌,
}
use audible.Memory.Info.{
  Heap, Sfutil, write, next, prev, set_next, set_prev, node_size, head_of, next_node,
}

-- `sf_free_list_head.next`
abbrev pub next_node_of_head : Heap → ℕ
next_node_of_head h = next_node h.free_list_head h

-- The two assignments of `removeHeader`, the second of which reads the links that the first left.
unfoldable pub remove_header : ℕ → Heap → Heap
remove_header p h = let h1 = set_next (prev p h) (next p h) h in set_prev (next p h1) (prev p h1) h1

-- `addHeaderToFreeList(freeHeader, sentinel)`
unfoldable pub add_header_to_free_list : ℕ → ℕ → Heap → Heap
add_header_to_free_list p sentinel h =
    let head = head_of sentinel in
    let h1 = set_next p (next head h) h in
    let h2 = set_prev p head h1 in let h3 = set_prev (next head h2) p h2 in set_next head p h3

-- The loop of `getSizeNode` at `current`; `none` where the fuel does not last to the end.
unfoldable pub size_node_loop : ℕ → ℕ → ℕ → Heap → Option ℕ
size_node_loop zero size current h = none
size_node_loop (suc fuel) size current h =
    let rest = size_node_loop fuel size (next_node current h) h in
    if current == h.free_list_head
    then some h.free_list_head
    else if leb size (node_size current h)
    then some current
    else rest

unfoldable pub get_size_node : ℕ → ℕ → Heap → Option ℕ
unfolding size_node_loop
get_size_node fuel size h = size_node_loop fuel size (next_node h.free_list_head h) h

-- `getSentinelOfSize(newSize)`
unfoldable pub get_sentinel_of_size : Sfutil → ℕ → ℕ → Heap → Option (ℕ × Heap)
unfolding get_size_node
get_sentinel_of_size u fuel new_size h = elim (get_size_node fuel new_size h) [
  | none ↦ none
  | some current ↦
      if new_size == node_size current h
      then some (current, h)
      else some (u.add_free_list new_size current h)
]
