-- ===== src/Memory/Tests.antt =====
-- Concrete runs of the theorems on Memory Manager/src.
use audible.Base.{
  ℕ, ◌+◌, ◌-◌, ◌*◌, ◌%◌, ◌≤◌, ◌≡◌, ◌≢◌, refl, Option, none, some, [], ◌∷◌, arith, ◌==◌, leb,
  if◌then◌else◌,
}
use audible.Memory.Info.{Heap, Sfutil, write, set_next, set_prev, head_of}
use audible.Memory.Blocks.{get_new_size}
use audible.Memory.Blocks.Size.{get_new_size_least}
use audible.Memory.FreeLists.{remove_header, add_header_to_free_list, get_sentinel_of_size}
use audible.Memory.FreeLists.Ring.{IsRing, add_header-IsRing}
use audible.Memory.FreeLists.Ring.Remove.{remove_header-IsRing}
use audible.Memory.FreeLists.Nodes.{IsNodeList, get_sentinel_of_size-has_size}
use audible.Memory.Grow.{uninitialised, mem_init, coalesce, epilogue}
use audible.Memory.Grow.Tiles.{Tiles, IsFree, IsFence, coalesce-Tiles, mem_init-Tiles}
use audible.Memory.Alloc.{sf_malloc, take_block}
use audible.Memory.Alloc.Take.{HandsOut, take_block-HandsOut}
use audible.Memory.Alloc.Check.{sf_malloc-uninitialised}

-- The object file: at most eight pages, and nodes side by side below the heap.
abbrev grow_page : Heap → Option Heap
grow_page h =
    if leb (h.mem_end - h.mem_start) (7 * 512)
    then some (record h { mem_end = h.mem_end + 512 })
    else none

-- The address of the last node made is kept in row 1.
abbrev insert_node : ℕ → ℕ → Heap → ℕ × Heap
insert_node size before h =
    let node = h.row 1 + 6 in
    let back = h.row (before + 5) in
    let h1 = write node size (write 1 node h) in
    let h2 = set_prev (head_of node) (head_of node) (set_next (head_of node) (head_of node) h1) in
    let h3 = write (node + 5) back (write (node + 4) before h2) in
    (node, write (back + 4) node (write (before + 5) node h3))

abbrev util : Sfutil
util = record { mem_grow = grow_page; add_free_list = insert_node }

-- `sf_free_list_head` stands at row 10.
abbrev fresh : Heap
fresh = record {
  row = λ a. if a == 1 then 10 else if a == 14 then 10 else if a == 15 then 10 else 0;
  mem_start = 1000;
  mem_end = 1000;
  free_list_head = 10;
  errno = 0;
}

get_new_size_least_example :
    (get_new_size 100 % 16 ≡ 0)
    × (32 ≤ get_new_size 100)
    × (100 + 8 ≤ get_new_size 100)
    × (128 % 16 ≡ 0 → 32 ≤ 128 → 100 + 8 ≤ 128 → get_new_size 100 ≤ 128)
get_new_size_least_example = get_new_size_least 100 128 (omega arith)

-- One free list, empty: its node stands at row 20.
abbrev one_node : Heap
one_node = record {
  row = λ a.
      if a == 14
      then 20
      else if a == 15
      then 20
      else if a == 20
      then 32
      else if a == 22
      then 21
      else if a == 23
      then 21
      else if a == 24
      then 10
      else if a == 25
      then 10
      else 0;
  mem_start = 1000;
  mem_end = 1512;
  free_list_head = 10;
  errno = 0;
}

empty-IsRing : IsRing one_node (head_of 20) []
empty-IsRing = record { chain = (refl, refl); headers = (omega arith, tt); distinct = (tt, tt) }

add_header-IsRing_example :
    IsRing (add_header_to_free_list 1005 20 one_node) (head_of 20) (1005 ∷ [])
add_header-IsRing_example =
    add_header-IsRing 1005 20 [] one_node empty-IsRing (omega arith) ((λ e. omega arith), tt)

remove_header-IsRing_example :
    IsRing (remove_header 1005 (add_header_to_free_list 1005 20 one_node)) (head_of 20) []
remove_header-IsRing_example =
    remove_header-IsRing (head_of 20) 1005 [] [] (add_header_to_free_list 1005 20 one_node)
      (add_header-IsRing 1005 20 [] one_node empty-IsRing (omega arith) ((λ e. omega arith), tt))

one_node-IsNodeList : IsNodeList one_node (20 ∷ [])
one_node-IsNodeList = record {
  links = (refl, (λ e. omega arith), refl);
  increasing = (tt, tt);
  head_size = refl;
}

get_sentinel_of_size-has_size_example :
    get_sentinel_of_size util 3 32 one_node ≡ some (20, one_node)
get_sentinel_of_size-has_size_example =
    get_sentinel_of_size-has_size util 3 32 (20 ∷ []) one_node one_node-IsNodeList (omega arith)
      (omega arith)

size_of_100 : get_new_size 100 ≡ 112
unfolding get_new_size
size_of_100 = refl

sf_malloc-uninitialised_example : sf_malloc util 3 100 one_node ≡ uninitialised
unfolding get_new_size
sf_malloc-uninitialised_example =
    sf_malloc-uninitialised util 3 100 (20 ∷ []) one_node (λ e. omega arith) (λ e. omega arith)
      (refl, (λ e. omega arith), refl) (omega arith, tt) (omega arith)

-- Two blocks of 32 bytes and a third of 64.
abbrev three_blocks : Heap
three_blocks = record one_node {
  row = λ a.
      if a == 1005 then 32 + 3 else if a == 1009 then 32 + 3 else if a == 1013 then 64 + 3 else 0;
}

coalesce-Tiles_example :
    let g = coalesce 1005 (2 * 16) three_blocks in
    Tiles g 1005 (4 ∷ 4 ∷ []) 1021
    × IsFree g 1005 4
    × ((q : ℕ) → q ≢ 1005 → q ≢ 1012 → g.row q ≡ three_blocks.row q)
coalesce-Tiles_example =
    coalesce-Tiles 1005 2 2 1021 (4 ∷ []) three_blocks (omega arith) (omega arith)

abbrev grown : Heap
grown = record fresh { mem_end = 1512 }

mem_init-Tiles_example :
    let p = grown.mem_start + 5 in
    let g = (mem_init util fresh).1 in
    ((mem_init util fresh).0 ≡ some p)
    × Tiles g p (253 ∷ []) (epilogue grown)
    × IsFree g p 253
    × IsFence 3 (g.row (grown.mem_start + 1))
    × IsFence 3 (g.row (grown.mem_start + 4))
    × IsFence 0 (g.row (epilogue grown))
mem_init-Tiles_example = mem_init-Tiles util fresh grown refl refl refl

-- A block of 48 bytes for a request of 24, with one of 32 bytes behind it.
abbrev roomy : Heap
roomy = record fresh { row = λ q. if q == 5 then 48 else if q == 11 then 32 else 0 }

take_block-HandsOut_example : HandsOut 24 5 3 (2 ∷ []) 15 (take_block util 3 24 32 5 roomy)
take_block-HandsOut_example =
    take_block-HandsOut util 3 24 32 5 3 15 (2 ∷ []) roomy
      (refl, omega arith, (refl, omega arith, refl)) (omega arith) (omega arith) (omega arith)
      (omega arith)
