-- ===== src/Memory/Alloc/Check.antt =====
-- Which calls do not return: pointers that `sf_abort` rejects, and requests that no free block fits.
use audible.Base.{ℕ, zero, suc, ◌<◌, ◌≡◌, ◌≢◌, ap, none, some, List, [], ◌∷◌, length, arith}
use audible.Memory.Info.{Heap, Sfutil, node_size, next_node}
use audible.Memory.Blocks.{get_new_size}
use audible.Memory.FreeLists.{next_node_of_head}
use audible.Memory.FreeLists.Nodes.{NodesFrom}
use audible.Memory.Grow.{uninitialised}
use audible.Memory.Alloc.{size_of_int, find_block, first_block, sf_malloc}

-- Every node is for blocks smaller than `size`.
abbrev pub AreBelow : Heap → ℕ → List ℕ → Type 0
AreBelow h size [] = Unit
AreBelow h size (x ∷ xs) = (node_size x h < size) × AreBelow h size xs

find_block_misses :
    (fuel new_size n : ℕ) (nodes : List ℕ) (h : Heap)
    → NodesFrom h n nodes
    → AreBelow h (size_of_int new_size) nodes
    → length nodes < fuel
    → find_block fuel new_size n none h ≡ some (h.free_list_head, none)
unfolding find_block
find_block_misses zero new_size n nodes h l b hf = absurd (omega arith)
find_block_misses (suc fuel) new_size n [] h l b hf = ground arith
find_block_misses (suc fuel) new_size n (x ∷ xs) h l b hf = ground (
  arith,
  find_block_misses fuel new_size (next_node x h) xs h l.2 b.1 (omega arith),
  ap (λ m. next_node m h) l.0,
  ap (λ m. node_size m h) l.0,
)

first_block_misses :
    (u : Sfutil) (fuel new_size : ℕ) (nodes : List ℕ) (h : Heap)
    → h.mem_start ≢ h.mem_end
    → NodesFrom h (next_node_of_head h) nodes
    → AreBelow h (size_of_int new_size) nodes
    → length nodes < fuel
    → first_block u fuel new_size h ≡ uninitialised
unfolding first_block
first_block_misses u fuel new_size nodes h hm l b hf =
    ground (arith, find_block_misses fuel new_size (next_node_of_head h) nodes h l b hf)

-- On a heap in use, `sf_malloc` goes through a pointer that it never set wherever every node of the
-- list of free lists is for blocks too small; in particular where there is no node.
pub sf_malloc-uninitialised :
    (u : Sfutil) (fuel size : ℕ) (nodes : List ℕ) (h : Heap)
    → size ≢ 0
    → h.mem_start ≢ h.mem_end
    → NodesFrom h (next_node_of_head h) nodes
    → AreBelow h (size_of_int (get_new_size size)) nodes
    → length nodes < fuel
    → sf_malloc u fuel size h ≡ uninitialised
unfolding sf_malloc
sf_malloc-uninitialised u fuel size nodes h hs hm l b hf =
    ground (arith, first_block_misses u fuel (get_new_size size) nodes h hm l b hf)
