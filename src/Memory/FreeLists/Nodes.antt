-- ===== src/Memory/FreeLists/Nodes.antt =====
-- The list of free lists: looking for a size.
use audible.Base.{
  ℕ, zero, suc, ◌≤◌, ◌<◌, ◌≡◌, ◌≢◌, refl, ap, Bool, true, false, Bool-cases, ◌⊎◌, inl, inr, ◌||◌,
  some, List, [], ◌∷◌, length, leb, ◌==◌, if◌then◌else◌, arith,
}
use audible.Memory.Info.{Heap, Sfutil, node_size, next_node}
use audible.Memory.FreeLists.{
  size_node_loop, get_size_node, get_sentinel_of_size, next_node_of_head,
}

-- From the node `n` on the links lead through `nodes` to `sf_free_list_head`.
abbrev pub NodesFrom : Heap → ℕ → List ℕ → Type 0
NodesFrom h n [] = n ≡ h.free_list_head
NodesFrom h n (x ∷ xs) = (n ≡ x) × (x ≢ h.free_list_head) × NodesFrom h (next_node x h) xs

-- Every node is for blocks larger than `size`.
abbrev pub AreAbove : Heap → ℕ → List ℕ → Type 0
AreAbove h size [] = Unit
AreAbove h size (x ∷ xs) = (size < node_size x h) × AreAbove h size xs

abbrev pub AreIncreasing : Heap → List ℕ → Type 0
AreIncreasing h [] = Unit
AreIncreasing h (x ∷ xs) = AreAbove h (node_size x h) xs × AreIncreasing h xs

-- The list of free lists: its nodes in increasing order of their sizes, with a head of size 0.
pub record IsNodeList (h : Heap) (nodes : List ℕ) : Type 0 where
  pub links : NodesFrom h (next_node_of_head h) nodes
  pub increasing : AreIncreasing h nodes
  pub head_size : node_size h.free_list_head h ≡ 0

-- The first node for blocks of at least the size.
abbrev pub first_fit : ℕ → List ℕ → Heap → ℕ
first_fit size [] h = h.free_list_head
first_fit size (x ∷ xs) h = if leb size (node_size x h) then x else first_fit size xs h

abbrev pub has_size : ℕ → List ℕ → Heap → Bool
has_size size [] h = false
has_size size (x ∷ xs) h = size == node_size x h || has_size size xs h

size_node_loop-first_fit :
    (fuel size n : ℕ) (nodes : List ℕ) (h : Heap)
    → NodesFrom h n nodes
    → length nodes < fuel
    → size_node_loop fuel size n h ≡ some (first_fit size nodes h)
unfolding size_node_loop
size_node_loop-first_fit zero size n nodes h l hf = absurd (omega arith)
size_node_loop-first_fit (suc fuel) size n [] h l hf = ground arith
size_node_loop-first_fit (suc fuel) size n (x ∷ xs) h l hf = ground (
  arith,
  size_node_loop-first_fit fuel size (next_node x h) xs h l.2 (omega arith),
  ap (λ m. next_node m h) l.0,
  ap (λ m. node_size m h) l.0,
)

above_has_none :
    (size : ℕ) (nodes : List ℕ) (h : Heap) → AreAbove h size nodes → has_size size nodes h ≡ false
above_has_none size [] h a = refl
above_has_none size (x ∷ xs) h a = ground (arith, above_has_none size xs h a.1)

above_mono : (a b : ℕ) (nodes : List ℕ) (h : Heap) → a ≤ b → AreAbove h b nodes → AreAbove h a nodes
above_mono a b [] h le k = tt
above_mono a b (x ∷ xs) h le k = (omega (arith, k.0), above_mono a b xs h le k.1)

-- In increasing order, a node has the size sought exactly where the first fit has it.
fit-has_size :
    (size : ℕ) (nodes : List ℕ) (h : Heap)
    → AreIncreasing h nodes
    → node_size h.free_list_head h ≡ 0
    → 0 < size
    → (size == node_size (first_fit size nodes h) h) ≡ has_size size nodes h
fit-has_size size [] h inc e hs = ground arith
fit-has_size size (x ∷ xs) h inc e hs = elim (Bool-cases (leb size (node_size x h))) [
  | inl fits ↦ rw fits (fitting (Bool-cases (size == node_size x h)) fits)
  | inr small ↦ rw small (ground (arith, fit-has_size size xs h inc.1 e hs))
]
  where
    fitting :
        ((size == node_size x h) ≡ true) ⊎ ((size == node_size x h) ≡ false)
        → leb size (node_size x h) ≡ true
        → (size == node_size x h) ≡ (size == node_size x h || has_size size xs h)
    fitting (inl same) fits = rw same
    fitting (inr other) fits =
        let none_above =
          above_has_none size xs h (above_mono size (node_size x h) xs h (ground arith) inc.0) in
        rw (other, none_above)

-- `getSentinelOfSize` finds the node of the size if there is one, and otherwise adds one in front of
-- the first node for larger blocks, where the increasing order wants it.
pub get_sentinel_of_size-has_size :
    (u : Sfutil) (fuel size : ℕ) (nodes : List ℕ) (h : Heap)
    → IsNodeList h nodes
    → length nodes < fuel
    → 0 < size
    → get_sentinel_of_size u fuel size h ≡ (
        if has_size size nodes h
        then some (first_fit size nodes h, h)
        else some (u.add_free_list size (first_fit size nodes h) h))
unfolding get_sentinel_of_size get_size_node
get_sentinel_of_size-has_size u fuel size nodes h l hf hs =
    let found = size_node_loop-first_fit fuel size (next_node_of_head h) nodes h l.links hf in
    ground (arith, found, fit-has_size size nodes h l.increasing l.head_size hs)
