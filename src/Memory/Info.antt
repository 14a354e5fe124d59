-- ===== src/Memory/Info.antt =====
-- The rows of memory, and `sf_block_info`, `sf_header`, `sf_free_list_node` and the globals of
-- Memory Manager/include/sfmm.h.
use audible.Base.{ℕ, ◌+◌, ◌*◌, ◌/◌, ◌%◌, ◌^◌, Option, ◌==◌, if◌then◌else◌}

-- The memory with `sf_mem_start()`, `sf_mem_end()`, the address of `sf_free_list_head`, and `sf_errno`.
pub record Heap : Type 0 where
  pub row : ℕ → ℕ
  pub mem_start : ℕ
  pub mem_end : ℕ
  pub free_list_head : ℕ
  pub errno : ℕ

abbrev pub enomem : ℕ
enomem = 12

-- What the prebuilt object file provides: a heap that is longer by a page, or `none`; and the address
-- of a new node of the given size in front of the given one.
pub record Sfutil : Type 0 where
  pub mem_grow : Heap → Option Heap
  pub add_free_list : ℕ → ℕ → Heap → ℕ × Heap

abbrev pub write : ℕ → ℕ → Heap → Heap
write a v h = record h { row = λ q. if q == a then v else h.row q }

-- The fields of a block info.
abbrev pub allocated : ℕ → ℕ
allocated v = v % 2

abbrev pub prev_allocated : ℕ → ℕ
prev_allocated v = v / 2 % 2

abbrev pub block_size : ℕ → ℕ
block_size v = v / 2 ^ 4 % 2 ^ 28

abbrev pub requested_size : ℕ → ℕ
requested_size v = v / 2 ^ 32 % 2 ^ 32

-- A row with one field set; what does not fit the field is cut off.
abbrev pub with_allocated : ℕ → ℕ → ℕ
with_allocated b v = v / 2 * 2 + b % 2

abbrev pub with_prev_allocated : ℕ → ℕ → ℕ
with_prev_allocated b v = v / 4 * 4 + b % 2 * 2 + v % 2

abbrev pub with_block_size : ℕ → ℕ → ℕ
with_block_size s v = v / 2 ^ 32 * 2 ^ 32 + s % 2 ^ 28 * 2 ^ 4 + v % 2 ^ 4

abbrev pub with_requested_size : ℕ → ℕ → ℕ
with_requested_size r v = v / 2 ^ 64 * 2 ^ 64 + r % 2 ^ 32 * 2 ^ 32 + v % 2 ^ 32

-- An assignment to a field of the info at an address.
abbrev pub set_info : (ℕ → ℕ) → ℕ → Heap → Heap
set_info f a h = write a (f (h.row a)) h

-- The links of a header.
abbrev pub next : ℕ → Heap → ℕ
next p h = h.row (p + 1)

abbrev pub prev : ℕ → Heap → ℕ
prev p h = h.row (p + 2)

abbrev pub set_next : ℕ → ℕ → Heap → Heap
set_next p q h = write (p + 1) q h

abbrev pub set_prev : ℕ → ℕ → Heap → Heap
set_prev p q h = write (p + 2) q h

-- A node of the list of free lists: its size, its `head`, and the node behind it.
abbrev pub node_size : ℕ → Heap → ℕ
node_size n h = h.row n

abbrev pub head_of : ℕ → ℕ
head_of n = n + 1

abbrev pub next_node : ℕ → Heap → ℕ
next_node n h = h.row (n + 4)
