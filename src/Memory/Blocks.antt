-- ===== src/Memory/Blocks.antt =====
-- The block infos of Memory Manager/src/sfmm.c: their addresses and how they are set up.
pub mod Size
use audible.Base.{
  ℕ, ◌+◌, ◌-◌, ◌*◌, ◌/◌, ◌%◌, ◌^◌, ◌≡◌, Bool, true, false, ◌==◌, if◌then◌else◌, not, u32, add32,
  lts,
}
use audible.Memory.Info.{
  Heap, allocated, prev_allocated, block_size, requested_size, with_allocated, with_prev_allocated,
  with_block_size, with_requested_size, set_info,
}

abbrev pub min_sz : ℕ
min_sz = 32

abbrev pub alignment : ℕ
alignment = 16

-- `size` is a `size_t`, the result an `int`.
unfoldable pub get_new_size : ℕ → ℕ
get_new_size size =
    let new_size = u32 (8 + size) in
    if lts min_sz new_size
    then if not (new_size % alignment == 0)
      then add32 new_size (alignment - new_size % alignment)
      else new_size
    else min_sz

-- `block_size << 4`, an `int`.
abbrev pub bytes_of : ℕ → ℕ
bytes_of v = u32 (block_size v * 2 ^ 4)

-- The info that `setFreeHeader` and `setFooter` leave in place of `v`.
abbrev pub free_info : ℕ → ℕ → ℕ
free_info size v =
    with_requested_size 0
      (with_block_size (size / 2 ^ 4) (with_prev_allocated 1 (with_allocated 0 v)))

unfoldable pub set_free_header : ℕ → ℕ → Heap → Heap
set_free_header free_header size h = set_info (free_info size) free_header h

unfoldable pub set_footer : ℕ → ℕ → Heap → Heap
set_footer free_footer size h = set_info (free_info size) free_footer h

unfoldable pub get_footer_pointer : ℕ → Heap → ℕ
get_footer_pointer free_header h = free_header + block_size (h.row free_header) * 2 - 1

unfoldable pub get_header_pointer : ℕ → Heap → ℕ
get_header_pointer free_footer h = free_footer + 1 - block_size (h.row free_footer) * 2

unfoldable pub get_next_header_pointer : ℕ → Heap → ℕ
get_next_header_pointer hp h = hp + block_size (h.row hp) * 2

unfoldable pub get_payload_header : ℕ → ℕ
get_payload_header pp = pp - 1
