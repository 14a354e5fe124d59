-- ===== src/Memory/Alloc.antt =====
-- `sf_malloc`, `sf_free` and `sf_realloc` of Memory Manager/src/sfmm.c.
--
-- A pointer to a payload is the address of the row behind a header. Fuel bounds the walks over the
-- nodes of the free lists and the number of pages that one call adds.
pub mod Check
pub mod Take
use audible.Base.{
  ℕ, zero, suc, ◌+◌, ◌-◌, ◌*◌, ◌/◌, ◌%◌, ◌^◌, ◌≡◌, Bool, true, false, ◌||◌, ◌&&◌, Option, none,
  some, ltb, leb, ◌==◌, if◌then◌else◌, not, u32, sub32, lts, is_negative,
}
use audible.Memory.Info.{
  Heap, Sfutil, set_info, next, next_node, node_size, head_of, allocated, prev_allocated,
  block_size, requested_size, with_allocated, with_prev_allocated, with_block_size,
  with_requested_size, enomem,
}
use audible.Memory.Blocks.{
  min_sz, get_new_size, bytes_of, set_free_header, set_footer, get_footer_pointer,
  get_header_pointer, get_next_header_pointer, get_payload_header,
}
use audible.Memory.FreeLists.{remove_header, next_node_of_head}
use audible.Memory.Grow.{
  Run, done, aborted, uninitialised, out_of_fuel, ◌>>=◌, mem_init, mem_grow, coalesce,
  add_free_block, epilogue,
}

-- An `int` as a `size_t`.
abbrev pub size_of_int : ℕ → ℕ
size_of_int n = if is_negative n then n + 2 ^ 64 - 2 ^ 32 else n

-- `splitBlock(allocHeader, newSize)`: the free block, or `none` for NULL.
pub split_block : Sfutil → ℕ → ℕ → ℕ → Heap → Run (Option ℕ)
unfolding set_free_header set_footer get_footer_pointer get_next_header_pointer remove_header
    coalesce add_free_block
split_block u fuel alloc_header new_size h =
    if ltb new_size min_sz
    then done none h
    else let free_header = get_next_header_pointer alloc_header h in
      let h1 = set_free_header free_header new_size h in
      let next_header = get_next_header_pointer free_header h1 in
      if allocated (h1.row next_header) == 0
      then (let h2 = remove_header next_header h1 in
          let h3 = coalesce free_header (bytes_of (h2.row next_header)) h2 in
          let size = bytes_of (h3.row free_header) in
          let h4 = set_footer (get_footer_pointer free_header h3) size h3 in
          add_free_block u fuel free_header size h4 >>= λ t h5. done (some free_header) h5)
      else (add_free_block u fuel free_header new_size h1 >>= λ t h2.
          done (some free_header) (set_footer (get_footer_pointer free_header h2) new_size h2))

-- The search of `sf_malloc` at `current`, with the header set so far: where it stops, and that header.
pub find_block : ℕ → ℕ → ℕ → Option ℕ → Heap → Option (ℕ × Option ℕ)
find_block zero new_size current header h = none
find_block (suc fuel) new_size current header h =
    let skip = find_block fuel new_size (next_node current h) header h in
    let empty = find_block fuel new_size (next_node current h) (some (head_of current)) h in
    if current == h.free_list_head
    then some (current, header)
    else if leb (size_of_int new_size) (node_size current h)
    then (let first = next (head_of current) h in
        if first == head_of current then empty else some (current, some first))
    else skip

-- The block that `sf_malloc` starts from, off its free list; `none` for NULL.
pub first_block : Sfutil → ℕ → ℕ → Heap → Run (Option ℕ)
first_block u fuel new_size h =
    if h.mem_start == h.mem_end
    then (let (header, h1) = mem_init u h in done header h1)
    else elim (find_block fuel new_size (next_node_of_head h) none h) [
      | none ↦ out_of_fuel
      | some (current, none) ↦ uninitialised
      | some (current, some header) ↦ done (some header) (
          if current == h.free_list_head
          then set_info (with_block_size 0) header h
          else remove_header header h)
    ]

-- The `while` loop of `sf_malloc`: `none` where the heap could not grow.
pub grow_until : Sfutil → ℕ → ℕ → ℕ → Heap → Run (Option ℕ)
unfolding mem_grow
grow_until u zero new_size header h = out_of_fuel
grow_until u (suc fuel) new_size header h =
    let more : Run (Option ℕ) = mem_grow u fuel h >>= λ grown h1. elim grown [
      | none ↦ done none (record h1 { errno = enomem })
      | some header' ↦ grow_until u fuel new_size header' h1
    ] in
    if lts (bytes_of (h.row header)) new_size then more else done (some header) h

-- The rest of `sf_malloc`, on a block that is large enough: the pointer to its payload.
pub take_block : Sfutil → ℕ → ℕ → ℕ → ℕ → Heap → Run (Option ℕ)
unfolding split_block get_next_header_pointer
take_block u fuel size new_size header h =
    let old_block_size = bytes_of (h.row header) in
    let allocated_info = λ (v : ℕ).
      with_prev_allocated 1
        (with_allocated 1 (with_requested_size size (with_block_size (new_size / 2 ^ 4) v))) in
    let h1 = set_info allocated_info header h in
    let split_size = sub32 old_block_size new_size in
    let split : Run (Option ℕ) =
      if lts split_size 32
      then done none (set_info (with_block_size (old_block_size / 2 ^ 4)) header h1)
      else split_block u fuel header split_size h1 in
    split >>= λ t h2.
    done (some (header + 1))
      (set_info (with_prev_allocated 1) (get_next_header_pointer header h2) h2)

pub sf_malloc : Sfutil → ℕ → ℕ → Heap → Run (Option ℕ)
sf_malloc u fuel size h =
    if size == 0
    then done none h
    else let new_size = get_new_size size in
      first_block u fuel new_size h >>= λ first h1. elim first [
        | none ↦ done none h1
        | some header ↦ grow_until u fuel new_size header h1 >>= λ found h2. elim found [
          | none ↦ done none h2
          | some header' ↦ take_block u fuel size new_size header' h2
        ]
      ]

-- Whether `sf_abort(pp)` returns; `none` is NULL.
pub accepts : Option ℕ → Heap → Bool
unfolding get_payload_header
accepts none h = false
accepts (some pp) h =
    let hp = get_payload_header pp in
    let v = h.row hp in
    let out_of_range = leb (epilogue h) pp || ltb pp (h.mem_start + 5) in
    let bad_block =
      allocated v == 0
      || lts (bytes_of v) min_sz
      || not (bytes_of v % 16 == 0)
      || ltb (size_of_int (bytes_of v)) (requested_size v + 8) in
    let bad_footer = prev_allocated v == 0 && not (allocated (h.row (hp - 1)) == 0) in
    not (out_of_range || bad_block || bad_footer)

-- `sf_free` behind its check.
pub free_block : Sfutil → ℕ → ℕ → Heap → Run (Unit {0})
unfolding get_header_pointer get_next_header_pointer remove_header coalesce add_free_block
free_block u fuel hp h =
    let footer = hp - 1 in
    let joined = prev_allocated (h.row hp) == 0 in
    let h0 = remove_header (get_header_pointer footer h) h in
    let new_header = if joined then get_header_pointer footer h0 else hp in
    let h1 = if joined then coalesce new_header (bytes_of (h0.row hp)) h0 else h in
    let next_header = get_next_header_pointer hp h1 in
    let h2 =
      if allocated (h1.row next_header) == 0
      then (let h' = remove_header next_header h1 in
          coalesce new_header (bytes_of (h'.row next_header)) h')
      else h1 in
    let h3 = coalesce new_header 0 h2 in
    add_free_block u fuel new_header (bytes_of (h3.row new_header)) h3 >>= λ t h4.
    done tt (set_info (with_prev_allocated 0) (get_next_header_pointer new_header h4) h4)

pub sf_free : Sfutil → ℕ → Option ℕ → Heap → Run (Unit {0})
unfolding accepts free_block get_payload_header
sf_free u fuel none h = aborted
sf_free u fuel (some pp) h =
    if accepts (some pp) h then free_block u fuel (get_payload_header pp) h else aborted

-- `sf_realloc` to a smaller size, behind its check.
pub shrink : Sfutil → ℕ → ℕ → ℕ → Heap → Run (Unit {0})
unfolding get_new_size split_block get_next_header_pointer get_payload_header
shrink u fuel pp rsize h =
    let hp = get_payload_header pp in
    let new_size = get_new_size rsize in
    let split_size = sub32 (bytes_of (h.row hp)) new_size in
    let h1 = set_info (with_requested_size rsize) hp h in
    if lts split_size min_sz
    then done tt h1
    else (split_block u fuel hp split_size (set_info (with_block_size (new_size / 2 ^ 4)) hp h1)
        >>= λ made h2. elim made [
          | none ↦ uninitialised
          | some free_header ↦
              done tt (set_info (with_prev_allocated 0) (get_next_header_pointer free_header h2) h2)
        ])

pub sf_realloc : Sfutil → ℕ → Option ℕ → ℕ → Heap → Run (Option ℕ)
unfolding accepts sf_free sf_malloc shrink get_payload_header
sf_realloc u fuel none rsize h = aborted
sf_realloc u fuel (some pp) rsize h =
    if not (accepts (some pp) h)
    then aborted
    else if rsize == 0
    then (sf_free u fuel (some pp) h >>= λ t h1. done none h1)
    else let requested = requested_size (h.row (get_payload_header pp)) in
      if ltb requested rsize
      then (sf_malloc u fuel rsize h >>= λ new_payload h1. elim new_payload [
        | none ↦ done none h1
        | some p ↦ sf_free u fuel (some pp) h1 >>= λ t h2. done (some p) h2
      ])
      else if ltb rsize requested
      then (shrink u fuel pp rsize h >>= λ t h1. done (some pp) h1)
      else done (some pp) h
