-- ===== src/Memory/Grow.antt =====
-- How the heap of Memory Manager/src/sfmm.c begins and grows.
pub mod Tiles
use audible.Base.{
  ℕ, zero, suc, ◌+◌, ◌-◌, ◌*◌, ◌^◌, ◌≡◌, Bool, true, false, Option, none, some, ◌==◌, if◌then◌else◌,
  not, u32,
}
use audible.Memory.Info.{
  Heap, Sfutil, set_info, prev_allocated, with_allocated, with_prev_allocated, with_block_size,
}
use audible.Memory.Blocks.{
  bytes_of, set_free_header, set_footer, get_footer_pointer, get_header_pointer,
}
use audible.Memory.FreeLists.{
  remove_header, add_header_to_free_list, get_sentinel_of_size, next_node_of_head,
}

-- How a call ends: it returns, it calls `abort`, it goes through a pointer that was never set, or the
-- fuel for its loops is used up.
pub data Run (A : Type 0) : Type 0 where
  done : A → Heap → Run A
  aborted : Run A
  uninitialised : Run A
  out_of_fuel : Run A

infixl 5 ◌>>=◌
abbrev pub ◌>>=◌ : {A B : Type 0} → Run A → (A → Heap → Run B) → Run B
done a h >>= f = f a h
aborted >>= f = aborted
uninitialised >>= f = uninitialised
out_of_fuel >>= f = out_of_fuel

abbrev pub page_sz : ℕ
page_sz = 4096

-- The info of the prologue in place of `v`.
abbrev prologue_info : ℕ → ℕ
prologue_info v = with_block_size 3 (with_prev_allocated 0 (with_allocated 1 v))

-- `createPrologue()`: padding, a header with its links, and a footer.
unfoldable pub create_prologue : Heap → Heap
create_prologue h =
    set_info prologue_info (h.mem_start + 4) (set_info prologue_info (h.mem_start + 1) h)

abbrev pub epilogue : Heap → ℕ
epilogue h = h.mem_end - 1

-- The info of the epilogue in place of `v`: `sizeof(sf_epilogue) >> 4` is 0.
abbrev epilogue_info : ℕ → ℕ
epilogue_info v = with_block_size 0 (with_prev_allocated 0 (with_allocated 1 v))

-- `createEpilogue()`
unfoldable pub create_epilogue : Heap → Heap
create_epilogue h = set_info epilogue_info (epilogue h) h

-- What `mem_init` does with the first page: the free block between prologue and epilogue.
pub lay_out : Heap → ℕ × Heap
lay_out h =
    let h1 = create_epilogue (create_prologue h) in
    let free_size = u32 ((h1.mem_end - h1.mem_start) * 8 - 40 - 8) in
    let free_header = h1.mem_start + 5 in
    let h2 = set_free_header free_header free_size h1 in
    (free_header, set_footer (get_footer_pointer free_header h2) free_size h2)

-- `mem_init()`: the free block that it makes, or `none` for NULL.
unfoldable pub mem_init : Sfutil → Heap → Option ℕ × Heap
mem_init u h = if not (h.mem_start == h.mem_end) then (none, h) else elim (u.mem_grow h) [
  | none ↦ (none, h)
  | some h1 ↦ let (header, h2) = lay_out h1 in (some header, h2)
]

-- `coalesce(freeHeader, size)`
unfoldable pub coalesce : ℕ → ℕ → Heap → Heap
unfolding set_free_header set_footer get_footer_pointer
coalesce free_header size h =
    let new_size = u32 (bytes_of (h.row free_header) + size) in
    let h1 = set_free_header free_header new_size h in
    set_footer (get_footer_pointer free_header h1) new_size h1

-- `addHeaderToFreeList(hp, getSentinelOfSize(size))`
unfoldable pub add_free_block : Sfutil → ℕ → ℕ → ℕ → Heap → Run (Unit {0})
unfolding get_sentinel_of_size add_header_to_free_list
add_free_block u fuel hp size h = elim (get_sentinel_of_size u fuel size h) [
  | none ↦ out_of_fuel
  | some (sentinel, h1) ↦ done tt (add_header_to_free_list hp sentinel h1)
]

-- `mem_grow()` on a heap that is there; the addresses are taken before it grows.
unfoldable pub mem_grow : Sfutil → ℕ → Heap → Run (Option ℕ)
unfolding add_free_block create_epilogue coalesce remove_header get_header_pointer
mem_grow u fuel h =
    let old = epilogue h in
    let free_footer = old - 1 in
    elim (u.mem_grow h) [
      | none ↦
          let free_header = get_header_pointer free_footer h in
          add_free_block u fuel free_header (bytes_of (h.row free_header)) h >>= λ t h1.
          done none h1
      | some h1 ↦
          if prev_allocated (h1.row old) == 0
          then (let free_header = get_header_pointer free_footer h1 in
              let h2 =
                if next_node_of_head h1 == h1.free_list_head
                then h1
                else remove_header free_header h1 in
              done (some free_header) (coalesce free_header page_sz (create_epilogue h2)))
          else done (some old) (coalesce old page_sz (create_epilogue h1))
    ]
