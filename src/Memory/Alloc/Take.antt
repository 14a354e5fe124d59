-- ===== src/Memory/Alloc/Take.antt =====
-- `sf_malloc` hands out a block as a whole where too little would be left of it.
use mathlib.Core.Path.{subst}
use audible.Base.{
  ℕ, ◌+◌, ◌*◌, ◌/◌, ◌^◌, ◌≤◌, ◌<◌, ◌≡◌, refl, ◌∙◌, ap, sym, Bool, true, Option, none, some, List,
  [], ◌∷◌, sub32, lts, if◌then◌else◌, arith,
}
use audible.Memory.Info.{
  Heap, Sfutil, set_info, allocated, prev_allocated, block_size, requested_size, with_allocated,
  with_prev_allocated, with_block_size, with_requested_size,
}
use audible.Memory.Blocks.{bytes_of, get_next_header_pointer}
use audible.Memory.Grow.{Run, done, aborted, uninitialised, out_of_fuel, ◌>>=◌}
use audible.Memory.Grow.Tiles.{Tiles, Tiles-write}
use audible.Memory.Alloc.{take_block, split_block}

-- The bit for the block in front does not change where the blocks lie.
Tiles-prev :
    (p e : ℕ) (bs : List ℕ) (h : Heap)
    → Tiles h p bs e
    → Tiles (set_info (with_prev_allocated 1) p h) p bs e
Tiles-prev p e [] h t = t
Tiles-prev p e (b ∷ bs) h t =
    (ground (arith, t.0), t.1, Tiles-write p _ (p + b * 2) e bs h (omega (arith, t.1)) t.2)

-- One field of a row, after another has been set.
block_size-set : (n w : ℕ) → n < 2 ^ 28 → block_size (with_block_size n w) ≡ n
block_size-set n w hn = omega (arith, hn)

allocated-block_size : (n w : ℕ) → allocated (with_block_size n w) ≡ allocated w
allocated-block_size n w = omega arith

requested-block_size : (n w : ℕ) → requested_size (with_block_size n w) ≡ requested_size w
requested-block_size n w = omega arith

allocated-prev : (w : ℕ) → allocated (with_prev_allocated 1 w) ≡ allocated w
allocated-prev w = omega arith

requested-prev : (w : ℕ) → requested_size (with_prev_allocated 1 w) ≡ requested_size w
requested-prev w = omega arith

requested-allocated : (w : ℕ) → requested_size (with_allocated 1 w) ≡ requested_size w
requested-allocated w = omega arith

requested-set : (r w : ℕ) → r < 2 ^ 32 → requested_size (with_requested_size r w) ≡ r
requested-set r w hr = omega (arith, hr)

-- What `sf_malloc` writes into the header of a block of `n` units.
abbrev first_info : ℕ → ℕ → ℕ → ℕ
first_info size new_size v =
    with_prev_allocated 1
      (with_allocated 1 (with_requested_size size (with_block_size (new_size / 2 ^ 4) v)))

whole_info : ℕ → ℕ → ℕ → ℕ → ℕ
whole_info n size new_size v = with_block_size n (first_info size new_size v)

whole_info-fields :
    (n size new_size v : ℕ)
    → n < 2 ^ 28
    → size < 2 ^ 32
    → (block_size (whole_info n size new_size v) ≡ n)
      × (allocated (whole_info n size new_size v) ≡ 1)
      × (requested_size (whole_info n size new_size v) ≡ size)
unfolding whole_info
whole_info-fields n size new_size v hn hs =
    let w0 = with_requested_size size (with_block_size (new_size / 2 ^ 4) v) in
    let w1 = with_allocated 1 w0 in
    (
      block_size-set n (with_prev_allocated 1 w1) hn,
      allocated-block_size n (with_prev_allocated 1 w1) ∙ allocated-prev w1 ∙ omega arith,
      requested-block_size n (with_prev_allocated 1 w1)
          ∙ requested-prev w1
          ∙ requested-allocated w0
          ∙ requested-set size (with_block_size (new_size / 2 ^ 4) v) hs,
    )

-- The heap with the header set, and then the block behind it told.
abbrev taken : ℕ → ℕ → ℕ → ℕ → Heap → Heap
taken n size new_size header h =
    set_info (with_block_size n) header (set_info (first_info size new_size) header h)

taken-row :
    (n size new_size header : ℕ) (h : Heap)
    → (taken n size new_size header h).row header ≡ whole_info n size new_size (h.row header)
unfolding whole_info
taken-row n size new_size header h = ground arith

-- The pointer to the payload of the block at `header`, which is marked allocated, with the size that was
-- asked for, while every block lies where it did.
abbrev pub HandsOut : ℕ → ℕ → ℕ → List ℕ → ℕ → Run (Option ℕ) → Type 0
HandsOut size header n bs e (done none g) = ⊥
HandsOut size header n bs e (done (some p) g) =
    (p ≡ header + 1)
    × Tiles g header (n ∷ bs) e
    × (allocated (g.row header) ≡ 1)
    × (requested_size (g.row header) ≡ size)
    × (prev_allocated (g.row (header + n * 2)) ≡ 1)
HandsOut size header n bs e aborted = ⊥
HandsOut size header n bs e uninitialised = ⊥
HandsOut size header n bs e out_of_fuel = ⊥

told :
    (size header n e : ℕ) (bs : List ℕ) (g : Heap)
    → 0 < n
    → block_size (g.row header) ≡ n
    → allocated (g.row header) ≡ 1
    → requested_size (g.row header) ≡ size
    → Tiles g (header + n * 2) bs e
    → HandsOut size header n bs e
        (done (some (header + 1)) (set_info (with_prev_allocated 1) (header + n * 2) g))
told size header n e bs g pos hb ha hr t =
    let same : (set_info (with_prev_allocated 1) (header + n * 2) g).row header ≡ g.row header =
      ground (arith, pos) in
    (
      refl,
      (ap (λ v. block_size v) same ∙ hb, pos, Tiles-prev (header + n * 2) e bs g t),
      ap (λ v. allocated v) same ∙ ha,
      ap (λ v. requested_size v) same ∙ hr,
      ground arith,
    )

-- The end of `sf_malloc`.
abbrev given : ℕ → Heap → Run (Option ℕ)
given header g =
    done (some (header + 1))
      (set_info (with_prev_allocated 1) (header + block_size (g.row header) * 2) g)

take_whole :
    (u : Sfutil) (fuel size new_size header : ℕ) (h : Heap)
    → lts (sub32 (bytes_of (h.row header)) new_size) 32 ≡ true
    → take_block u fuel size new_size header h
      ≡ given header (taken (bytes_of (h.row header) / 2 ^ 4) size new_size header h)
unfolding take_block get_next_header_pointer
take_whole u fuel size new_size header h little =
    ap
      (λ (b : Bool).
        (if b
          then done none (taken (bytes_of (h.row header) / 2 ^ 4) size new_size header h)
          else split_block u fuel header (sub32 (bytes_of (h.row header)) new_size)
              (set_info (first_info size new_size) header h))
        >>= λ t g. given header g)
      little

-- Where the block that `sf_malloc` has found is large enough and less than 32 bytes of it would be left, it is
-- handed out whole: the call returns the address of its payload, its header is marked allocated and holds
-- the size that was asked for, the block behind it is told, and every block lies where it did.
pub take_block-HandsOut :
    (u : Sfutil) (fuel size new_size header n e : ℕ) (bs : List ℕ) (h : Heap)
    → Tiles h header (n ∷ bs) e
    → n < 2 ^ 27
    → size < 2 ^ 32
    → new_size ≤ n * 16
    → n * 16 < new_size + 32
    → HandsOut size header n bs e (take_block u fuel size new_size header h)
take_block-HandsOut u fuel size new_size header n e bs h t hn hs large small =
    let old : bytes_of (h.row header) ≡ n * 16 = omega (arith, t.0) in
    let units : bytes_of (h.row header) / 2 ^ 4 ≡ n = omega (arith, old) in
    let little : lts (sub32 (bytes_of (h.row header)) new_size) 32 ≡ true =
      ground (arith, old, large, small) in
    let g = taken n size new_size header h in
    let fields = whole_info-fields n size new_size (h.row header) (omega (arith, hn)) hs in
    let row = taken-row n size new_size header h in
    let block : block_size (g.row header) ≡ n = ap (λ v. block_size v) row ∙ fields.0 in
    let behind : Tiles g (header + n * 2) bs e =
      Tiles-write header _ (header + n * 2) e bs (set_info (first_info size new_size) header h)
        (omega (arith, t.1))
        (Tiles-write header _ (header + n * 2) e bs h (omega (arith, t.1)) t.2) in
    subst (HandsOut size header n bs e)
      (sym (
        take_whole u fuel size new_size header h little
        ∙ ap (λ k. given header (taken k size new_size header h)) units
        ∙ ap (λ k. done (some (header + 1)) (set_info (with_prev_allocated 1) (header + k * 2) g))
            block))
      (told size header n e bs g t.1 block (ap (λ v. allocated v) row ∙ fields.1)
        (ap (λ v. requested_size v) row ∙ fields.2) behind)
