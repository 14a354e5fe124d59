-- ===== src/Memory/Grow/Tiles.antt =====
-- The blocks lie side by side: the first ones, and two that are joined.
use mathlib.Core.Path.{subst}
use audible.Base.{
  ℕ, ◌+◌, ◌-◌, ◌*◌, ◌^◌, ◌<◌, ◌≡◌, ◌≢◌, refl, ◌∙◌, ap, ap₂, sym, Option, some, List, [], ◌∷◌, u32,
  arith,
}
use audible.Memory.Info.{Heap, Sfutil, write, allocated, prev_allocated, block_size, set_info}
use audible.Memory.Blocks.{
  bytes_of, free_info, set_free_header, set_footer, get_footer_pointer, get_header_pointer,
}
use audible.Memory.Grow.{coalesce, mem_init, lay_out, create_prologue, create_epilogue, epilogue}

-- From the header at `p` to the row `e` there are blocks of the sizes `bs`, each in units of two rows.
abbrev pub Tiles : Heap → ℕ → List ℕ → ℕ → Type 0
Tiles h p [] e = p ≡ e
Tiles h p (b ∷ bs) e = (block_size (h.row p) ≡ b) × (0 < b) × Tiles h (p + b * 2) bs e

pub Tiles-write :
    (r v p e : ℕ) (bs : List ℕ) (h : Heap) → r < p → Tiles h p bs e → Tiles (write r v h) p bs e
Tiles-write r v p e [] h hr t = t
Tiles-write r v p e (b ∷ bs) h hr t =
    (ground (arith, t.0), t.1, Tiles-write r v (p + b * 2) e bs h (omega arith) t.2)

-- The header and the footer of a free block of `n` units at `p`.
pub record IsFree (h : Heap) (p n : ℕ) : Type 0 where
  pub size : block_size (h.row p) ≡ n
  pub free : allocated (h.row p) ≡ 0
  pub behind : prev_allocated (h.row p) ≡ 1
  pub footer_free : allocated (h.row (p + n * 2 - 1)) ≡ 0
  pub back : get_header_pointer (get_footer_pointer p h) h ≡ p

-- What `setFreeHeader` and `setFooter` write for a block of `n` units.
two_infos : ℕ → ℕ → Heap → Heap
two_infos p n h =
    let h1 = set_info (free_info (n * 16)) p h in set_info (free_info (n * 16)) (p + n * 2 - 1) h1

free_info-block :
    (n v : ℕ)
    → n < 2 ^ 28
    → (block_size (free_info (n * 16) v) ≡ n)
      × (allocated (free_info (n * 16) v) ≡ 0)
      × (prev_allocated (free_info (n * 16) v) ≡ 1)
free_info-block n v hn = (omega arith, omega arith, omega arith)

set_both :
    (p n : ℕ) (h : Heap)
    → n < 2 ^ 28
    → (let h1 = set_free_header p (n * 16) h in set_footer (get_footer_pointer p h1) (n * 16) h1)
      ≡ two_infos p n h
unfolding set_free_header set_footer get_footer_pointer two_infos
set_both p n h hn =
    let h1 = set_info (free_info (n * 16)) p h in
    let there : p + block_size (h1.row p) * 2 - 1 ≡ p + n * 2 - 1 =
      ground (arith, free_info-block n (h.row p) hn) in
    ap (λ f. set_info (free_info (n * 16)) f h1) there

set_info_two :
    (f : ℕ → ℕ) (p q : ℕ) (h : Heap)
    → p ≢ q
    → ((set_info f q (set_info f p h)).row p ≡ f (h.row p))
      × ((set_info f q (set_info f p h)).row q ≡ f (h.row q))
set_info_two f p q h hn = (ground arith, ground arith)

-- The two rows that change.
two_infos-row :
    (p n : ℕ) (h : Heap)
    → 0 < n
    → ((two_infos p n h).row p ≡ free_info (n * 16) (h.row p))
      × ((two_infos p n h).row (p + n * 2 - 1) ≡ free_info (n * 16) (h.row (p + n * 2 - 1)))
unfolding two_infos
two_infos-row p n h pos = set_info_two (free_info (n * 16)) p (p + n * 2 - 1) h (λ e. omega arith)

two_infos-IsFree : (p n : ℕ) (h : Heap) → n < 2 ^ 28 → 0 < n → IsFree (two_infos p n h) p n
unfolding get_footer_pointer get_header_pointer
two_infos-IsFree p n h hn pos =
    let rows = two_infos-row p n h pos in
    let g = two_infos p n h in
    let head = free_info-block n (h.row p) hn in
    let foot = free_info-block n (h.row (p + n * 2 - 1)) hn in
    let size : block_size (g.row p) ≡ n = ap (λ v. block_size v) rows.0 ∙ head.0 in
    let footer : block_size (g.row (p + n * 2 - 1)) ≡ n = ap (λ v. block_size v) rows.1 ∙ foot.0 in
    record {
      size = size;
      free = ap (λ v. allocated v) rows.0 ∙ head.1;
      behind = ap (λ v. prev_allocated v) rows.0 ∙ head.2;
      footer_free = ap (λ v. allocated v) rows.1 ∙ foot.1;
      back =
          ap (λ (k : ℕ). p + k * 2 - 1 + 1 - block_size (g.row (p + k * 2 - 1)) * 2) size
          ∙ ap (λ (k : ℕ). p + n * 2 - 1 + 1 - k * 2) footer
          ∙ omega arith;
    }

two_infos-Tiles :
    (p n e : ℕ) (bs : List ℕ) (h : Heap)
    → n < 2 ^ 28
    → 0 < n
    → Tiles h (p + n * 2) bs e
    → Tiles (two_infos p n h) p (n ∷ bs) e
unfolding two_infos
two_infos-Tiles p n e bs h hn pos t =
    let h1 = set_info (free_info (n * 16)) p h in
    let t1 = Tiles-write p _ (p + n * 2) e bs h (omega arith) t in
    (
      (two_infos-IsFree p n h hn pos).size,
      pos,
      Tiles-write (p + n * 2 - 1) _ (p + n * 2) e bs h1 (omega arith) t1,
    )

coalesce_two :
    (p a b : ℕ) (h : Heap)
    → a + b < 2 ^ 27
    → block_size (h.row p) ≡ a
    → coalesce p (b * 16) h ≡ two_infos p (a + b) h
unfolding coalesce
coalesce_two p a b h small e =
    let size : u32 (bytes_of (h.row p) + b * 16) ≡ (a + b) * 16 = omega (arith, e) in
    ap (λ (k : ℕ). let h1 = set_free_header p k h in set_footer (get_footer_pointer p h1) k h1) size
    ∙ set_both p (a + b) h (omega arith)

two_infos-row_ne :
    (p n q : ℕ) (h : Heap) → q ≢ p → q ≢ p + n * 2 - 1 → (two_infos p n h).row q ≡ h.row q
unfolding two_infos
two_infos-row_ne p n q h hp hq = ground (arith, hp, hq)

-- `coalesce` with the size of the next block, in units of 16 bytes, makes one free block of the two,
-- with a footer from which its header is found. The blocks behind them are where they were, with the
-- sizes they had, and every row of the heap but the header and the footer of the new block is as it
-- was. The two sizes together are below 2 ^ 31 bytes.
pub coalesce-Tiles :
    (p a b e : ℕ) (bs : List ℕ) (h : Heap)
    → a + b < 2 ^ 27
    → Tiles h p (a ∷ b ∷ bs) e
    → let g = coalesce p (b * 16) h in
      Tiles g p ((a + b) ∷ bs) e
      × IsFree g p (a + b)
      × ((q : ℕ) → q ≢ p → q ≢ p + (a + b) * 2 - 1 → g.row q ≡ h.row q)
coalesce-Tiles p a b e bs h small t =
    let rest : Tiles h (p + (a + b) * 2) bs e = subst (λ q. Tiles h q bs e) (omega arith) t.2.2 in
    subst
      (λ g.
        Tiles g p ((a + b) ∷ bs) e
        × IsFree g p (a + b)
        × ((q : ℕ) → q ≢ p → q ≢ p + (a + b) * 2 - 1 → g.row q ≡ h.row q))
      (sym (coalesce_two p a b h small t.0))
      (
        two_infos-Tiles p (a + b) e bs h (omega arith) (omega (arith, t.1)) rest,
        two_infos-IsFree p (a + b) h (omega arith) (omega (arith, t.1)),
        λ q hp hq. two_infos-row_ne p (a + b) q h hp hq,
      )

-- The row holds the info of an allocated block of `n` units behind one that is not.
abbrev pub IsFence : ℕ → ℕ → Type 0
IsFence n v = (allocated v ≡ 1) × (prev_allocated v ≡ 0) × (block_size v ≡ n)

abbrev framed : Heap → Heap
framed h = create_epilogue (create_prologue h)

framed_same : (h : Heap) → ((framed h).mem_start ≡ h.mem_start) × ((framed h).mem_end ≡ h.mem_end)
unfolding create_epilogue create_prologue
framed_same h = (refl, refl)

framed_rows :
    (h : Heap)
    → h.mem_start + 5 < epilogue h
    → IsFence 3 ((framed h).row (h.mem_start + 1))
      × IsFence 3 ((framed h).row (h.mem_start + 4))
      × IsFence 0 ((framed h).row (epilogue h))
unfolding create_epilogue create_prologue
framed_rows h room = (
  (ground arith, ground arith, ground arith),
  (ground arith, ground arith, ground arith),
  (ground arith, ground arith, ground arith),
)

abbrev placed : Heap → ℕ → ℕ → ℕ × Heap
placed g p k = let h1 = set_free_header p k g in (p, set_footer (get_footer_pointer p h1) k h1)

lay_out_two :
    (h : Heap)
    → h.mem_end ≡ h.mem_start + 512
    → lay_out h ≡ (h.mem_start + 5, two_infos (h.mem_start + 5) 253 (framed h))
unfolding lay_out
lay_out_two h page =
    let same = framed_same h in
    let size : u32 (((framed h).mem_end - (framed h).mem_start) * 8 - 40 - 8) ≡ 253 * 16 =
      ground (arith, same.0, same.1, page) in
    ap₂ (λ s k. placed (framed h) (s + 5) k) same.0 size
    ∙ ap (λ (g : Heap). (h.mem_start + 5, g))
        (set_both (h.mem_start + 5) 253 (framed h) (omega arith))

mem_init_made :
    (u : Sfutil) (h h1 : Heap)
    → h.mem_start ≡ h.mem_end
    → u.mem_grow h ≡ some h1
    → mem_init u h ≡ (some (lay_out h1).0, (lay_out h1).1)
unfolding mem_init
mem_init_made u h h1 e grown = ground (arith, e, grown)

-- `mem_init` on an empty heap, when the heap grows by a page of 4096 bytes, fills the page with one
-- free block of 4048 bytes between the prologue and the epilogue, and returns its header. The header
-- and the footer of the prologue and the epilogue are allocated, with `prev_allocated` 0, and their
-- block sizes are 48 bytes and 0.
pub mem_init-Tiles :
    (u : Sfutil) (h h1 : Heap)
    → h.mem_start ≡ h.mem_end
    → u.mem_grow h ≡ some h1
    → h1.mem_end ≡ h1.mem_start + 512
    → let p = h1.mem_start + 5 in
      let g = (mem_init u h).1 in
      ((mem_init u h).0 ≡ some p)
      × Tiles g p (253 ∷ []) (epilogue h1)
      × IsFree g p 253
      × IsFence 3 (g.row (h1.mem_start + 1))
      × IsFence 3 (g.row (h1.mem_start + 4))
      × IsFence 0 (g.row (epilogue h1))
mem_init-Tiles u h h1 e grown page =
    let p = h1.mem_start + 5 in
    let made =
      mem_init_made u h h1 e grown ∙ ap (λ (r : ℕ × Heap). (some r.0, r.1)) (lay_out_two h1 page) in
    let kept : (q : ℕ)
        → q ≢ p
        → q ≢ p + 253 * 2 - 1
        → (framed h1).row q ≡ (two_infos p 253 (framed h1)).row q =
      λ q hp hf. sym (two_infos-row_ne p 253 q (framed h1) hp hf) in
    let rows = framed_rows h1 (omega arith) in
    subst
      (λ (r : Option ℕ × Heap).
        (r.0 ≡ some p)
        × Tiles r.1 p (253 ∷ []) (epilogue h1)
        × IsFree r.1 p 253
        × IsFence 3 (r.1.row (h1.mem_start + 1))
        × IsFence 3 (r.1.row (h1.mem_start + 4))
        × IsFence 0 (r.1.row (epilogue h1)))
      (sym made)
      (
        refl,
        two_infos-Tiles p 253 (epilogue h1) [] (framed h1) (omega arith) (omega arith)
            (omega arith),
        two_infos-IsFree p 253 (framed h1) (omega arith) (omega arith),
        subst (IsFence 3) (kept (h1.mem_start + 1) (λ q. omega arith) (λ q. omega arith)) rows.0,
        subst (IsFence 3) (kept (h1.mem_start + 4) (λ q. omega arith) (λ q. omega arith)) rows.1,
        subst (IsFence 0) (kept (epilogue h1) (λ q. omega arith) (λ q. omega arith)) rows.2,
      )
