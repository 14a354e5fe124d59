-- ===== src/Memory/FreeLists/Ring.antt =====
-- A free list as the list of its headers: adding and removing, link by link.
pub mod Remove
use audible.Base.{
  ℕ, zero, suc, ◌+◌, ◌%◌, ◌≡◌, ◌≢◌, refl, ◌∙◌, ap, sym, Bool, true, false, List, [], ◌∷◌, ◌++◌,
  ◌==◌, if◌then◌else◌, arith,
}
use audible.Memory.Info.{Heap, write, next, prev, set_next, set_prev, head_of}
use audible.Memory.FreeLists.{remove_header, add_header_to_free_list}

-- From `p` the links lead through `xs` to `q`, and back.
abbrev pub Chain : Heap → ℕ → List ℕ → ℕ → Type 0
Chain h p [] q = (next p h ≡ q) × (prev q h ≡ p)
Chain h p (x ∷ xs) q = (next p h ≡ x) × (prev x h ≡ p) × Chain h x xs q

-- Payloads are aligned to two rows, so headers stand at odd rows.
abbrev pub AreHeaders : List ℕ → Type 0
AreHeaders [] = Unit
AreHeaders (x ∷ xs) = (x % 2 ≡ 1) × AreHeaders xs

abbrev pub NotIn : ℕ → List ℕ → Type 0
NotIn p [] = Unit
NotIn p (x ∷ xs) = (p ≢ x) × NotIn p xs

abbrev pub AreDistinct : List ℕ → Type 0
AreDistinct [] = Unit
AreDistinct (x ∷ xs) = NotIn x xs × AreDistinct xs

-- The free list behind `head` holds the blocks `xs`, in order.
pub record IsRing (h : Heap) (head : ℕ) (xs : List ℕ) : Type 0 where
  pub chain : Chain h head xs head
  pub headers : AreHeaders (head ∷ xs)
  pub distinct : AreDistinct (head ∷ xs)

-- The row `r` is none of the links from `p` through `xs` to `q`.
abbrev pub Spared : ℕ → ℕ → List ℕ → ℕ → Type 0
Spared r p [] q = (r ≢ p + 1) × (r ≢ q + 2)
Spared r p (x ∷ xs) q = (r ≢ p + 1) × (r ≢ x + 2) × Spared r x xs q

pub Chain-write :
    (r v p q : ℕ) (xs : List ℕ) (h : Heap)
    → Spared r p xs q
    → Chain h p xs q
    → Chain (write r v h) p xs q
Chain-write r v p q [] h s c = ground arith
Chain-write r v p q (x ∷ xs) h s c = (ground arith, ground arith, Chain-write r v x q xs h s.2 c.2)

-- The link forward from a header that is not in the chain before `q`.
pub Spared-next :
    (a p q : ℕ) (xs : List ℕ)
    → a % 2 ≡ 1
    → q % 2 ≡ 1
    → AreHeaders (p ∷ xs)
    → NotIn a (p ∷ xs)
    → Spared (a + 1) p xs q
Spared-next a p q [] ha hq hs hn = (λ e. hn.0 (omega arith), λ e. omega arith)
Spared-next a p q (x ∷ xs) ha hq hs hn =
    (λ e. hn.0 (omega arith), λ e. omega (arith, hs.1.0), Spared-next a x q xs ha hq hs.1 hn.1)

-- The link back from a header that is not in the chain behind `p`.
pub Spared-prev :
    (a p q : ℕ) (xs : List ℕ)
    → a % 2 ≡ 1
    → AreHeaders (p ∷ xs)
    → a ≢ q
    → NotIn a xs
    → Spared (a + 2) p xs q
Spared-prev a p q [] ha hs hq hn = (λ e. omega (arith, hs.0), λ e. hq (omega arith))
Spared-prev a p q (x ∷ xs) ha hs hq hn =
    (λ e. omega (arith, hs.0), λ e. hn.0 (omega arith), Spared-prev a x q xs ha hs.1 hq hn.1)

-- The four assignments of `addHeaderToFreeList`, in front of the block `x`.
add_writes :
    (p sentinel x : ℕ) (h : Heap)
    → next (head_of sentinel) h ≡ x
    → head_of sentinel % 2 ≡ 1
    → p % 2 ≡ 1
    → p ≢ head_of sentinel
    → add_header_to_free_list p sentinel h
      ≡ write
          (head_of sentinel + 1)
          p
          (write (x + 2) p (write (p + 2) (head_of sentinel) (write (p + 1) x h)))
unfolding add_header_to_free_list
add_writes p sentinel x h e hs hp hn =
    let head = head_of sentinel in
    let linked = λ (y : ℕ). set_prev p head (set_next p y h) in
    let same : next head (linked x) ≡ x = ground (arith, e) in
    ap (λ y. set_next head p (set_prev (next head (linked y)) p (linked y))) e
    ∙ ap (λ y. set_next head p (set_prev y p (linked x))) same

-- `addHeaderToFreeList` puts the block at the front of the list.
pub add_header-IsRing :
    (p sentinel : ℕ) (xs : List ℕ) (h : Heap)
    → IsRing h (head_of sentinel) xs
    → p % 2 ≡ 1
    → NotIn p (head_of sentinel ∷ xs)
    → IsRing (add_header_to_free_list p sentinel h) (head_of sentinel) (p ∷ xs)
add_header-IsRing p sentinel [] h ring hp hn =
    rw (add_writes p sentinel (head_of sentinel) h ring.chain.0 ring.headers.0 hp hn.0) (record {
      chain =
          let odd = ring.headers.0 in (ground arith, ground arith, (ground arith, ground arith));
      headers = (ring.headers.0, (hp, tt));
      distinct = ((λ e. hn.0 (sym e), tt), (tt, tt));
    })
add_header-IsRing p sentinel (x ∷ xs) h ring hp hn =
    let head = head_of sentinel in
    let odd = ring.headers.0 in
    let odds = ring.headers.1 in
    let out = ring.distinct.0 in
    let apart : x ≢ head = λ e. out.0 (sym e) in
    let h1 = write (p + 1) x h in
    let h2 = write (p + 2) head h1 in
    let h3 = write (x + 2) p h2 in
    let c1 =
      Chain-write (p + 1) x x head xs h (Spared-next p x head xs hp odd odds hn.1) ring.chain.2 in
    let c2 =
      Chain-write (p + 2) head x head xs h1 (Spared-prev p x head xs hp odds hn.0 hn.1.1) c1 in
    let c3 =
      Chain-write (x + 2) p x head xs h2
        (Spared-prev x x head xs odds.0 odds apart ring.distinct.1.0) c2 in
    let c4 =
      Chain-write (head + 1) p x head xs h3 (Spared-next head x head xs odd odd odds out) c3 in
    let away = hn.1.0 in
    rw (add_writes p sentinel x h ring.chain.0 odd hp hn.0) (record {
      chain = (ground arith, ground arith, (ground arith, ground arith, c4));
      headers = (odd, (hp, odds));
      distinct = ((λ e. hn.0 (sym e), out), (hn.1, ring.distinct.1));
    })
