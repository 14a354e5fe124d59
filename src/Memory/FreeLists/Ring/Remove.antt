-- ===== src/Memory/FreeLists/Ring/Remove.antt =====
-- `removeHeader` takes a block out of its free list, wherever it stands.
use mathlib.Core.List.{append-nil}
use audible.Base.{ℕ, ◌+◌, ◌%◌, ◌≡◌, ◌≢◌, ◌∙◌, ap, sym, List, [], ◌∷◌, ◌++◌, arith}
use audible.Memory.Info.{Heap, write, next, prev, set_next, set_prev}
use audible.Memory.FreeLists.{remove_header}
use audible.Memory.FreeLists.Ring.{
  Chain, AreHeaders, NotIn, AreDistinct, IsRing, Chain-write, Spared-next, Spared-prev,
}

abbrev AllNotIn : List ℕ → List ℕ → Type 0
AllNotIn [] ys = Unit
AllNotIn (x ∷ xs) ys = NotIn x ys × AllNotIn xs ys

NotIn-append : (p : ℕ) (xs ys : List ℕ) → NotIn p (xs ++ ys) → NotIn p xs × NotIn p ys
NotIn-append p [] ys h = (tt, h)
NotIn-append p (x ∷ xs) ys h = let rest = NotIn-append p xs ys h.1 in ((h.0, rest.0), rest.1)

NotIn-append_of : (p : ℕ) (xs ys : List ℕ) → NotIn p xs → NotIn p ys → NotIn p (xs ++ ys)
NotIn-append_of p [] ys h k = k
NotIn-append_of p (x ∷ xs) ys h k = (h.0, NotIn-append_of p xs ys h.1 k)

-- Two lists that are distinct together.
AreDistinct-append :
    (xs ys : List ℕ) → AreDistinct (xs ++ ys) → AreDistinct xs × AreDistinct ys × AllNotIn xs ys
AreDistinct-append [] ys h = (tt, h, tt)
AreDistinct-append (x ∷ xs) ys h =
    let rest = AreDistinct-append xs ys h.1 in
    let out = NotIn-append x xs ys h.0 in ((out.0, rest.0), rest.1, (out.1, rest.2))

AreDistinct-append_of :
    (xs ys : List ℕ) → AreDistinct xs → AreDistinct ys → AllNotIn xs ys → AreDistinct (xs ++ ys)
AreDistinct-append_of [] ys h k a = k
AreDistinct-append_of (x ∷ xs) ys h k a =
    (NotIn-append_of x xs ys h.0 a.0, AreDistinct-append_of xs ys h.1 k a.1)

AreHeaders-append : (xs ys : List ℕ) → AreHeaders (xs ++ ys) → AreHeaders xs × AreHeaders ys
AreHeaders-append [] ys h = (tt, h)
AreHeaders-append (x ∷ xs) ys h = let rest = AreHeaders-append xs ys h.1 in ((h.0, rest.0), rest.1)

AreHeaders-append_of : (xs ys : List ℕ) → AreHeaders xs → AreHeaders ys → AreHeaders (xs ++ ys)
AreHeaders-append_of [] ys h k = k
AreHeaders-append_of (x ∷ xs) ys h k = (h.0, AreHeaders-append_of xs ys h.1 k)

AllNotIn-head : (y : ℕ) (xs ys : List ℕ) → AllNotIn xs (y ∷ ys) → NotIn y xs
AllNotIn-head y [] ys h = tt
AllNotIn-head y (x ∷ xs) ys h = ((λ e. h.0.0 (sym e)), AllNotIn-head y xs ys h.1)

AllNotIn-tail : (y : ℕ) (xs ys : List ℕ) → AllNotIn xs (y ∷ ys) → AllNotIn xs ys
AllNotIn-tail y [] ys h = tt
AllNotIn-tail y (x ∷ xs) ys h = (h.0.1, AllNotIn-tail y xs ys h.1)

-- The header in front of what stands behind `p` and `xs`.
abbrev last : ℕ → List ℕ → ℕ
last p [] = p
last p (x ∷ xs) = last x xs

last-NotIn : (p : ℕ) (xs ys : List ℕ) → AllNotIn (p ∷ xs) ys → NotIn (last p xs) ys
last-NotIn p [] ys h = h.0
last-NotIn p (x ∷ xs) ys h = last-NotIn x xs ys h.1

ne-last : (a p : ℕ) (xs : List ℕ) → NotIn a (p ∷ xs) → a ≢ last p xs
ne-last a p [] h = h.0
ne-last a p (x ∷ xs) h = ne-last a x xs h.1

last-odd : (p : ℕ) (xs : List ℕ) → AreHeaders (p ∷ xs) → last p xs % 2 ≡ 1
last-odd p [] h = h.0
last-odd p (x ∷ xs) h = last-odd x xs h.1

module _ (h : Heap) where
  Chain-split :
      (p x q : ℕ) (xs ys : List ℕ) → Chain h p (xs ++ x ∷ ys) q → Chain h p xs x × Chain h x ys q
  Chain-split p x q [] ys c = ((c.0, c.1), c.2)
  Chain-split p x q (y ∷ xs) ys c =
      let rest = Chain-split y x q xs ys c.2 in ((c.0, c.1, rest.0), rest.1)

  Chain-join :
      (p x q : ℕ) (xs ys : List ℕ) → Chain h p xs x → Chain h x ys q → Chain h p (xs ++ x ∷ ys) q
  Chain-join p x q [] ys c d = (c.0, c.1, d)
  Chain-join p x q (y ∷ xs) ys c d = (c.0, c.1, Chain-join y x q xs ys c.2 d)

  prev-last : (p x : ℕ) (xs : List ℕ) → Chain h p xs x → prev x h ≡ last p xs
  prev-last p x [] c = c.1
  prev-last p x (y ∷ xs) c = prev-last y x xs c.2

  -- The two assignments, between `a` and `b`.
  remove_writes :
      (x a b : ℕ)
      → prev x h ≡ a
      → next x h ≡ b
      → x ≢ a
      → x % 2 ≡ 1
      → a % 2 ≡ 1
      → remove_header x h ≡ write (b + 2) a (write (a + 1) b h)
  unfolding remove_header
  remove_writes x a b ea eb hn hx ha =
      let cut = λ (s t : ℕ). set_next s t h in
      let same_next : next x (cut a b) ≡ b = ground arith in
      let same_prev : prev x (cut a b) ≡ a = ground arith in
      ap (λ s. set_prev (next x (cut s (next x h))) (prev x (cut s (next x h))) (cut s (next x h)))
        ea
      ∙ ap (λ t. set_prev (next x (cut a t)) (prev x (cut a t)) (cut a t)) eb
      ∙ ap (λ t. set_prev t (prev x (cut a b)) (cut a b)) same_next
      ∙ ap (λ s. set_prev b s (cut a b)) same_prev

  -- The chain up to `x` now leads to `b`.
  Chain-retarget :
      (p x b : ℕ) (xs : List ℕ)
      → Chain h p xs x
      → AreHeaders (p ∷ xs)
      → b % 2 ≡ 1
      → AreDistinct (p ∷ xs)
      → NotIn b xs
      → Chain (write (b + 2) (last p xs) (write (last p xs + 1) b h)) p xs b
  Chain-retarget p x b [] c odds ob d n = let odd = odds.0 in (ground arith, ground arith)
  Chain-retarget p x b (y ∷ xs) c odds ob d n =
      let odd = odds.0 in
      let odd' = odds.1.0 in
      let ol = last-odd y xs odds.1 in
      let far = ne-last p y xs d.0 in
      let near = n.0 in (ground arith, ground arith, Chain-retarget y x b xs c.2 odds.1 ob d.1 n.1)

-- `removeHeader` takes the block `x` out of the list and leaves the others in their order.
pub remove_header-IsRing :
    (head x : ℕ) (xs ys : List ℕ) (h : Heap)
    → IsRing h head (xs ++ x ∷ ys)
    → IsRing (remove_header x h) head (xs ++ ys)
remove_header-IsRing head x xs ys h ring =
    let parts = AreDistinct-append (head ∷ xs) (x ∷ ys) ring.distinct in
    let odds = AreHeaders-append (head ∷ xs) (x ∷ ys) ring.headers in
    let a = last head xs in
    let away = last-NotIn head xs (x ∷ ys) parts.2 in
    let chains = Chain-split h head x head xs ys ring.chain in
    record {
      chain = rejoin ys chains.1 parts odds away chains.0;
      headers = AreHeaders-append_of (head ∷ xs) ys odds.0 odds.1.1;
      distinct =
          AreDistinct-append_of (head ∷ xs) ys parts.0 parts.1.1
            (AllNotIn-tail x (head ∷ xs) ys parts.2);
    }
  where
    rejoin :
        (ys : List ℕ)
        → Chain h x ys head
        → AreDistinct (head ∷ xs) × AreDistinct (x ∷ ys) × AllNotIn (head ∷ xs) (x ∷ ys)
        → AreHeaders (head ∷ xs) × AreHeaders (x ∷ ys)
        → NotIn (last head xs) (x ∷ ys)
        → Chain h head xs x
        → Chain (remove_header x h) head (xs ++ ys) head
    rejoin [] d parts odds away c =
        let a = last head xs in
        let cut =
          remove_writes h x a head (prev-last h head x xs c) d.0 (λ e. away.0 (sym e)) odds.1.0
            (last-odd head xs odds.0) in
        rw (append-nil xs, cut)
          (Chain-retarget h head x head xs c odds.0 odds.0.0 parts.0 parts.0.0)
    rejoin (y ∷ ys) d parts odds away c =
        let a = last head xs in
        let oa = last-odd head xs odds.0 in
        let oy = odds.1.1.0 in
        let cut =
          remove_writes h x a y (prev-last h head x xs c) d.0 (λ e. away.0 (sym e)) odds.1.0 oa in
        let front =
          Chain-retarget h head x y xs c odds.0 oy parts.0
            (AllNotIn-head y xs ys (AllNotIn-tail x xs (y ∷ ys) parts.2.1)) in
        let h1 = write (a + 1) y h in
        let back1 =
          Chain-write (a + 1) y y head ys h (Spared-next a y head ys oa odds.0.0 odds.1.1 away.1)
            d.2 in
        let back2 =
          Chain-write (y + 2) a y head ys h1
            (Spared-prev y y head ys oy odds.1.1 (λ e. parts.2.0.1.0 (sym e)) parts.1.1.0) back1 in
        rw cut (Chain-join (write (y + 2) a h1) head y head xs ys front back2)
