-- ===== src/Store/Blobs.antt =====
-- Server Store/src/data.c: blobs, keys and versions.
--
-- Blobs live in a heap, a list in which a pointer is a position and a freed blob leaves `none`; NULL is
-- the pointer `none`. Results are `none` where the code reads a freed blob or passes NULL to a function of
-- the C library, and where it locks a mutex that it holds. `strcmp` is a parameter. A mutex makes what it
-- protects one step. Debugging output and the prefix it needs are left out.
pub mod Counts
pub mod Hash
use audible.Base.{
  ℕ, zero, suc, ◌+◌, ◌-◌, ◌*◌, ◌%◌, ◌^◌, Bool, Option, none, some, List, [], ◌∷◌, ◌++◌, length,
  take, ltb, ◌==◌, if◌then◌else◌, add32, sub32, u32, minus_one, is_negative,
}
use audible.Store.Transactions.{Transaction, trans_ref, trans_unref}

pub record Blob : Type 0 where
  pub refcnt : ℕ
  pub size : ℕ
  pub content : Option (List ℕ)

pub record Key : Type 0 where
  pub hash : ℕ
  pub blob : Option ℕ

-- The links of a version list are its order.
pub record Version : Type 0 where
  pub creator : ℕ
  pub blob : Option ℕ

abbrev pub Blobs : Type 0
Blobs = List (Option Blob)

abbrev pub blob_at : ℕ → Blobs → Option Blob
blob_at p [] = none
blob_at zero (b ∷ blobs) = b
blob_at (suc p) (b ∷ blobs) = blob_at p blobs

abbrev pub set_blob : ℕ → Option Blob → Blobs → Blobs
set_blob p b [] = []
set_blob zero b (b' ∷ blobs) = b ∷ blobs
set_blob (suc p) b (b' ∷ blobs) = b' ∷ set_blob p b blobs

-- The bytes before the first NUL.
abbrev pub before_nul : List ℕ → List ℕ
before_nul [] = []
before_nul (c ∷ cs) = let rest = before_nul cs in if c == 0 then [] else c ∷ rest

-- `blob_ref(bp, why)`
unfoldable pub blob_ref : Option ℕ → Blobs → Option Blobs
blob_ref none blobs = some blobs
blob_ref (some p) blobs = elim (blob_at p blobs) [
  | none ↦ none
  | some b ↦ some (set_blob p (some (record b { refcnt = add32 b.refcnt 1 })) blobs)
]

-- `blob_unref(bp, why)`: the last reference frees.
unfoldable pub blob_unref : Option ℕ → Blobs → Option Blobs
blob_unref none blobs = some blobs
blob_unref (some p) blobs = elim (blob_at p blobs) [
  | none ↦ none
  | some b ↦
      let refcnt = sub32 b.refcnt 1 in
      some (set_blob p (if refcnt == 0 then none else some (record b { refcnt = refcnt })) blobs)
]

-- `strndup(content, size)`, where there is a content.
abbrev pub copied : Option (List ℕ) → ℕ → Option (List ℕ)
copied none size = none
copied (some bytes) size = some (before_nul (take size bytes))

-- `blob_create(content, size)`: the new blob, and the heap.
unfoldable pub blob_create : Option (List ℕ) → ℕ → Blobs → Option (ℕ × Blobs)
blob_create content size blobs =
    let b : Blob = record { refcnt = 0; size = size; content = copied content size } in
    elim (blob_ref (some (length blobs)) (blobs ++ some b ∷ [])) [
      | none ↦ none
      | some blobs' ↦ some (length blobs, blobs')
    ]

-- The content of a blob that is not freed and has one.
abbrev pub content_at : ℕ → Blobs → Option (List ℕ)
content_at p blobs = elim (blob_at p blobs) [ none ↦ none | some b ↦ b.content ]

-- `blob_compare(bp1, bp2)`; on one blob twice it locks its mutex twice.
unfoldable pub blob_compare : (List ℕ → List ℕ → ℕ) → Option ℕ → Option ℕ → Blobs → Option ℕ
blob_compare strcmp none q blobs = some minus_one
blob_compare strcmp (some p) none blobs = some minus_one
blob_compare strcmp (some p) (some q) blobs = if p == q then none else elim (content_at p blobs) [
  | none ↦ none
  | some s ↦ elim (content_at q blobs) [ none ↦ none | some t ↦ some (strcmp s t) ]
]

-- A `char` as the `unsigned long` that it is added as.
abbrev pub long_of_char : ℕ → ℕ
long_of_char c = if ltb c 128 then c else c + (2 ^ 64 - 256)

-- The loop of `blob_hash`.
unfoldable pub hash_loop : ℕ → List ℕ → ℕ
hash_loop hash [] = hash
hash_loop hash (c ∷ cs) = hash_loop ((hash * 2 ^ 5 % 2 ^ 64 + hash + long_of_char c) % 2 ^ 64) cs

-- `blob_hash(bp)`; the result is an `int`.
unfoldable pub blob_hash : ℕ → Blobs → Option ℕ
blob_hash p blobs = elim (content_at p blobs) [
  | none ↦ none
  | some s ↦ some (u32 (hash_loop 5381 s))
]

unfoldable pub key_create : ℕ → Blobs → Option Key
key_create p blobs = elim (blob_hash p blobs) [
  | none ↦ none
  | some h ↦ some (record { hash = h; blob = some p })
]

unfoldable pub key_dispose : Key → Blobs → Option Blobs
key_dispose key blobs = blob_unref key.blob blobs

-- `abs(i)` of an `int`.
abbrev pub abs_int : ℕ → ℕ
abs_int i = if is_negative i then sub32 0 i else i

-- `key_compare(kp1, kp2)` of two keys.
unfoldable pub key_compare : (List ℕ → List ℕ → ℕ) → Key → Key → Blobs → Option ℕ
key_compare strcmp key1 key2 blobs = elim (blob_compare strcmp key1.blob key2.blob blobs) [
  | none ↦ none
  | some order ↦ some (add32 (abs_int (sub32 key1.hash key2.hash)) order)
]

-- `version_create(tp, bp)`: the version, and the transactions.
pub version_create : ℕ → Option ℕ → List Transaction → Version × List Transaction
version_create tp bp list = (record { creator = tp; blob = bp }, trans_ref tp list)

-- `version_dispose(vp)`
unfoldable pub version_dispose :
    Version → List Transaction × Blobs → Option (List Transaction × Blobs)
version_dispose vp (list, blobs) = elim (blob_unref vp.blob blobs) [
  | none ↦ none
  | some blobs' ↦ some (trans_unref vp.creator list, blobs')
]
