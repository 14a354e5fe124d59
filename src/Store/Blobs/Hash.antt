-- ===== src/Store/Blobs/Hash.antt =====
-- The hash of a key, and keys that compare as equal.
use audible.Base.{
  ℕ, suc, ◌+◌, ◌-◌, ◌*◌, ◌%◌, ◌^◌, ◌<◌, ◌≡◌, ◌≢◌, refl, ◌∙◌, ap, Option, none, some, List, [], ◌∷◌,
  ◌++◌, ltb, if◌then◌else◌, add32, u32, minus_one, arith,
}
use audible.Store.Blobs.{
  Blobs, Key, content_at, long_of_char, hash_loop, blob_hash, key_create, blob_compare, key_compare,
}

-- The number whose digits in base 33 are `start` and the characters, without any bound; the characters
-- from 128 on are negative, and stand here modulo `2 ^ 32`.
abbrev pub in_base_33 : ℕ → List ℕ → ℕ
in_base_33 start [] = start
in_base_33 start (c ∷ cs) =
    in_base_33 (start * 33 + (if ltb c 128 then c else c + (2 ^ 32 - 256))) cs

hash_loop_lem :
    (h start : ℕ) (s : List ℕ) → u32 h ≡ u32 start → u32 (hash_loop h s) ≡ u32 (in_base_33 start s)
unfolding hash_loop
hash_loop_lem h start [] e = e
hash_loop_lem h start (c ∷ cs) e =
    hash_loop_lem ((h * 2 ^ 5 % 2 ^ 64 + h + long_of_char c) % 2 ^ 64)
      (start * 33 + (if ltb c 128 then c else c + (2 ^ 32 - 256))) cs (ground arith)

-- What `blob_hash` gives for a content.
abbrev hash_of : Option (List ℕ) → Option ℕ
hash_of content = elim content [ none ↦ none | some s ↦ some (u32 (hash_loop 5381 s)) ]

-- `blob_hash` of a blob with a content is the low word of the number whose digits in base 33 are 5381 and
-- the characters: neither the shift nor the sums of 64 bits change it.
pub blob_hash_lem :
    (p : ℕ) (blobs : Blobs) (s : List ℕ)
    → content_at p blobs ≡ some s
    → blob_hash p blobs ≡ some (u32 (in_base_33 5381 s))
unfolding blob_hash
blob_hash_lem p blobs s e =
    ap (λ (x : Option (List ℕ)). hash_of x) e ∙ ap some (hash_loop_lem 5381 5381 s refl)

key_create_lem :
    (p : ℕ) (blobs : Blobs) (s : List ℕ)
    → content_at p blobs ≡ some s
    → key_create p blobs ≡ some (record { hash = u32 (hash_loop 5381 s); blob = some p })
unfolding key_create blob_hash
key_create_lem p blobs s e =
    ap
      (λ (x : Option (List ℕ)). elim (hash_of x) as (λ _. Option Key) [
        | none ↦ none
        | some h ↦ some (record { hash = h; blob = some p })
      ])
      e

hash_loop-append : (h : ℕ) (s t : List ℕ) → hash_loop h (s ++ t) ≡ hash_loop (hash_loop h s) t
unfolding hash_loop
hash_loop-append h [] t = refl
hash_loop-append h (c ∷ cs) t =
    hash_loop-append ((h * 2 ^ 5 % 2 ^ 64 + h + long_of_char c) % 2 ^ 64) cs t

-- The hashes of two strings that differ in the last character, by one.
hash_next :
    (w : List ℕ) (c : ℕ)
    → c + 1 < 128
    → u32 (hash_loop 5381 (w ++ suc c ∷ [])) ≡ add32 (u32 (hash_loop 5381 (w ++ c ∷ []))) 1
unfolding hash_loop
hash_next w c small =
    ground (arith, hash_loop-append 5381 w (suc c ∷ []), hash_loop-append 5381 w (c ∷ []))

-- Two keys in different blobs that differ in their last character alone, by one, compare as equal when
-- `strcmp` gives the difference of the characters, `-1`: it cancels the difference of the hashes.
pub key_compare-cancels :
    (strcmp : List ℕ → List ℕ → ℕ) (blobs : Blobs) (p q : ℕ) (w : List ℕ) (c : ℕ) (key1 key2 : Key)
    → c + 1 < 128
    → p ≢ q
    → content_at p blobs ≡ some (w ++ c ∷ [])
    → content_at q blobs ≡ some (w ++ suc c ∷ [])
    → strcmp (w ++ c ∷ []) (w ++ suc c ∷ []) ≡ minus_one
    → key_create p blobs ≡ some key1
    → key_create q blobs ≡ some key2
    → key_compare strcmp key1 key2 blobs ≡ some 0
unfolding key_compare blob_compare
key_compare-cancels strcmp blobs p q w c key1 key2 small differ at_p at_q order made1 made2 =
    ground (
      arith,
      key_create_lem p blobs (w ++ c ∷ []) at_p,
      key_create_lem q blobs (w ++ suc c ∷ []) at_q,
      hash_next w c small,
    )
