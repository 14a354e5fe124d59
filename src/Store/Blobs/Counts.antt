-- ===== src/Store/Blobs/Counts.antt =====
-- References to a blob, counted.
use audible.Base.{
  ℕ, zero, suc, ◌+◌, ◌^◌, ◌<◌, ◌≡◌, refl, ◌∙◌, ap, Bool, true, false, Option, none, some, List, [],
  ◌∷◌, ◌++◌, length, if◌then◌else◌, arith, length-append,
}
use audible.Store.Blobs.{Blob, Blobs, blob_at, set_blob, blob_ref, blob_unref, blob_create, copied}

-- Calls of `blob_ref`, for `true`, and of `blob_unref` on one blob, in order.
abbrev pub references : List Bool → ℕ → Blobs → Option Blobs
references [] p blobs = some blobs
references (op ∷ ops) p blobs =
    elim (if op then blob_ref (some p) blobs else blob_unref (some p) blobs) [
      | none ↦ none
      | some blobs' ↦ references ops p blobs'
    ]

-- A counter that must not be touched when it has come to zero.
abbrev pub balance : List Bool → ℕ → Option ℕ
balance [] n = some n
balance (op ∷ ops) zero = none
balance (true ∷ ops) (suc n) = balance ops (suc (suc n))
balance (false ∷ ops) (suc n) = balance ops n

-- A blob with a count; without one it is freed.
abbrev pub counted : Blob → ℕ → Option Blob
counted b zero = none
counted b (suc n) = some (record b { refcnt = suc n })

abbrev pub looked_up : ℕ → Option Blobs → Option (Option Blob)
looked_up p none = none
looked_up p (some blobs) = some (blob_at p blobs)

abbrev pub as_counted : Blob → Option ℕ → Option (Option Blob)
as_counted b none = none
as_counted b (some n) = some (counted b n)

blob_at-set_blob :
    (p : ℕ) (b : Option Blob) (blobs : Blobs)
    → p < length blobs
    → blob_at p (set_blob p b blobs) ≡ b
blob_at-set_blob p b [] h = absurd (omega (arith, h))
blob_at-set_blob zero b (b' ∷ blobs) h = refl
blob_at-set_blob (suc p) b (b' ∷ blobs) h = blob_at-set_blob p b blobs (omega (arith, h))

length-set_blob :
    (p : ℕ) (b : Option Blob) (blobs : Blobs) → length (set_blob p b blobs) ≡ length blobs
length-set_blob p b [] = refl
length-set_blob zero b (b' ∷ blobs) = refl
length-set_blob (suc p) b (b' ∷ blobs) = ap suc (length-set_blob p b blobs)

blob_ref_lem :
    (p n : ℕ) (b : Blob) (blobs : Blobs)
    → suc n + 1 < 2 ^ 32
    → blob_at p blobs ≡ counted b (suc n)
    → blob_ref (some p) blobs ≡ some (set_blob p (counted b (suc (suc n))) blobs)
unfolding blob_ref
blob_ref_lem p n b blobs small e = ground arith

blob_unref_lem :
    (p n : ℕ) (b : Blob) (blobs : Blobs)
    → suc n < 2 ^ 32
    → blob_at p blobs ≡ counted b (suc n)
    → blob_unref (some p) blobs ≡ some (set_blob p (counted b n) blobs)
unfolding blob_unref
blob_unref_lem p zero b blobs small e = ground arith
blob_unref_lem p (suc n) b blobs small e = ground arith

-- A freed blob is not touched again.
freed :
    (op : Bool) (ops : List Bool) (p : ℕ) (blobs : Blobs)
    → blob_at p blobs ≡ none
    → references (op ∷ ops) p blobs ≡ none
unfolding blob_ref blob_unref
freed true ops p blobs e = ground arith
freed false ops p blobs e = ground arith

references_lem :
    (ops : List Bool) (p n : ℕ) (b : Blob) (blobs : Blobs)
    → n + length ops < 2 ^ 32
    → p < length blobs
    → blob_at p blobs ≡ counted b n
    → looked_up p (references ops p blobs) ≡ as_counted b (balance ops n)
references_lem [] p n b blobs small h e = ap some e
references_lem (op ∷ ops) p zero b blobs small h e = ap (looked_up p) (freed op ops p blobs e)
references_lem (true ∷ ops) p (suc n) b blobs small h e =
    ap
      (λ (x : Option Blobs).
        looked_up p
          (elim x as (λ _. Option Blobs) [ none ↦ none | some blobs' ↦ references ops p blobs' ]))
      (blob_ref_lem p n b blobs (omega (arith, small)) e)
    ∙ references_lem ops p (suc (suc n)) b (set_blob p (counted b (suc (suc n))) blobs)
        (omega (arith, small)) (omega (arith, h, length-set_blob p (counted b (suc (suc n))) blobs))
        (blob_at-set_blob p (counted b (suc (suc n))) blobs h)
references_lem (false ∷ ops) p (suc n) b blobs small h e =
    ap
      (λ (x : Option Blobs).
        looked_up p
          (elim x as (λ _. Option Blobs) [ none ↦ none | some blobs' ↦ references ops p blobs' ]))
      (blob_unref_lem p n b blobs (omega (arith, small)) e)
    ∙ references_lem ops p n b (set_blob p (counted b n) blobs) (omega (arith, small))
        (omega (arith, h, length-set_blob p (counted b n) blobs))
        (blob_at-set_blob p (counted b n) blobs h)

abbrev pub new_blob : Option (List ℕ) → ℕ → Blob
new_blob content size = record { refcnt = 1; size = size; content = copied content size }

pub blob_at-last : (blobs : Blobs) (b : Option Blob) → blob_at (length blobs) (blobs ++ b ∷ []) ≡ b
blob_at-last [] b = refl
blob_at-last (b' ∷ blobs) b = blob_at-last blobs b

set_blob-last :
    (blobs : Blobs) (b b' : Option Blob)
    → set_blob (length blobs) b' (blobs ++ b ∷ []) ≡ blobs ++ b' ∷ []
set_blob-last [] b b' = refl
set_blob-last (b'' ∷ blobs) b b' = ap (λ bs. b'' ∷ bs) (set_blob-last blobs b b')

pub blob_create_lem :
    (content : Option (List ℕ)) (size : ℕ) (blobs : Blobs)
    → blob_create content size blobs
      ≡ some (length blobs, blobs ++ some (new_blob content size) ∷ [])
unfolding blob_create blob_ref
blob_create_lem content size blobs =
    let old : Blob = record { refcnt = 0; size = size; content = copied content size } in
    ground (
      arith,
      blob_at-last blobs (some old),
      set_blob-last blobs (some old) (some (new_blob content size)),
    )

-- A new blob after `blob_create`, with `ops` calls of `blob_ref` and `blob_unref` on it, fewer than
-- `2 ^ 32 - 1`: it has the count that starts at 1 and goes up and down with them, and is freed exactly
-- when that comes to 0; a call after that finds the blob freed.
pub blob_create-references :
    (content : Option (List ℕ)) (size : ℕ) (blobs : Blobs) (ops : List Bool)
    → 1 + length ops < 2 ^ 32
    → (blob_create content size blobs
        ≡ some (length blobs, blobs ++ some (new_blob content size) ∷ []))
      × (looked_up
            (length blobs)
            (references ops (length blobs) (blobs ++ some (new_blob content size) ∷ []))
          ≡ as_counted (new_blob content size) (balance ops 1))
blob_create-references content size blobs ops small = (
  blob_create_lem content size blobs,
  references_lem ops (length blobs) 1 (new_blob content size)
      (blobs ++ some (new_blob content size) ∷ []) small
      (omega (arith, length-append blobs (some (new_blob content size) ∷ [])))
      (blob_at-last blobs (some (new_blob content size))),
)
