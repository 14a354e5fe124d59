-- ===== src/Store/Versions.antt =====
-- `version_dispose_all` of Server Store/src/data.c.
--
-- The versions live in a heap of their own, in which a pointer is a position and a freed version leaves `none`;
-- NULL is the pointer `none`. The link to the version before is not read here.
use mathlib.Core.Option.{Option, none, some}
use audible.Base.{ℕ, zero, suc, ◌≡◌, refl, inl, inr, Option-cases, List, [], ◌∷◌}
use audible.Store.Transactions.{Transaction}
use audible.Store.Blobs.{Blobs, Version, version_dispose}

pub record VersionNode : Type 0 where
  pub version : Version
  pub next : Option ℕ

abbrev pub Versions : Type 0
Versions = List (Option VersionNode)

pub node_at : ℕ → Versions → Option VersionNode
node_at p [] = none
node_at zero (entry ∷ versions) = entry
node_at (suc p) (entry ∷ versions) = node_at p versions

-- `free(vp)`
pub free_node : ℕ → Versions → Versions
free_node p [] = []
free_node zero (entry ∷ versions) = none ∷ versions
free_node (suc p) (entry ∷ versions) = entry ∷ free_node p versions

-- The loop has come to NULL, has read a freed version or blob, or has no fuel left.
pub data Disposal : Type 0 where
  disposed : Versions → List Transaction → Blobs → Disposal
  fault : Disposal
  out_of_fuel : Disposal

-- What the loop goes on with after `version_dispose`: the link of the version, if that can be read.
abbrev pub follow : (Option ℕ → Disposal) → Option VersionNode → Disposal
follow loop none = Disposal.fault
follow loop (some entry) = loop entry.next

-- `version_dispose_all(vp)`, with fuel for its rounds.
pub version_dispose_all : ℕ → Option ℕ → Versions → List Transaction → Blobs → Disposal
unfolding node_at free_node
version_dispose_all zero vp versions list blobs = Disposal.out_of_fuel
version_dispose_all (suc fuel) none versions list blobs = Disposal.disposed versions list blobs
version_dispose_all (suc fuel) (some p) versions list blobs = elim (node_at p versions) [
  | none ↦ Disposal.fault
  | some entry ↦ elim (version_dispose entry.version (list, blobs)) [
    | none ↦ Disposal.fault
    | some (list', blobs') ↦
        follow (λ next. version_dispose_all fuel next (free_node p versions) list' blobs')
          (node_at p (free_node p versions))
  ]
]

node_at-free : (p : ℕ) (versions : Versions) → node_at p (free_node p versions) ≡ none
unfolding node_at free_node
node_at-free p [] = refl
node_at-free zero (entry ∷ versions) = refl
node_at-free (suc p) (entry ∷ versions) = node_at-free p versions

-- Every call of `version_dispose_all` but the one with NULL reads a version that has been freed.
pub version_dispose_all-fault :
    (fuel p : ℕ) (versions : Versions) (list : List Transaction) (blobs : Blobs)
    → version_dispose_all (suc fuel) (some p) versions list blobs ≡ Disposal.fault
unfolding version_dispose_all
version_dispose_all-fault fuel p versions list blobs = elim (Option-cases (node_at p versions)) [
  | inl e ↦ rw (version_dispose_all, e) refl
  | inr (entry, e) ↦ elim (Option-cases (version_dispose entry.version (list, blobs))) [
    | inl e' ↦ rw (version_dispose_all, e, e') refl
    | inr (rest, e') ↦ rw (version_dispose_all, e, e', node_at-free p versions) refl
  ]
]
