-- ===== src/Memory/Blocks/Size.antt =====
-- The size of the block for a request.
use audible.Base.{ℕ, ◌+◌, ◌%◌, ◌^◌, ◌≤◌, ◌<◌, ◌≡◌, arith}
use audible.Memory.Blocks.{get_new_size}

-- For a request that an `int` can hold with its header and padding, `getNewSize` is the least multiple
-- of 16 that is at least 32 and has room for the request and the header.
pub get_new_size_least :
    (size m : ℕ)
    → size + 24 ≤ 2 ^ 31
    → (get_new_size size % 16 ≡ 0)
      × (32 ≤ get_new_size size)
      × (size + 8 ≤ get_new_size size)
      × (m % 16 ≡ 0 → 32 ≤ m → size + 8 ≤ m → get_new_size size ≤ m)
unfolding get_new_size
get_new_size_least size m h = (ground arith, ground arith, ground arith, λ a b c. ground arith)

-- From 2 ^ 31 - 8 up to 2 ^ 32 - 9 bytes the sum wraps to a negative `int`, and the size is 32.
pub get_new_size_wrapped :
    (size : ℕ) → 2 ^ 31 ≤ size + 8 → size + 8 < 2 ^ 32 → get_new_size size ≡ 32
unfolding get_new_size
get_new_size_wrapped size lo hi = ground arith
