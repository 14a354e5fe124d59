-- ===== src/Base/Bits.antt =====
-- `|` of fields that do not overlap, `&` with a mask of low ones, and `^`, as arithmetic on words.
mod Digit
use Digit.{and_digit, or_digit, xor_digit}
use Prim.Native.Nat.{ℕ, zero, suc, ◌+◌, ◌-◌, ◌*◌, ◌/◌, ◌%◌, ◌^◌, ◌≤◌, ◌<◌}
use Prim.Native.Nat.{bit_and, bit_or, bit_xor, bit_or-bitwise, max}
use mathlib.Core.Logic.{◌≢◌}
use mathlib.Core.Path.{◌≡◌, refl, ap, ap₂, ◌≡⟨◌⟩◌, ◌∎}
use mathlib.Core.WellFounded
use native.Mathlib.Nat.{
  pow-suc, one-le-pow, div-div-eq-div-mul, zero-div, mul-add-mod_self_left, mod-eq_of_lt, mod-lt,
  div-add-mod, mod-one, pow-succ',
}
use native.Mathlib.Omega.{arith}
use audible.Base.Order.{lt_wf}

or-zero : (a : ℕ) → bit_or a 0 ≡ a
or-zero a = WellFounded.induction lt_wf {C = λ n. bit_or n 0 ≡ n} a step
  where
    step : (n : ℕ) → ((m : ℕ) → m < n → bit_or m 0 ≡ m) → bit_or n 0 ≡ n
    step zero smaller = refl
    step (suc n) smaller = omega (arith, or_digit (suc n) 0, smaller (suc n / 2) (omega arith))

and-zero : (a : ℕ) → bit_and a 0 ≡ 0
and-zero a = WellFounded.induction lt_wf {C = λ n. bit_and n 0 ≡ 0} a step
  where
    step : (n : ℕ) → ((m : ℕ) → m < n → bit_and m 0 ≡ 0) → bit_and n 0 ≡ 0
    step zero smaller = refl
    step (suc n) smaller = omega (arith, and_digit (suc n) 0, smaller (suc n / 2) (omega arith))

pub xor-zero : (a : ℕ) → bit_xor a 0 ≡ a
xor-zero a = WellFounded.induction lt_wf {C = λ n. bit_xor n 0 ≡ n} a step
  where
    step : (n : ℕ) → ((m : ℕ) → m < n → bit_xor m 0 ≡ m) → bit_xor n 0 ≡ n
    step zero smaller = refl
    step (suc n) smaller = omega (arith, xor_digit (suc n) 0, smaller (suc n / 2) (omega arith))

zero-or : (b : ℕ) → bit_or 0 b ≡ b
zero-or b = bit_or-bitwise 0 b

half_ones : (k : ℕ) → (2 ^ suc k - 1) / 2 ≡ 2 ^ k - 1
half_ones k = omega (arith, pow-suc 2 k, one-le-pow k 2)

double_field : (q k : ℕ) → q * 2 ^ suc k ≡ 2 * (q * 2 ^ k)
double_field q k = omega (arith, ap (λ (t : ℕ). q * t) (pow-suc 2 k))

-- A field shifted past the bits of `r` is added by `|`.
pub or-shifted : (k q r : ℕ) → r < 2 ^ k → bit_or (q * 2 ^ k) r ≡ q * 2 ^ k + r
or-shifted zero q r fits = ground (arith, or-zero q)
or-shifted (suc k) q r fits = ground (
  arith,
  or_digit (q * 2 ^ suc k) r,
  double_field q k,
  pow-suc 2 k,
  or-shifted k q (r / 2) (omega (arith, pow-suc 2 k)),
)

-- Below a field, `|` goes on alone.
pub or-split :
    (k h r t : ℕ) → r < 2 ^ k → t < 2 ^ k → bit_or (h * 2 ^ k + r) t ≡ h * 2 ^ k + bit_or r t
or-split zero h zero zero hr ht = ground (arith, or-zero h, or-zero 0)
or-split zero h zero (suc t) hr ht = absurd (omega arith)
or-split zero h (suc r) t hr ht = absurd (omega arith)
or-split (suc k) h r t hr ht =
    let half : (h * 2 ^ suc k + r) / 2 ≡ h * 2 ^ k + r / 2 = omega (arith, double_field h k) in
    omega (
      arith,
      or_digit (h * 2 ^ suc k + r) t,
      or_digit r t,
      double_field h k,
      ap (λ (x : ℕ). bit_or x (t / 2)) half,
      or-split k h (r / 2) (t / 2) (omega (arith, pow-suc 2 k)) (omega (arith, pow-suc 2 k)),
    )

-- The same with the field on the right.
pub or-above : (k q r : ℕ) → r < 2 ^ k → bit_or r (q * 2 ^ k) ≡ q * 2 ^ k + r
or-above zero q zero fits = omega (arith, zero-or (q * 1))
or-above zero q (suc r) fits = absurd (omega arith)
or-above (suc k) q r fits =
    let half : q * 2 ^ suc k / 2 ≡ q * 2 ^ k = omega (arith, double_field q k) in
    omega (
      arith,
      or_digit r (q * 2 ^ suc k),
      double_field q k,
      ap (λ (x : ℕ). bit_or (r / 2) x) half,
      or-above k q (r / 2) (omega (arith, pow-suc 2 k)),
    )

-- All ones absorb what is joined to them.
pub or_ones : (k a : ℕ) → a < 2 ^ k → bit_or a (2 ^ k - 1) ≡ 2 ^ k - 1
or_ones zero zero ha = refl
or_ones zero (suc a) ha = absurd (omega arith)
or_ones (suc k) a ha = omega (
  arith,
  or_digit a (2 ^ suc k - 1),
  ap (λ (t : ℕ). bit_or (a / 2) t) (half_ones k),
  or_ones k (a / 2) (omega (arith, pow-suc 2 k)),
  pow-suc 2 k,
  one-le-pow k 2,
)

-- The lowest digit of a remainder, and the others.
pub mod_digit : (k n : ℕ) → n % 2 ^ suc k ≡ n / 2 % 2 ^ k * 2 + n % 2
mod_digit k n =
    n % 2 ^ suc k
    ≡⟨ ap (λ (t : ℕ). t % 2 ^ suc k) split ⟩ (2 ^ suc k * q + low) % 2 ^ suc k
    ≡⟨ mul-add-mod_self_left (2 ^ suc k) q low ⟩ low % 2 ^ suc k
    ≡⟨ mod-eq_of_lt (omega (arith, pow-suc 2 k, mod-lt (n / 2) (one-le-pow k 2 (omega arith)))) ⟩
      low ∎
  where
    q : ℕ
    q = n / 2 / 2 ^ k

    low : ℕ
    low = n / 2 % 2 ^ k * 2 + n % 2

    split : n ≡ 2 ^ suc k * q + low
    split = omega (arith, div-add-mod (n / 2) (2 ^ k), ap (λ (t : ℕ). t * q) (pow-suc 2 k))

-- `&` with `k` low ones keeps the remainder by `2 ^ k`.
pub and_mask : (k a : ℕ) → bit_and a (2 ^ k - 1) ≡ a % 2 ^ k
and_mask zero a = rw (and-zero a) (omega arith)
and_mask (suc k) a = omega (
  arith,
  and_digit a (2 ^ suc k - 1),
  ap (λ (t : ℕ). bit_and (a / 2) t) (half_ones k),
  and_mask k (a / 2),
  mod_digit k a,
  pow-suc 2 k,
  one-le-pow k 2,
)

xor-half : (a b : ℕ) → bit_xor a b / 2 ≡ bit_xor (a / 2) (b / 2)
xor-half a b = omega (arith, xor_digit a b)

xor_low : (a b : ℕ) → bit_xor a b % 2 ≡ (a % 2 + b % 2) % 2
xor_low a b = omega (arith, xor_digit a b)

-- `^` works on the low bits alone.
pub xor-mod : (k a b : ℕ) → bit_xor a b % 2 ^ k ≡ bit_xor (a % 2 ^ k) (b % 2 ^ k)
xor-mod zero a b = rw (mod-one a, mod-one b, mod-one (bit_xor a b))
xor-mod (suc k) a b =
    bit_xor a b % 2 ^ suc k
    ≡⟨ mod_digit k (bit_xor a b) ⟩ bit_xor a b / 2 % 2 ^ k * 2 + bit_xor a b % 2
    ≡⟨ omega
        (arith, ap (λ (t : ℕ). t % 2 ^ k) (xor-half a b), xor-mod k (a / 2) (b / 2), xor_low a b) ⟩
      bit_xor (a / 2 % 2 ^ k) (b / 2 % 2 ^ k) * 2 + (a % 2 + b % 2) % 2
    ≡⟨ rejoin ⟩ bit_xor (a % 2 ^ suc k) (b % 2 ^ suc k) ∎
  where
    rejoin :
        bit_xor (a / 2 % 2 ^ k) (b / 2 % 2 ^ k) * 2 + (a % 2 + b % 2) % 2
        ≡ bit_xor (a % 2 ^ suc k) (b % 2 ^ suc k)
    rejoin =
        let ea : a % 2 ^ suc k / 2 ≡ a / 2 % 2 ^ k = omega (arith, mod_digit k a) in
        let eb : b % 2 ^ suc k / 2 ≡ b / 2 % 2 ^ k = omega (arith, mod_digit k b) in
        omega (
          arith,
          xor_digit (a % 2 ^ suc k) (b % 2 ^ suc k),
          ap₂ bit_xor ea eb,
          mod_digit k a,
          mod_digit k b,
        )

pub xor-lt : (k a b : ℕ) → a < 2 ^ k → b < 2 ^ k → bit_xor a b < 2 ^ k
xor-lt zero zero zero ha hb = omega (arith, xor-zero 0)
xor-lt zero zero (suc b) ha hb = absurd (omega arith)
xor-lt zero (suc a) b ha hb = absurd (omega arith)
xor-lt (suc k) a b ha hb =
    let below =
      xor-lt k (a / 2) (b / 2) (omega (arith, pow-suc 2 k)) (omega (arith, pow-suc 2 k)) in
    omega (arith, xor_digit a b, pow-suc 2 k, below)

-- The same key undoes itself.
pub xor_undo : (k a b : ℕ) → a < 2 ^ k → b < 2 ^ k → bit_xor (bit_xor a b) b ≡ a
xor_undo zero zero zero ha hb = refl
xor_undo zero zero (suc b) ha hb = absurd (omega arith)
xor_undo zero (suc a) b ha hb = absurd (omega arith)
xor_undo (suc k) a b ha hb =
    let rest =
      xor_undo k (a / 2) (b / 2) (omega (arith, pow-suc 2 k)) (omega (arith, pow-suc 2 k)) in
    omega (
      arith,
      xor_digit (bit_xor a b) b,
      ap (λ (t : ℕ). bit_xor t (b / 2)) (xor-half a b),
      xor_low a b,
      rest,
    )

half_power : (k a : ℕ) → a / 2 ^ suc k ≡ a / 2 / 2 ^ k
half_power k a =
    omega (arith, div-div-eq-div-mul a 2 (2 ^ k), ap (λ (n : ℕ). a / n) (pow-succ' 2 k))

-- A digit of `a | b` is the larger of the two.
pub or-bit : (k a b : ℕ) → bit_or a b / 2 ^ k % 2 ≡ max (a / 2 ^ k % 2) (b / 2 ^ k % 2)
or-bit zero a b = omega (arith, or_digit a b)
or-bit (suc k) a b =
    let half : bit_or a b / 2 ≡ bit_or (a / 2) (b / 2) = omega (arith, or_digit a b) in
    rw (half_power k (bit_or a b), half_power k a, half_power k b, half) (or-bit k (a / 2) (b / 2))

-- The one digit of a power of two.
pub power-bit : (k : ℕ) → 2 ^ k / 2 ^ k % 2 ≡ 1
power-bit zero = refl
power-bit (suc k) =
    let half : 2 ^ suc k / 2 ≡ 2 ^ k = omega (arith, pow-suc 2 k) in
    rw (half_power k (2 ^ suc k), half) (power-bit k)

pub power-bit_ne : (k j : ℕ) → j ≢ k → 2 ^ j / 2 ^ k % 2 ≡ 0
power-bit_ne zero zero h = absurd (h refl)
power-bit_ne zero (suc j) h = omega (arith, pow-suc 2 j)
power-bit_ne (suc k) zero h = rw (half_power k 1) (zero_digit k)
  where
    zero_digit : (k : ℕ) → 0 / 2 ^ k % 2 ≡ 0
    zero_digit k = omega (arith, zero-div (2 ^ k))
power-bit_ne (suc k) (suc j) h =
    let half : 2 ^ suc j / 2 ≡ 2 ^ j = omega (arith, pow-suc 2 j) in
    rw (half_power k (2 ^ suc j), half) (power-bit_ne k j (λ e. h (ap suc e)))
