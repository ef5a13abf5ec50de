-- ===== src/Prelude/Masks.antt =====
-- `bit_or`, and what a mask keeps: a flag that is set stays set.
use Prim.Native.Nat.{
  ℕ, zero, suc, ◌+◌, ◌*◌, ◌/◌, ◌%◌, ◌^◌, ◌≤◌, ◌<◌, min, max, bit_and, bit_or, bit_or-bitwise,
}
use mathlib.Core.Path.{◌≡◌, ◌∙◌, ap, ap₂}
use native.Mathlib.Nat.{pow-suc}
use native.Mathlib.Omega.{arith}
use mapache.Prelude.Bits.{digits_spare, bit_and_step, bit_and-zero}

pub bit_or_step : (x y : ℕ) → bit_or x y ≡ bit_or (x / 2) (y / 2) * 2 + max (x % 2) (y % 2)
bit_or_step zero y =
    let low : bit_or 0 y ≡ y = bit_or-bitwise 0 y in
    let high : bit_or 0 (y / 2) ≡ y / 2 = bit_or-bitwise 0 (y / 2) in omega (arith, low, high)
bit_or_step (suc x) y =
    let halves = digits_spare (λ t. t) max x x (suc x / 2) (y / 2) (omega arith) (omega arith) in
    let low = bit_or-bitwise (suc x) y in
    let high = bit_or-bitwise (suc x / 2) (y / 2) in omega (arith, halves, low, high)

-- The digits of an `or` under a mask.
or_step :
    (x y z : ℕ)
    → bit_and (bit_or x y) z
      ≡ bit_and (bit_or (x / 2) (y / 2)) (z / 2) * 2 + min (max (x % 2) (y % 2)) (z % 2)
or_step x y z =
    let half : bit_or x y / 2 ≡ bit_or (x / 2) (y / 2) = omega (arith, bit_or_step x y) in
    let low : bit_or x y % 2 ≡ max (x % 2) (y % 2) = omega (arith, bit_or_step x y) in
    bit_and_step (bit_or x y) z ∙ ap₂ (λ (s t : ℕ). bit_and s (z / 2) * 2 + min t (z % 2)) half low

-- Both numbers are covered by their `or`.
or_covers :
    (bound x y z : ℕ)
    → z ≤ bound
    → (bit_and x z ≤ bit_and (bit_or x y) z) × (bit_and y z ≤ bit_and (bit_or x y) z)
or_covers zero x y zero small = (
  omega (arith, bit_and-zero x, bit_and-zero (bit_or x y)),
  omega (arith, bit_and-zero y, bit_and-zero (bit_or x y)),
)
or_covers zero x y (suc z) small = absurd (omega arith)
or_covers (suc bound) x y z small =
    let rest = or_covers bound (x / 2) (y / 2) (z / 2) (omega arith) in
    (
      omega (arith, bit_and_step x z, or_step x y z, rest.0),
      omega (arith, bit_and_step y z, or_step x y z, rest.1),
    )

pub bit_and-bit_or_left : (x y z : ℕ) → bit_and x z ≤ bit_and (bit_or x y) z
bit_and-bit_or_left x y z = (or_covers z x y z (omega arith)).0

pub bit_and-bit_or_right : (x y z : ℕ) → bit_and y z ≤ bit_and (bit_or x y) z
bit_and-bit_or_right x y z = (or_covers z x y z (omega arith)).1

self : (bound x : ℕ) → x ≤ bound → bit_and x x ≡ x
self zero zero small = bit_and-zero 0
self zero (suc x) small = absurd (omega arith)
self (suc bound) x small =
    let rest : bit_and (x / 2) (x / 2) ≡ x / 2 = self bound (x / 2) (omega arith) in
    omega (arith, bit_and_step x x, rest)

pub bit_and_self : (x : ℕ) → bit_and x x ≡ x
bit_and_self x = self x x (omega arith)

masked : (bound x y : ℕ) → y ≤ bound → bit_and x y ≤ y
masked zero x zero small = omega (arith, bit_and-zero x)
masked zero x (suc y) small = absurd (omega arith)
masked (suc bound) x y small =
    let rest = masked bound (x / 2) (y / 2) (omega arith) in omega (arith, bit_and_step x y, rest)

-- No more than the mask.
pub bit_and-le : (x y : ℕ) → bit_and x y ≤ y
bit_and-le x y = masked y x y (omega arith)

nothing_or : (bound x : ℕ) → x ≤ bound → bit_or x 0 ≡ x
nothing_or zero zero small = bit_or-bitwise 0 0
nothing_or zero (suc x) small = absurd (omega arith)
nothing_or (suc bound) x small =
    let rest : bit_or (x / 2) 0 ≡ x / 2 = nothing_or bound (x / 2) (omega arith) in
    omega (arith, bit_or_step x 0, rest)

-- The `or` of a shifted number and one below the shift is their sum.
pub bit_or-add : (k x y : ℕ) → y < 2 ^ k → bit_or (x * 2 ^ k) y ≡ x * 2 ^ k + y
bit_or-add zero x zero small =
    let whole : x * 2 ^ 0 ≡ x = omega arith in
    omega (arith, whole, ap (λ (t : ℕ). bit_or t 0) whole, nothing_or x x (omega arith))
bit_or-add zero x (suc y) small = absurd (omega arith)
bit_or-add (suc k) x y small =
    let e = pow-suc 2 k in
    let half : x * 2 ^ suc k / 2 ≡ x * 2 ^ k = omega (arith, ap (λ (t : ℕ). x * t) e) in
    let even : x * 2 ^ suc k % 2 ≡ 0 = omega (arith, ap (λ (t : ℕ). x * t) e) in
    omega (
      arith,
      bit_or_step (x * 2 ^ suc k) y,
      even,
      half,
      ap (λ (t : ℕ). bit_or t (y / 2)) half,
      bit_or-add k x (y / 2) (omega (arith, e)),
      ap (λ (t : ℕ). x * t) e,
    )

-- The six lowest bits.
pub bit_and-0x3f : (x : ℕ) → bit_and x 0x3f ≡ x % 64
bit_and-0x3f x = omega (
  arith,
  bit_and_step x 63,
  bit_and_step (x / 2) 31,
  bit_and_step (x / 2 / 2) 15,
  bit_and_step (x / 2 / 2 / 2) 7,
  bit_and_step (x / 2 / 2 / 2 / 2) 3,
  bit_and_step (x / 2 / 2 / 2 / 2 / 2) 1,
  bit_and-zero (x / 2 / 2 / 2 / 2 / 2 / 2),
)
