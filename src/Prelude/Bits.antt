-- ===== src/Prelude/Bits.antt =====
-- `bit_and` at variables: its recursion on binary digits, and what masks and shifts make of it.
use Prim.Native.Nat.{
  ℕ, zero, suc, ◌+◌, ◌*◌, ◌/◌, ◌%◌, ◌^◌, ◌≤◌, ◌<◌, min, bit_and, digits, bit_and-bitwise,
}
use mathlib.Core.Path.{◌≡◌, refl, sym, ◌∙◌, ap, ap₂}
use native.Mathlib.Nat.{pow-suc}
use native.Mathlib.Omega.{arith}

-- An operation on digits, and what it makes of a number against 0. Digits to go beyond those of the
-- first number change nothing.
module _ (rest : ℕ → ℕ) (op : ℕ → ℕ → ℕ) where
  pub digits_spare :
      (bound to_go x y : ℕ)
      → to_go ≤ bound
      → x ≤ to_go
      → digits rest op to_go x y ≡ digits rest op x x y
  digits_spare bound zero zero y small long = refl
  digits_spare bound zero (suc x) y small long = absurd (omega arith)
  digits_spare bound (suc to_go) zero y small long = refl
  digits_spare zero (suc to_go) (suc x) y small long = absurd (omega arith)
  digits_spare (suc bound) (suc to_go) (suc x) y small long =
      let left = digits_spare bound to_go (suc x / 2) (y / 2) (omega arith) (omega arith) in
      let right = digits_spare bound x (suc x / 2) (y / 2) (omega arith) (omega arith) in
      ap (λ (t : ℕ). t * 2 + op (suc x % 2) (y % 2)) (left ∙ sym right)

-- The lowest digit and the other ones.
pub bit_and_step : (x y : ℕ) → bit_and x y ≡ bit_and (x / 2) (y / 2) * 2 + min (x % 2) (y % 2)
bit_and_step zero y =
    let low : bit_and 0 y ≡ 0 = bit_and-bitwise 0 y in
    let high : bit_and 0 (y / 2) ≡ 0 = bit_and-bitwise 0 (y / 2) in omega (arith, low, high)
bit_and_step (suc x) y =
    let halves = digits_spare (λ t. 0) min x x (suc x / 2) (y / 2) (omega arith) (omega arith) in
    let low = bit_and-bitwise (suc x) y in
    let high = bit_and-bitwise (suc x / 2) (y / 2) in omega (arith, halves, low, high)

-- No digit of 0 is set.
bit_and_nothing : (bound x : ℕ) → x ≤ bound → bit_and x 0 ≡ 0
bit_and_nothing zero zero small = refl
bit_and_nothing zero (suc x) small = absurd (omega arith)
bit_and_nothing (suc bound) x small = by_half x small (λ y h. bit_and_nothing bound y h)
  where
    by_half : (x : ℕ) → x ≤ suc bound → ((y : ℕ) → y ≤ bound → bit_and y 0 ≡ 0) → bit_and x 0 ≡ 0
    by_half x small smaller =
        let half = smaller (x / 2) (omega arith) in omega (arith, bit_and_step x 0, half)

pub bit_and-zero : (x : ℕ) → bit_and x 0 ≡ 0
bit_and-zero x = bit_and_nothing x x (omega arith)

-- Two numbers shifted left by one.
pub bit_and_double : (a b : ℕ) → bit_and (a * 2) (b * 2) ≡ bit_and a b * 2
bit_and_double a b =
    let ea : a * 2 / 2 ≡ a = omega arith in
    let eb : b * 2 / 2 ≡ b = omega arith in
    let e = ap₂ bit_and ea eb in omega (arith, bit_and_step (a * 2) (b * 2), e)

-- Bits above the mask do not count.
pub bit_and_low :
    (k hi lo b : ℕ) → lo < 2 ^ k → b < 2 ^ k → bit_and (lo + hi * 2 ^ k) b ≡ bit_and lo b
bit_and_low zero hi zero zero p q = bit_and-zero _
bit_and_low zero hi (suc lo) b p q = absurd (omega arith)
bit_and_low zero hi zero (suc b) p q = absurd (omega arith)
bit_and_low (suc k) hi lo b p q =
    let e = pow-suc 2 k in
    let half : (lo + hi * 2 ^ suc k) / 2 ≡ lo / 2 + hi * 2 ^ k =
      omega (arith, ap (λ (t : ℕ). hi * t) e) in
    let low : (lo + hi * 2 ^ suc k) % 2 ≡ lo % 2 = omega (arith, ap (λ (t : ℕ). hi * t) e) in
    omega (
      arith,
      bit_and_step (lo + hi * 2 ^ suc k) b,
      bit_and_step lo b,
      ap (λ (t : ℕ). bit_and t (b / 2)) half,
      bit_and_low k hi (lo / 2) (b / 2) (omega (arith, e)) (omega (arith, e)),
    )

-- A doubled word under a doubled mask: `(x << 1) & (m << 1)` in 64 bits, where the mask has a bit to
-- spare.
pub bit_and_shl_one : (x m : ℕ) → m < 2 ^ 63 → bit_and (x * 2 % 2 ^ 64) (m * 2) ≡ bit_and x m * 2
bit_and_shl_one x m h =
    ap (λ (t : ℕ). bit_and t (m * 2)) (let e : x * 2 % 2 ^ 64 ≡ x % 2 ^ 63 * 2 = omega arith in e)
    ∙ bit_and_double (x % 2 ^ 63) m
    ∙ ap (λ (t : ℕ). t * 2)
        (sym (bit_and_low 63 (x / 2 ^ 63) (x % 2 ^ 63) m (omega arith) h)
          ∙ ap (λ (t : ℕ). bit_and t m)
              (let e : x % 2 ^ 63 + x / 2 ^ 63 * 2 ^ 63 ≡ x = omega arith in e))
