-- ===== src/Shared/Bits.antt =====
-- Masks: a number has no digit in common with the union of two masks exactly if it has none with each.
use Prim.Native.Nat.{
  ℕ, zero, suc, ◌+◌, ◌*◌, ◌/◌, ◌%◌, ◌≤◌, ◌<◌, min, max, bit_and, bit_or, digits, bit_and-bitwise,
  bit_or-bitwise,
}
use mathlib.Core.Path.{◌≡◌, refl, ap₂, ◌∙◌}
use mathlib.Core.Logic.{◌↔◌}
use mathlib.Core.Bool.{Bool, true, ◌&&◌}
use native.Mathlib.Omega.{arith}

-- An operation on digits, for any count of digits that is enough.
module _ (z : ℕ → ℕ) (f : ℕ → ℕ → ℕ) (end : (b : ℕ) → z b ≡ z (b / 2) * 2 + f 0 (b % 2)) where
  digits-zero : (n k y : ℕ) → digits z f n zero y ≡ digits z f k zero y
  digits-zero zero zero y = refl
  digits-zero zero (suc k) y = refl
  digits-zero (suc n) zero y = refl
  digits-zero (suc n) (suc k) y = refl

  digits_count : (n k x y : ℕ) → x ≤ n → x ≤ k → digits z f n x y ≡ digits z f k x y
  digits_count zero zero x y _ _ = refl
  digits_count zero k (suc x) y below _ = absurd (omega arith)
  digits_count zero (suc k) zero y _ _ = digits-zero zero (suc k) y
  digits_count (suc n) k zero y _ _ = digits-zero (suc n) k y
  digits_count (suc n) zero (suc x) y _ below = absurd (omega arith)
  digits_count (suc n) (suc k) (suc x) y above below =
      omega (arith, digits_count n k (suc x / 2) (y / 2) (omega arith) (omega arith))

  digits_half :
      (a b : ℕ) → digits z f a a b ≡ digits z f (a / 2) (a / 2) (b / 2) * 2 + f (a % 2) (b % 2)
  digits_half zero b = end b
  digits_half (suc a) b =
      omega (arith, digits_count a (suc a / 2) (suc a / 2) (b / 2) (omega arith) (omega arith))

bit_and-half : (a b : ℕ) → bit_and a b ≡ bit_and (a / 2) (b / 2) * 2 + min (a % 2) (b % 2)
bit_and-half a b = omega (
  arith,
  bit_and-bitwise a b,
  bit_and-bitwise (a / 2) (b / 2),
  digits_half (λ b. zero) min (λ b. omega arith) a b,
)

bit_or-half : (a b : ℕ) → bit_or a b ≡ bit_or (a / 2) (b / 2) * 2 + max (a % 2) (b % 2)
bit_or-half a b = omega (
  arith,
  bit_or-bitwise a b,
  bit_or-bitwise (a / 2) (b / 2),
  digits_half (λ b. b) max (λ b. omega arith) a b,
)

bit_and-bit_or-half :
    (a m n : ℕ)
    → bit_and a (bit_or m n)
      ≡ bit_and (a / 2) (bit_or (m / 2) (n / 2)) * 2 + min (a % 2) (max (m % 2) (n % 2))
bit_and-bit_or-half a m n =
    let high : bit_or m n / 2 ≡ bit_or (m / 2) (n / 2) = omega (arith, bit_or-half m n) in
    let low : bit_or m n % 2 ≡ max (m % 2) (n % 2) = omega (arith, bit_or-half m n) in
    bit_and-half a (bit_or m n) ∙ ap₂ (λ x y. bit_and (a / 2) x * 2 + min (a % 2) y) high low

none_common :
    (k a m n : ℕ) → a ≤ k → (bit_and a (bit_or m n) ≡ 0) ↔ ((bit_and a m ≡ 0) × (bit_and a n ≡ 0))
none_common k zero m n h =
    (λ _. (bit_and-bitwise 0 m, bit_and-bitwise 0 n), λ _. bit_and-bitwise 0 (bit_or m n))
none_common zero (suc a) m n h = absurd (omega arith)
none_common (suc k) (suc a) m n h =
    let half = bit_and-bit_or-half (suc a) m n in
    let ih = none_common k (suc a / 2) (m / 2) (n / 2) (omega arith) in
    let at_m = bit_and-half (suc a) m in
    let at_n = bit_and-half (suc a) n in
    (
      λ e.
          let (p, q) = ih.0 (omega (arith, half)) in
          (omega (arith, half, at_m, p), omega (arith, half, at_n, q)),
      λ e.
          let r = ih.1 (omega (arith, at_m, e.0), omega (arith, at_n, e.1)) in
          omega (arith, half, at_m, at_n, r, e.0, e.1),
    )

pub bit_and-bit_or :
    (a m n : ℕ) → (bit_and a (bit_or m n) ≡ 0) ↔ ((bit_and a m ≡ 0) × (bit_and a n ≡ 0))
bit_and-bit_or a m n = none_common a a m n (omega arith)

-- A test at every number below a bound.
unfoldable pub every_below : ℕ → (ℕ → Bool) → Bool
every_below zero p = true
every_below (suc n) p = p n && every_below n p

pub every_below-at : (n : ℕ) (p : ℕ → Bool) (x : ℕ) → every_below n p ≡ true → x < n → p x ≡ true
unfolding every_below
every_below-at zero p x h lt = absurd (omega arith)
every_below-at (suc n) p x h lt = ground (arith, every_below-at n p x)
