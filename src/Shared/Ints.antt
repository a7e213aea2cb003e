-- ===== src/Shared/Ints.antt =====
-- The C type `int`: integers with the overflow of `++` and `--` as a fault. `negsuc n` is -(n + 1).
use Prim.Native.Nat.{ℕ, zero, suc, ◌<◌}
use mathlib.Core.Path.{◌≡◌, refl}
use mathlib.Core.Bool.{Bool, true, false}
use mathlib.Core.Option.{Option, none, some}
use native.Mathlib.Omega.{arith}
use macstrop.Shared.Tests.{◌==◌, if◌then◌else◌}

pub data ℤ : Type 0 where
  pos : ℕ → ℤ
  negsuc : ℕ → ℤ

-- INT_MAX for a 32-bit int; INT_MIN is `negsuc int_max`.
abbrev pub int_max : ℕ
int_max = 2147483647

-- `++x`; signed overflow is undefined behaviour, a fault.
unfoldable pub increment : ℤ → Option ℤ
increment (pos n) = if n == int_max then none else some (pos (suc n))
increment (negsuc zero) = some (pos zero)
increment (negsuc (suc n)) = some (negsuc n)

-- `--x`.
unfoldable pub decrement : ℤ → Option ℤ
decrement (pos zero) = some (negsuc zero)
decrement (pos (suc n)) = some (pos n)
decrement (negsuc n) = if n == int_max then none else some (negsuc (suc n))

abbrev pub is_zero : ℤ → Bool
is_zero (pos zero) = true
is_zero _ = false

abbrev pub is_negative : ℤ → Bool
is_negative (pos _) = false
is_negative (negsuc _) = true

pub increment-pos : (n : ℕ) → n < int_max → increment (pos n) ≡ some (pos (suc n))
unfolding increment
increment-pos n h = ground arith

pub decrement-pos : (n : ℕ) → decrement (pos (suc n)) ≡ some (pos n)
unfolding decrement
decrement-pos n = refl
