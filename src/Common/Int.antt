-- ===== src/Common/Int.antt =====
-- Signed integers over the native numbers: `negsuc n` is -(n + 1). An AMXX cell is an `isize`,
-- whose largest value is `max`; its arithmetic wraps, as in a release build.
use Prim.Native.Nat.{ℕ, zero, suc, ◌+◌, ◌-◌, ◌*◌, ◌%◌}
use mathlib.Core.Path.{◌≡◌, refl}
use mathlib.Core.Bool.{Bool, true, false}
use mathlib.Core.Logic.{◌↔◌}
use native.Mathlib.Omega.{arith}
use grip.Common.Tests.{leb, ◌==◌, if◌then◌else◌}

pub data ℤ : Type 0 where
  pos : ℕ → ℤ
  negsuc : ℕ → ℤ

abbrev pub int_eq : ℤ → ℤ → Bool
int_eq (pos a) (pos b) = a == b
int_eq (negsuc a) (negsuc b) = a == b
int_eq _ _ = false

pub int_eq_iff : (a b : ℤ) → (int_eq a b ≡ true) ↔ (a ≡ b)
int_eq_iff (pos a) (pos b) = ground arith
int_eq_iff (negsuc a) (negsuc b) = ground arith
int_eq_iff (pos a) (negsuc b) = ground arith
int_eq_iff (negsuc a) (pos b) = ground arith

pub int_eq_refl : (a : ℤ) → int_eq a a ≡ true
int_eq_refl a = (int_eq_iff a a).1 refl

-- `z + 1` and `z - 1` in the range -max - 1 … max.
abbrev pub wrapping_suc : ℕ → ℤ → ℤ
wrapping_suc max (pos n) = if n == max then negsuc max else pos (n + 1)
wrapping_suc max (negsuc zero) = pos 0
wrapping_suc max (negsuc (suc n)) = negsuc n

abbrev pub wrapping_pred : ℕ → ℤ → ℤ
wrapping_pred max (pos zero) = negsuc 0
wrapping_pred max (pos (suc n)) = pos n
wrapping_pred max (negsuc n) = if n == max then pos max else negsuc (n + 1)

-- `n + 1` and `n - 1` on a `usize` whose largest value is `max`, and the casts `as usize as isize`.
abbrev pub usize_suc : ℕ → ℕ → ℕ
usize_suc max n = if n == max then 0 else n + 1

abbrev pub usize_pred : ℕ → ℕ → ℕ
usize_pred max n = if n == 0 then max else n - 1

-- `n as isize` for a `usize`, where `max` is the largest `isize`.
abbrev pub as_isize : ℕ → ℕ → ℤ
as_isize max n = if leb n max then pos n else negsuc (2 * max + 1 - n)

-- A wider integer cut down to an `isize`, by `as`.
abbrev pub wrap_isize : ℕ → ℤ → ℤ
wrap_isize max (pos n) = as_isize max (n % (2 * max + 2))
wrap_isize max (negsuc n) = as_isize max (2 * max + 1 - n % (2 * max + 2))
