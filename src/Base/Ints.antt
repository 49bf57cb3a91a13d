-- ===== src/Base/Ints.antt =====
-- C integers that may be negative, over the native natural numbers.
use Prim.Native.Nat.{ℕ, zero, suc}
use mathlib.Core.Option.{Option, none, some}

pub data ℤ : Type 0 where
  pos negsuc : ℕ → ℤ

-- A number that passes the test `0 < x`.
abbrev pub positive : ℤ → Option ℕ
positive (pos zero) = none
positive (pos (suc n)) = some (suc n)
positive (negsuc n) = none
