-- ===== src/Base/Int.antt =====
-- Go's *big.Int, where a value may be negative. `negsuc n` is -(n + 1).
use Prim.Native.Nat.{ℕ, suc}
use mathlib.Core.Bool.{Bool, true, false}
use fce_extension_scaffold.Base.Tests.{leb, ltb}
use fce_extension_scaffold.Base.Text.{Bytes, show_nat, str}
use mathlib.Core.List.{◌++◌}

pub data ℤ : Type 0 where
  pos : ℕ → ℤ
  negsuc : ℕ → ℤ

-- `y.Cmp(x) >= 0` at an `x` that is not negative.
abbrev pub leb_pos : ℕ → ℤ → Bool
leb_pos n (pos m) = leb n m
leb_pos n (negsuc m) = false

-- `x.Cmp(y) < 0`.
abbrev pub lt_ℤ : ℤ → ℤ → Bool
lt_ℤ (pos n) (pos m) = ltb n m
lt_ℤ (pos n) (negsuc m) = false
lt_ℤ (negsuc n) (pos m) = true
lt_ℤ (negsuc n) (negsuc m) = ltb m n

-- `%v` of a big integer.
pub show_ℤ : ℤ → Bytes
show_ℤ (pos n) = show_nat n
show_ℤ (negsuc n) = str "-" ++ show_nat (suc n)
