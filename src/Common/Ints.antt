-- ===== src/Common/Ints.antt =====
-- Go's signed `int`, where a value can be negative.
use Prim.Native.Nat.{ℕ, ◌+◌, ◌-◌, ◌^◌}

-- `negsuc n` is -(n + 1).
pub data ℤ : Type 0 where
  pos : ℕ → ℤ
  negsuc : ℕ → ℤ

-- `uint(i)` and `uint64(i)`: two's complement.
abbrev pub to_uint64 : ℤ → ℕ
to_uint64 (pos n) = n
to_uint64 (negsuc n) = 2 ^ 64 - (n + 1)
