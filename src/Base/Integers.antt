-- ===== src/Base/Integers.antt =====
-- Values of type `int`.
use Prim.Native.Nat.{ℕ, ◌-◌, ◌^◌}
use rcopy.Base.Tests.{u32}

pub data ℤ : Type 0 where
  pos negsuc : ℕ → ℤ

-- The conversion to `uint32_t`.
abbrev pub to_u32 : ℤ → ℕ
to_u32 (pos n) = u32 n
to_u32 (negsuc n) = 2 ^ 32 - 1 - u32 n
