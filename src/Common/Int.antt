-- ===== src/Common/Int.antt =====
-- Signed whole numbers over the native ones, for lifetimes in seconds.
use Prim.Native.Nat.{ℕ, suc, ◌+◌, ◌-◌}
use codebase_be_nestjs.Common.Tests.{leb, if◌then◌else◌}

-- `negsuc n` is -(n + 1).
pub data ℤ : Type 0 where
  pos : ℕ → ℤ
  negsuc : ℕ → ℤ

abbrev pub sub_ℕ : ℕ → ℕ → ℤ
sub_ℕ a b = if leb b a then pos (a - b) else negsuc (b - a - 1)

infixl 65 ◌+ℤ◌ ◌-ℤ◌
abbrev pub ◌+ℤ◌ : ℤ → ℕ → ℤ
pos a +ℤ n = pos (a + n)
negsuc a +ℤ n = sub_ℕ n (suc a)

abbrev pub ◌-ℤ◌ : ℤ → ℕ → ℤ
pos a -ℤ n = sub_ℕ a n
negsuc a -ℤ n = negsuc (a + n)
