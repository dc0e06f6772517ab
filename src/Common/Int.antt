-- ===== src/Common/Int.antt =====
-- Signed integers over the native numbers, and the checked conversions `try_from` between the
-- machine integers of the source; a machine integer is its value, its range is a test.
use Prim.Native.Nat.{ℕ, ◌^◌}
use mathlib.Core.Bool.{Bool}
use mathlib.Core.Option.{Option, none, some}
use bipa_coding_challenge.Common.Tests.{ltb, if◌then◌else◌}

-- `negsuc n` is -(n + 1).
pub data ℤ : Type 0 where
  pos : ℕ → ℤ
  negsuc : ℕ → ℤ

-- `i64::MIN ≤ i ≤ i64::MAX`
abbrev pub is_i64 : ℤ → Bool
is_i64 (pos n) = ltb n (2 ^ 63)
is_i64 (negsuc n) = ltb n (2 ^ 63)

-- `u64::try_from(i64)`
abbrev pub u64_from_i64 : ℤ → Option ℕ
u64_from_i64 (pos n) = some n
u64_from_i64 (negsuc n) = none

-- `i64::try_from(u64)`
abbrev pub i64_from_u64 : ℕ → Option ℤ
i64_from_u64 n = if ltb n (2 ^ 63) then some (pos n) else none

-- `i32::try_from(usize)`; the source's ranks are never negative, so the value stays a number
abbrev pub i32_from_usize : ℕ → Option ℕ
i32_from_usize n = if ltb n (2 ^ 31) then some n else none
