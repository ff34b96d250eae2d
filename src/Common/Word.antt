-- ===== src/Common/Word.antt =====
-- Two's complement: the value of a signed machine word that holds the low bits of an integer.
use stock_app.Common.Tests.{ltb, if◌then◌else◌}
use Prim.Native.Nat.{ℕ, ◌-◌, ◌%◌, ◌^◌}
use mathlib.Core.Path.{◌≡◌}
use native.Mathlib.Omega.{arith}
use stock_app.Common.Int.{ℤ, pos, negsuc, ◌-ℤ◌, ◌≤ℤ◌, ◌<ℤ◌, sub_ℕ}

-- The unsigned residue of an integer modulo 2 ^ 32.
abbrev residue32 : ℤ → ℕ
residue32 (pos n) = n % 2 ^ 32
residue32 (negsuc n) = 2 ^ 32 - 1 - n % 2 ^ 32

-- The `int32_t` that holds an integer: the integer modulo 2 ^ 32, in the range -2^31 .. 2^31 - 1.
unfoldable pub to_int32 : ℤ → ℤ
to_int32 z = if ltb (residue32 z) (2 ^ 31) then pos (residue32 z) else sub_ℕ (residue32 z) (2 ^ 32)

-- The `int64_t` that holds the low 64 bits of a natural number.
unfoldable pub to_int64 : ℕ → ℤ
to_int64 n = if ltb (n % 2 ^ 64) (2 ^ 63) then pos (n % 2 ^ 64) else sub_ℕ (n % 2 ^ 64) (2 ^ 64)

-- A difference of two amounts that are not negative fits.
pub to_int32-sub : (a b : ℤ) → pos 0 ≤ℤ b → b ≤ℤ a → a <ℤ pos (2 ^ 31) → to_int32 (a -ℤ b) ≡ a -ℤ b
unfolding to_int32 ◌-ℤ◌
to_int32-sub a b h k l = ground arith

pub to_int32-sub_self : (a : ℤ) → to_int32 (a -ℤ a) ≡ pos 0
unfolding to_int32 ◌-ℤ◌
to_int32-sub_self a = ground arith

-- The `short` that holds the low 16 bits of an integer.
abbrev pub residue16 : ℤ → ℕ
residue16 (pos n) = n % 2 ^ 16
residue16 (negsuc n) = 2 ^ 16 - 1 - n % 2 ^ 16

unfoldable pub to_int16 : ℤ → ℤ
to_int16 z = if ltb (residue16 z) (2 ^ 15) then pos (residue16 z) else sub_ℕ (residue16 z) (2 ^ 16)
