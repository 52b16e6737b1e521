-- ===== src/Common/Int.antt =====
-- Signed integers, and their two's complement in w bits.
use bsomeip.Common.Tests.{ltb, if◌then◌else◌}
use Prim.Native.Nat.{ℕ, ◌-◌, ◌%◌, ◌^◌, ◌<◌}
use mathlib.Core.Path.{◌≡◌}
use native.Mathlib.Omega.{arith}

-- `negsuc n` is -(n + 1).
pub data ℤ : Type 0 where
  pos : ℕ → ℤ
  negsuc : ℕ → ℤ

-- The cast from a signed number to the unsigned one of `w` bits.
abbrev pub to_unsigned : (w : ℕ) → ℤ → ℕ
to_unsigned w (pos n) = n % 2 ^ w
to_unsigned w (negsuc n) = 2 ^ w - 1 - n % 2 ^ w

-- The cast back.
abbrev pub to_signed : (w : ℕ) → ℕ → ℤ
to_signed w n = if ltb n (2 ^ (w - 1)) then pos n else negsuc (2 ^ w - 1 - n)

abbrev pub FitsSigned : (w : ℕ) → ℤ → Type 0
FitsSigned w (pos n) = n < 2 ^ (w - 1)
FitsSigned w (negsuc n) = n < 2 ^ (w - 1)

pub to_signed-to_unsigned8 : (z : ℤ) → FitsSigned 8 z → to_signed 8 (to_unsigned 8 z) ≡ z
to_signed-to_unsigned8 (pos n) h = ground arith
to_signed-to_unsigned8 (negsuc n) h = ground arith

pub to_signed-to_unsigned16 : (z : ℤ) → FitsSigned 16 z → to_signed 16 (to_unsigned 16 z) ≡ z
to_signed-to_unsigned16 (pos n) h = ground arith
to_signed-to_unsigned16 (negsuc n) h = ground arith

pub to_signed-to_unsigned32 : (z : ℤ) → FitsSigned 32 z → to_signed 32 (to_unsigned 32 z) ≡ z
to_signed-to_unsigned32 (pos n) h = ground arith
to_signed-to_unsigned32 (negsuc n) h = ground arith

pub to_signed-to_unsigned64 : (z : ℤ) → FitsSigned 64 z → to_signed 64 (to_unsigned 64 z) ≡ z
to_signed-to_unsigned64 (pos n) h = ground arith
to_signed-to_unsigned64 (negsuc n) h = ground arith
