-- ===== src/Wire/Bytes.antt =====
-- include/bsomeip/wire/header.hpp: big-endian reads and writes. A buffer is a list of bytes; a
-- pointer into it is an offset. A read past the end gives 0 and a write there does nothing; the
-- callers' conditions keep both inside, or the caller's model has a fault.
pub mod Laws
pub mod Append
use bsomeip.Common.{ℕ, ◌+◌, ◌*◌, ◌/◌, ◌%◌, ◌^◌, ◌<◌, bit_or, List, get_or, set}

abbrev pub byte : List ℕ → ℕ → ℕ
byte p i = get_or p i 0

unfoldable pub read_u16_be : List ℕ → ℕ → ℕ
read_u16_be p o = bit_or (byte p o * 2 ^ 8) (byte p (o + 1)) % 2 ^ 16

unfoldable pub read_u32_be : List ℕ → ℕ → ℕ
read_u32_be p o =
    bit_or (bit_or (bit_or (byte p o * 2 ^ 24) (byte p (o + 1) * 2 ^ 16)) (byte p (o + 2) * 2 ^ 8))
      (byte p (o + 3))

unfoldable pub write_u16_be : List ℕ → ℕ → ℕ → List ℕ
write_u16_be p o v = set (set p o (v / 2 ^ 8 % 2 ^ 8)) (o + 1) (v % 2 ^ 8)

unfoldable pub write_u32_be : List ℕ → ℕ → ℕ → List ℕ
write_u32_be p o v =
    set
      (set (set (set p o (v / 2 ^ 24 % 2 ^ 8)) (o + 1) (v / 2 ^ 16 % 2 ^ 8)) (o + 2)
        (v / 2 ^ 8 % 2 ^ 8))
      (o + 3) (v % 2 ^ 8)
