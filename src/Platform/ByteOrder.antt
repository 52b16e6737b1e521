-- ===== src/Platform/ByteOrder.antt =====
-- include/bsomeip/platform/byte_order.hpp: the portable byte swaps, by masks and shifts.
pub mod Reverse
use bsomeip.Common.{ℕ, ◌+◌, ◌*◌, ◌/◌, ◌%◌, ◌^◌, bit_and, bit_or}

unfoldable pub bswap64 : ℕ → ℕ
bswap64 v =
    bit_or
      (bit_or
        (bit_or
          (bit_or
            (bit_or
              (bit_or
                (bit_or (bit_and v 0x00000000000000FF * 2 ^ 56 % 2 ^ 64)
                  (bit_and v 0x000000000000FF00 * 2 ^ 40 % 2 ^ 64))
                (bit_and v 0x0000000000FF0000 * 2 ^ 24 % 2 ^ 64))
              (bit_and v 0x00000000FF000000 * 2 ^ 8 % 2 ^ 64))
            (bit_and v 0x000000FF00000000 / 2 ^ 8))
          (bit_and v 0x0000FF0000000000 / 2 ^ 24))
        (bit_and v 0x00FF000000000000 / 2 ^ 40))
      (bit_and v 0xFF00000000000000 / 2 ^ 56)

unfoldable pub bswap32 : ℕ → ℕ
bswap32 v =
    bit_or
      (bit_or
        (bit_or (bit_and v 0x000000FF * 2 ^ 24 % 2 ^ 32) (bit_and v 0x0000FF00 * 2 ^ 8 % 2 ^ 32))
        (bit_and v 0x00FF0000 / 2 ^ 8))
      (bit_and v 0xFF000000 / 2 ^ 24)
