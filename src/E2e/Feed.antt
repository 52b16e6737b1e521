-- ===== src/E2e/Feed.antt =====
-- include/bsomeip/e2e/profile.hpp: the loops of profiles 01 and 02 that feed a payload to CRC-8 byte
-- by byte, undoing the final inversion before each.
pub mod Laws
use bsomeip.Common.{ℕ, ◌+◌, bit_xor, List, [], ◌∷◌, ◌==◌, if◌then◌else◌}
use bsomeip.E2e.Crc8.{crc8_sae_j1850}

-- `crc = crc8_sae_j1850(b, crc ^ 0xFF)`
pub feed_byte : ℕ → ℕ → ℕ
feed_byte crc b = crc8_sae_j1850 (b ∷ []) (bit_xor crc 0xFF)

-- All bytes but the one at the position `skip`; `i` is the position of the first.
unfoldable pub feed_except : (skip i : ℕ) → List ℕ → ℕ → ℕ
unfolding feed_byte crc8_sae_j1850
feed_except skip i [] crc = crc
feed_except skip i (b ∷ bytes) crc =
    feed_except skip (i + 1) bytes (if i == skip then crc else feed_byte crc b)

unfoldable pub feed : List ℕ → ℕ → ℕ
unfolding feed_byte crc8_sae_j1850
feed [] crc = crc
feed (b ∷ bytes) crc = feed bytes (feed_byte crc b)
