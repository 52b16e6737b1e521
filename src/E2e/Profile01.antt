-- ===== src/E2e/Profile01.antt =====
-- include/bsomeip/e2e/profile.hpp, profile 01: CRC-8, 4-bit counter, 16-bit data ID. The offsets of
-- the configuration index the payload unchecked; here an access past its end does nothing.
pub mod Check
use bsomeip.Common.{
  ℕ, ◌+◌, ◌-◌, ◌*◌, ◌/◌, ◌%◌, ◌^◌, bit_and, bit_or, List, [], ◌∷◌, length, set, ltb, ◌==◌, not,
  if◌then◌else◌,
}
use bsomeip.Wire.Bytes.{byte}
use bsomeip.E2e.Crc8.{crc8_sae_j1850}
use bsomeip.E2e.Feed.{feed_except}
use bsomeip.E2e.Result.{E2eResult, wrong_crc, error, counter_result}

pub record Config : Type 0 where
  pub data_id : ℕ
  pub crc_offset : ℕ
  pub counter_offset : ℕ
  pub data_id_mode : ℕ
  pub max_delta_counter : ℕ

abbrev pub id_bytes : Config → List ℕ
id_bytes cfg = (cfg.data_id / 2 ^ 8 % 2 ^ 8) ∷ bit_and cfg.data_id 0xFF ∷ []

-- The checksum of the data ID and of the payload without its CRC byte.
unfoldable pub crc_of : List ℕ → Config → ℕ
unfolding feed_except crc8_sae_j1850
crc_of payload cfg = feed_except cfg.crc_offset 0 payload (crc8_sae_j1850 (id_bytes cfg) 0xFF)

-- The payload with its counter and a CRC byte of zero.
unfoldable pub with_counter : List ℕ → Config → ℕ → List ℕ
with_counter payload cfg counter =
    let low = bit_or (bit_and (byte payload cfg.counter_offset) 0xF0) (bit_and counter 0x0F) in
    set (set payload cfg.counter_offset (low % 2 ^ 8)) cfg.crc_offset 0

unfoldable pub protect : List ℕ → Config → ℕ → List ℕ
unfolding with_counter crc_of
protect payload cfg counter =
    let p = with_counter payload cfg counter in
    if ltb (length payload) 2 then payload else set p cfg.crc_offset (crc_of p cfg)

-- The result and the new `last_counter`. The difference of the counters is taken on ints.
unfoldable pub check : List ℕ → Config → ℕ → E2eResult × ℕ
unfolding crc_of counter_result
check payload cfg last_counter =
    let recv_counter = bit_and (byte payload cfg.counter_offset) 0x0F in
    let crc = crc_of payload cfg in
    let recv_crc = byte payload cfg.crc_offset in
    let delta = bit_and ((recv_counter + 2 ^ 32 - last_counter) % 2 ^ 32) 0x0F in
    if ltb (length payload) 2
    then (error, last_counter)
    else if not (crc == recv_crc)
    then (wrong_crc, last_counter)
    else (counter_result delta cfg.max_delta_counter, recv_counter)
