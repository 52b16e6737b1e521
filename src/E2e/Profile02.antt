-- ===== src/E2e/Profile02.antt =====
-- include/bsomeip/e2e/profile.hpp, profile 02: CRC-8 in byte 0, 4-bit counter in byte 1, and a data
-- ID that the counter selects.
pub mod Check
use bsomeip.Common.{
  ℕ, ◌+◌, ◌-◌, ◌*◌, ◌%◌, ◌^◌, bit_and, bit_or, List, [], ◌∷◌, length, set, get_or, drop, ltb, ◌==◌,
  not, if◌then◌else◌,
}
use bsomeip.Wire.Bytes.{byte}
use bsomeip.E2e.Crc8.{crc8_sae_j1850}
use bsomeip.E2e.Feed.{feed}
use bsomeip.E2e.Result.{E2eResult, wrong_crc, error, counter_result}

-- The list has sixteen entries.
pub record Config : Type 0 where
  pub data_id_list : List ℕ
  pub max_delta_counter : ℕ

-- The checksum of the counter's data ID and of the payload from byte 1 on.
unfoldable pub crc_of : List ℕ → Config → ℕ → ℕ
unfolding feed crc8_sae_j1850
crc_of payload cfg counter =
    feed (drop 1 payload)
      (crc8_sae_j1850 (get_or cfg.data_id_list (bit_and counter 0x0F) 0 ∷ []) 0xFF)

-- The payload with its counter and a CRC byte of zero.
unfoldable pub with_counter : List ℕ → ℕ → List ℕ
with_counter payload counter =
    let low = bit_or (bit_and (byte payload 1) 0xF0) (bit_and counter 0x0F) in
    set (set payload 1 (low % 2 ^ 8)) 0 0

unfoldable pub protect : List ℕ → Config → ℕ → List ℕ
unfolding with_counter crc_of
protect payload cfg counter =
    let p = with_counter payload counter in
    if ltb (length payload) 2 then payload else set p 0 (crc_of p cfg counter)

-- The result and the new `last_counter`. The difference of the counters is taken on ints.
unfoldable pub check : List ℕ → Config → ℕ → E2eResult × ℕ
unfolding crc_of counter_result
check payload cfg last_counter =
    let recv_counter = bit_and (byte payload 1) 0x0F in
    let crc = crc_of payload cfg recv_counter in
    let delta = bit_and ((recv_counter + 2 ^ 32 - last_counter) % 2 ^ 32) 0x0F in
    if ltb (length payload) 2
    then (error, last_counter)
    else if not (crc == byte payload 0)
    then (wrong_crc, last_counter)
    else (counter_result delta cfg.max_delta_counter, recv_counter)
