-- ===== src/E2e/Profile04.antt =====
-- include/bsomeip/e2e/profile.hpp, profile 04: CRC-32, 16-bit counter, 32-bit data ID and 16-bit
-- length in a header of twelve bytes.
pub mod Check
pub mod Detect
use bsomeip.Common.{ℕ, ◌+◌, ◌-◌, ◌*◌, ◌%◌, ◌^◌, List, length, ltb, ◌==◌, not, if◌then◌else◌}
use bsomeip.Wire.Bytes.{read_u16_be, read_u32_be, write_u16_be, write_u32_be}
use bsomeip.E2e.Crc32.{crc32_ethernet}
use bsomeip.E2e.Result.{E2eResult, wrong_crc, error, counter_result, memset}

pub record Config : Type 0 where
  pub data_id : ℕ
  pub min_data_length : ℕ
  pub max_data_length : ℕ
  pub max_delta_counter : ℕ

abbrev pub header_size : ℕ
header_size = 12

abbrev pub crc_init : ℕ
crc_init = 0xFFFFFFFF

-- The header with a CRC field of zeros.
unfoldable pub write_fields : List ℕ → Config → ℕ → List ℕ
unfolding write_u16_be write_u32_be
write_fields payload cfg counter =
    let p = write_u16_be payload 0 (length payload % 2 ^ 16) in
    let p = write_u16_be p 2 counter in let p = write_u32_be p 4 cfg.data_id in write_u32_be p 8 0

unfoldable pub protect : List ℕ → Config → ℕ → List ℕ
unfolding write_fields write_u32_be
protect payload cfg counter =
    let p = write_fields payload cfg counter in
    if ltb (length payload) header_size
    then payload
    else write_u32_be p 8 (crc32_ethernet p crc_init)

-- The result and the new `last_counter`.
unfoldable pub check : List ℕ → Config → ℕ → E2eResult × ℕ
unfolding read_u16_be read_u32_be counter_result memset
check payload cfg last_counter =
    let recv_len = read_u16_be payload 0 in
    let recv_counter = read_u16_be payload 2 in
    let recv_data_id = read_u32_be payload 4 in
    let recv_crc = read_u32_be payload 8 in
    let crc = crc32_ethernet (memset payload 8 4) crc_init in
    let delta = (recv_counter + 2 ^ 16 - last_counter) % 2 ^ 16 in
    if ltb (length payload) header_size
    then (error, last_counter)
    else if not (recv_len == length payload)
    then (error, last_counter)
    else if not (recv_data_id == cfg.data_id)
    then (wrong_crc, last_counter)
    else if not (crc == recv_crc)
    then (wrong_crc, last_counter)
    else (counter_result delta cfg.max_delta_counter, recv_counter)
