-- ===== src/E2e/Profile07.antt =====
-- include/bsomeip/e2e/profile.hpp, profile 07: CRC-64, 32-bit counter, 32-bit data ID and 32-bit
-- length in a header of twenty bytes. Its own copies of the 32-bit reads and writes are those of
-- Wire.Bytes.
pub mod Check
use bsomeip.Common.{
  ℕ, zero, suc, ◌+◌, ◌-◌, ◌*◌, ◌/◌, ◌%◌, ◌^◌, bit_or, List, length, set, ltb, ◌==◌, not,
  if◌then◌else◌,
}
use bsomeip.Wire.Bytes.{byte, read_u32_be, write_u32_be}
use bsomeip.E2e.Crc64.{crc64}
use bsomeip.E2e.Result.{E2eResult, wrong_crc, error, counter_result, memset}

pub record Config : Type 0 where
  pub data_id : ℕ
  pub min_data_length : ℕ
  pub max_data_length : ℕ
  pub max_delta_counter : ℕ

abbrev pub header_size : ℕ
header_size = 20

abbrev pub crc_init : ℕ
crc_init = 0xFFFFFFFFFFFFFFFF

-- The last `n` of the eight bytes at `o`: `for (int i = n - 1; i >= 0; --i) p[7 - i] = v >> (i * 8)`.
unfoldable pub write_bytes : ℕ → List ℕ → ℕ → ℕ → List ℕ
write_bytes zero p o v = p
write_bytes (suc i) p o v = write_bytes i (set p (o + 7 - i) (v / 2 ^ (i * 8) % 2 ^ 8)) o v

unfoldable pub write_u64_be : List ℕ → ℕ → ℕ → List ℕ
unfolding write_bytes
write_u64_be p o v = write_bytes 8 p o v

-- `v = (v << 8) | p[i]` for `n` bytes from `o` on.
unfoldable pub read_bytes : ℕ → List ℕ → ℕ → ℕ → ℕ
read_bytes zero p o v = v
read_bytes (suc n) p o v = read_bytes n p (o + 1) (bit_or (v * 2 ^ 8 % 2 ^ 64) (byte p o))

unfoldable pub read_u64_be : List ℕ → ℕ → ℕ
unfolding read_bytes
read_u64_be p o = read_bytes 8 p o 0

-- The header with a CRC field of zeros.
unfoldable pub write_fields : List ℕ → Config → ℕ → List ℕ
unfolding write_u32_be memset
write_fields payload cfg counter =
    let p = write_u32_be payload 0 (length payload % 2 ^ 32) in
    let p = write_u32_be p 4 counter in let p = write_u32_be p 8 cfg.data_id in memset p 12 8

unfoldable pub protect : List ℕ → Config → ℕ → List ℕ
unfolding write_fields write_u64_be
protect payload cfg counter =
    let p = write_fields payload cfg counter in
    if ltb (length payload) header_size then payload else write_u64_be p 12 (crc64 p crc_init)

-- The result and the new `last_counter`.
unfoldable pub check : List ℕ → Config → ℕ → E2eResult × ℕ
unfolding read_u32_be read_u64_be counter_result memset
check payload cfg last_counter =
    let recv_len = read_u32_be payload 0 in
    let recv_counter = read_u32_be payload 4 in
    let recv_data_id = read_u32_be payload 8 in
    let recv_crc = read_u64_be payload 12 in
    let crc = crc64 (memset payload 12 8) crc_init in
    let delta = (recv_counter + 2 ^ 32 - last_counter) % 2 ^ 32 in
    if ltb (length payload) header_size
    then (error, last_counter)
    else if not (recv_len == length payload)
    then (error, last_counter)
    else if not (recv_data_id == cfg.data_id)
    then (wrong_crc, last_counter)
    else if not (crc == recv_crc)
    then (wrong_crc, last_counter)
    else (counter_result delta cfg.max_delta_counter, recv_counter)
