-- ===== src/E2e/Crc8.antt =====
-- include/bsomeip/e2e/crc.hpp, CRC-8/SAE-J1850.
pub mod Detect
use bsomeip.Common.{
  ℕ, ◌*◌, ◌%◌, ◌^◌, bit_and, bit_xor, ◌≡◌, refl, List, [], ◌∷◌, map, get_or, range, iterate, ◌==◌,
  if◌then◌else◌,
}

abbrev pub crc8_poly : ℕ
crc8_poly = 0x1D

-- One round of the loop over the bits.
pub crc8_bit : ℕ → ℕ
crc8_bit crc =
    if bit_and crc 0x80 == 0 then crc * 2 % 2 ^ 8 else bit_xor (crc * 2) crc8_poly % 2 ^ 8

pub crc8_entry : ℕ → ℕ
unfolding iterate crc8_bit
crc8_entry i = iterate 8 crc8_bit i

pub make_crc8_table : List ℕ
unfolding crc8_entry
make_crc8_table = map crc8_entry (range 256)

unfoldable pub crc8_bytes : List ℕ → List ℕ → ℕ → ℕ
crc8_bytes table [] crc = crc
crc8_bytes table (b ∷ bytes) crc = crc8_bytes table bytes (get_or table (bit_xor crc b) 0)

unfoldable pub crc8_sae_j1850 : List ℕ → ℕ → ℕ
unfolding crc8_bytes make_crc8_table
crc8_sae_j1850 bytes init =
    let table = make_crc8_table in bit_xor (crc8_bytes table bytes init) 0xFF

abbrev check_string : List ℕ
check_string = 0x31 ∷ 0x32 ∷ 0x33 ∷ 0x34 ∷ 0x35 ∷ 0x36 ∷ 0x37 ∷ 0x38 ∷ 0x39 ∷ []

crc8_sae_j1850_check : crc8_sae_j1850 check_string 0xFF ≡ 0x4B
unfolding crc8_sae_j1850
crc8_sae_j1850_check = refl
