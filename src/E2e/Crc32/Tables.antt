-- ===== src/E2e/Crc32/Tables.antt =====
-- What the entries of the CRC-32 tables are, and the byte loop against the shift register.
use bsomeip.Common.{
  IsByte, ℕ, suc, ◌/◌, ◌%◌, ◌^◌, ◌<◌, bit_and, bit_xor, ◌≡◌, refl, sym, ap, ◌∙◌, arith, iterate,
  List, [], ◌∷◌, get_or, All, get_or-map_range,
}
use bsomeip.Common.Bits.{and-byte, xor_comm, xor-lt, xor-byte-high}
use bsomeip.E2e.Crc32.{
  crc32_entry, make_crc32_table, next_entry, make_crc32_slice8, crc32_byte, crc32_bytes,
}
use bsomeip.E2e.Slices.{entry, entry-slice_rows, iterate_agree}
use bsomeip.E2e.Crc32.Linear.{entry_low, entry-lt}

pub table_lookup : (i : ℕ) → i < 2 ^ 8 → get_or make_crc32_table i 0 ≡ crc32_entry i
unfolding make_crc32_table
table_lookup i h = get_or-map_range crc32_entry 256 0 i 0 h ∙ ap crc32_entry (omega arith)

table_low :
    (c : ℕ) → bit_xor (get_or make_crc32_table (bit_and c 0xFF) 0) (c / 2 ^ 8) ≡ crc32_entry c
table_low c = rw (and-byte c, table_lookup (c % 2 ^ 8) (omega arith)) (sym (entry_low c))

-- One byte through the table is one byte through the shift register.
pub crc32_byte-entry :
    (crc b : ℕ) → IsByte b → crc32_byte make_crc32_table crc b ≡ crc32_entry (bit_xor crc b)
unfolding crc32_byte
crc32_byte-entry crc b h = rw (← xor-byte-high crc b h) (table_low (bit_xor crc b))

-- The checksum by its definition: each byte goes into the low end of a shift register, which
-- then takes eight steps. No table.
unfoldable pub shift_register : List ℕ → ℕ → ℕ
shift_register [] crc = crc
shift_register (b ∷ bytes) crc = shift_register bytes (crc32_entry (bit_xor crc b))

pub crc32_bytes-shift_register :
    (bytes : List ℕ) (crc : ℕ)
    → All IsByte bytes
    → crc32_bytes make_crc32_table bytes crc ≡ shift_register bytes crc
unfolding crc32_bytes shift_register
crc32_bytes-shift_register [] crc h = refl
crc32_bytes-shift_register (b ∷ bytes) crc h =
    ap (crc32_bytes make_crc32_table bytes) (crc32_byte-entry crc b h.0)
    ∙ crc32_bytes-shift_register bytes _ h.1

pub shift_register-lt :
    (bytes : List ℕ) (crc : ℕ) → All IsByte bytes → crc < 2 ^ 32 → shift_register bytes crc < 2 ^ 32
unfolding shift_register
shift_register-lt [] crc h p = p
shift_register-lt (b ∷ bytes) crc h p =
    let q : b < 2 ^ 32 = omega arith in
    shift_register-lt bytes _ h.1 (entry-lt _ (xor-lt 32 crc b p q))

-- `T[k][i]` is the checksum register of the byte `i` followed by `k` bytes of zeros.
pub entry-iterate :
    (k i : ℕ) → k < 8 → i < 2 ^ 8 → entry make_crc32_slice8 k i ≡ iterate (suc k) crc32_entry i
unfolding make_crc32_slice8 iterate
entry-iterate k i hk hi =
    entry-slice_rows (next_entry make_crc32_table) 8 k i make_crc32_table hk hi
    ∙ ap (iterate k (next_entry make_crc32_table)) (table_lookup i hi)
    ∙ iterate_agree (λ x. Unit {0}) (next_entry make_crc32_table) crc32_entry
        (λ x _. (xor_comm (x / 2 ^ 8) _ ∙ table_low x, tt)) k (crc32_entry i) tt
