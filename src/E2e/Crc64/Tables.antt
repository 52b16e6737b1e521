-- ===== src/E2e/Crc64/Tables.antt =====
-- What the entries of the CRC-64 tables are, and the byte loop against the shift register.
use bsomeip.Common.{
  IsByte, ℕ, suc, ◌+◌, ◌*◌, ◌/◌, ◌%◌, ◌^◌, ◌<◌, bit_xor, ◌≡◌, refl, sym, ap, ◌∙◌, arith, iterate,
  List, [], ◌∷◌, get_or, All, get_or-map_range,
}
use bsomeip.Common.Bits.{xor_comm, xor-lt, xor_fields, xor-zero}
use bsomeip.E2e.Slices.{entry, entry-slice_rows, iterate_agree}
use bsomeip.E2e.Crc64.{
  crc64_rounds, make_crc64_table, next_entry, make_crc64_slice8, crc64_byte, crc64_bytes,
}
use bsomeip.E2e.Crc64.Linear.{rounds_top, rounds-lt}

pub table_lookup : (i : ℕ) → i < 2 ^ 8 → get_or make_crc64_table i 0 ≡ crc64_rounds (i * 2 ^ 56)
unfolding make_crc64_table
table_lookup i h =
    get_or-map_range (λ i. crc64_rounds (i * 2 ^ 56)) 256 0 i 0 h
    ∙ ap (λ i. crc64_rounds (i * 2 ^ 56)) (omega arith)

-- A byte goes into the top of the register.
xor_top_byte :
    (crc b : ℕ)
    → b < 2 ^ 8
    → bit_xor crc (b * 2 ^ 56) ≡ bit_xor (crc / 2 ^ 56) b * 2 ^ 56 + crc % 2 ^ 56
xor_top_byte crc b h =
    let e : crc ≡ crc / 2 ^ 56 * 2 ^ 56 + crc % 2 ^ 56 = omega arith in
    let f : b * 2 ^ 56 ≡ b * 2 ^ 56 + 0 = omega arith in
    ap (λ t. bit_xor t (b * 2 ^ 56)) e
    ∙ ap (bit_xor (crc / 2 ^ 56 * 2 ^ 56 + crc % 2 ^ 56)) f
    ∙ xor_fields 56 (crc / 2 ^ 56) b (crc % 2 ^ 56) 0 (omega arith) (omega arith)
    ∙ rw xor-zero

-- One byte through the table is one byte through the shift register.
pub crc64_byte-rounds :
    (crc b : ℕ)
    → crc < 2 ^ 64
    → IsByte b
    → crc64_byte make_crc64_table crc b ≡ crc64_rounds (bit_xor crc (b * 2 ^ 56))
unfolding crc64_byte
crc64_byte-rounds crc b hc h =
    let i = bit_xor (crc / 2 ^ 56) b in
    let hi : i < 2 ^ 8 = xor-lt 8 (crc / 2 ^ 56) b (omega arith) h in
    let m : i % 2 ^ 8 ≡ i = omega arith in
    let x = i * 2 ^ 56 + crc % 2 ^ 56 in
    let top : x / 2 ^ 56 ≡ i = omega arith in
    let low : x % 2 ^ 56 * 2 ^ 8 ≡ crc * 2 ^ 8 % 2 ^ 64 = omega arith in
    rw (m, table_lookup i hi, xor_top_byte crc b h)
      (sym (rounds_top x (omega arith) ∙ rw (top, low)))

-- The checksum by its definition: each byte goes into the high end of a shift register, which
-- then takes eight steps. No table.
unfoldable pub shift_register : List ℕ → ℕ → ℕ
shift_register [] crc = crc
shift_register (b ∷ bytes) crc = shift_register bytes (crc64_rounds (bit_xor crc (b * 2 ^ 56)))

pub after_byte-lt :
    (crc b : ℕ) → crc < 2 ^ 64 → IsByte b → crc64_rounds (bit_xor crc (b * 2 ^ 56)) < 2 ^ 64
after_byte-lt crc b hc h = rounds-lt _ (xor-lt 64 crc (b * 2 ^ 56) hc (omega arith))

pub crc64_bytes-shift_register :
    (bytes : List ℕ) (crc : ℕ)
    → All IsByte bytes
    → crc < 2 ^ 64
    → crc64_bytes make_crc64_table bytes crc ≡ shift_register bytes crc
unfolding crc64_bytes shift_register
crc64_bytes-shift_register [] crc h hc = refl
crc64_bytes-shift_register (b ∷ bytes) crc h hc =
    ap (crc64_bytes make_crc64_table bytes) (crc64_byte-rounds crc b hc h.0)
    ∙ crc64_bytes-shift_register bytes _ h.1 (after_byte-lt crc b hc h.0)

pub shift_register-lt :
    (bytes : List ℕ) (crc : ℕ) → All IsByte bytes → crc < 2 ^ 64 → shift_register bytes crc < 2 ^ 64
unfolding shift_register
shift_register-lt [] crc h p = p
shift_register-lt (b ∷ bytes) crc h p = shift_register-lt bytes _ h.1 (after_byte-lt crc b p h.0)

next_entry-rounds : (x : ℕ) → x < 2 ^ 64 → next_entry make_crc64_table x ≡ crc64_rounds x
next_entry-rounds x h =
    let top : x / 2 ^ 56 % 2 ^ 8 ≡ x / 2 ^ 56 = omega arith in
    let low : x * 2 ^ 8 % 2 ^ 64 ≡ x % 2 ^ 56 * 2 ^ 8 = omega arith in
    rw (top, low, table_lookup (x / 2 ^ 56) (omega arith))
      (xor_comm (x % 2 ^ 56 * 2 ^ 8) _ ∙ sym (rounds_top x h))

-- `T[k][i]` is the checksum register of the byte `i` followed by `k` bytes of zeros.
pub entry-iterate :
    (k i : ℕ)
    → k < 8
    → i < 2 ^ 8
    → entry make_crc64_slice8 k i ≡ iterate (suc k) crc64_rounds (i * 2 ^ 56)
unfolding make_crc64_slice8 iterate
entry-iterate k i hk hi =
    entry-slice_rows (next_entry make_crc64_table) 8 k i make_crc64_table hk hi
    ∙ ap (iterate k (next_entry make_crc64_table)) (table_lookup i hi)
    ∙ iterate_agree (λ x. x < 2 ^ 64) (next_entry make_crc64_table) crc64_rounds
        (λ x h. (next_entry-rounds x h, rounds-lt x h)) k (crc64_rounds (i * 2 ^ 56))
        (rounds-lt _ (omega arith))
