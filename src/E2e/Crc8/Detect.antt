-- ===== src/E2e/Crc8/Detect.antt =====
-- CRC-8 as a register that never forgets: no two states meet, so one wrong byte shows.
use bsomeip.Common.{
  IsByte, ℕ, ◌+◌, ◌/◌, ◌%◌, ◌^◌, bit_xor, ◌≡◌, refl, sym, ap, ◌∙◌, arith, List, [], ◌∷◌, true,
  get_or, iterate, ◌==◌, ==_iff, if◌then◌else◌, All, get_or-map_range,
}
use bsomeip.Common.Table.{all_below, all_below_sound}
use bsomeip.Common.Bits.{xor_injective, xor_comm, xor-lt}
use bsomeip.E2e.Crc8.{crc8_poly, crc8_entry, make_crc8_table, crc8_bytes, crc8_sae_j1850}

-- The round backwards: the polynomial is odd, so the lowest bit tells which way it went.
uncrc8_bit : ℕ → ℕ
uncrc8_bit c = if c % 2 == 0 then c / 2 else bit_xor c crc8_poly / 2 + 0x80

uncrc8_entry : ℕ → ℕ
unfolding iterate uncrc8_bit
uncrc8_entry c = iterate 8 uncrc8_bit c

undo_table : all_below 256 (λ i. uncrc8_entry (crc8_entry i) == i) ≡ true
unfolding all_below uncrc8_entry crc8_entry
undo_table = refl

range_table : all_below 256 (λ i. crc8_entry i / 2 ^ 8 == 0) ≡ true
unfolding all_below crc8_entry
range_table = refl

uncrc8-crc8 : (i : ℕ) → IsByte i → uncrc8_entry (crc8_entry i) ≡ i
uncrc8-crc8 i h = (==_iff _ i).0 (all_below_sound 256 _ i undo_table h)

crc8_entry-IsByte : (i : ℕ) → IsByte i → IsByte (crc8_entry i)
crc8_entry-IsByte i h =
    omega (arith, (==_iff (crc8_entry i / 2 ^ 8) 0).0 (all_below_sound 256 _ i range_table h))

pub crc8_lookup : (i : ℕ) → IsByte i → get_or make_crc8_table i 0 ≡ crc8_entry i
unfolding make_crc8_table
crc8_lookup i h = get_or-map_range crc8_entry 256 0 i 0 h ∙ ap crc8_entry (omega arith)

-- One byte into the register.
abbrev pub crc8_next : ℕ → ℕ → ℕ
crc8_next crc b = get_or make_crc8_table (bit_xor crc b) 0

pub crc8_next-IsByte : (crc b : ℕ) → IsByte crc → IsByte b → IsByte (crc8_next crc b)
crc8_next-IsByte crc b hc hb =
    let h = xor-lt 8 crc b hc hb in rw (crc8_lookup (bit_xor crc b) h) (crc8_entry-IsByte _ h)

entry_of_next : (crc b : ℕ) → IsByte crc → IsByte b → uncrc8_entry (crc8_next crc b) ≡ bit_xor crc b
entry_of_next crc b hc hb =
    let h = xor-lt 8 crc b hc hb in rw (crc8_lookup (bit_xor crc b) h) (uncrc8-crc8 _ h)

pub crc8_next-injective :
    (c d b : ℕ) → IsByte c → IsByte d → IsByte b → crc8_next c b ≡ crc8_next d b → c ≡ d
crc8_next-injective c d b hc hd hb e = xor_injective b c d (
    xor_comm b c
    ∙ sym (entry_of_next c b hc hb)
    ∙ ap uncrc8_entry e
    ∙ entry_of_next d b hd hb
    ∙ xor_comm d b)

pub crc8_next_byte_injective :
    (c a b : ℕ) → IsByte c → IsByte a → IsByte b → crc8_next c a ≡ crc8_next c b → a ≡ b
crc8_next_byte_injective c a b hc ha hb e =
    xor_injective c a b
      (sym (entry_of_next c a hc ha) ∙ ap uncrc8_entry e ∙ entry_of_next c b hc hb)

pub crc8_bytes-IsByte :
    (bytes : List ℕ) (crc : ℕ)
    → All IsByte bytes
    → IsByte crc
    → IsByte (crc8_bytes make_crc8_table bytes crc)
unfolding crc8_bytes
crc8_bytes-IsByte [] crc h hc = hc
crc8_bytes-IsByte (b ∷ bytes) crc h hc =
    crc8_bytes-IsByte bytes (crc8_next crc b) h.1 (crc8_next-IsByte crc b hc h.0)

-- Different registers stay different whatever bytes follow.
pub crc8_bytes-injective :
    (bytes : List ℕ) (c d : ℕ)
    → All IsByte bytes
    → IsByte c
    → IsByte d
    → crc8_bytes make_crc8_table bytes c ≡ crc8_bytes make_crc8_table bytes d
    → c ≡ d
unfolding crc8_bytes
crc8_bytes-injective [] c d h hc hd e = e
crc8_bytes-injective (b ∷ bytes) c d h hc hd e = crc8_next-injective c d b hc hd h.0 (
    crc8_bytes-injective bytes (crc8_next c b) (crc8_next d b) h.1 (crc8_next-IsByte c b hc h.0)
      (crc8_next-IsByte d b hd h.0) e)

pub crc8_sae_j1850-IsByte :
    (bytes : List ℕ) (init : ℕ)
    → All IsByte bytes
    → IsByte init
    → IsByte (crc8_sae_j1850 bytes init)
unfolding crc8_sae_j1850
crc8_sae_j1850-IsByte bytes init h hi =
    xor-lt 8 _ 0xFF (crc8_bytes-IsByte bytes init h hi) (omega arith)
