-- ===== src/E2e/Crc64.antt =====
-- include/bsomeip/e2e/crc.hpp, CRC-64: the table, the slicing tables and both loops.
-- The register is shifted towards its high end; `memcpy` is that of a little-endian host.
pub mod Linear
pub mod Tables
pub mod Slicing
pub mod Fast
use bsomeip.Common.{
  ℕ, ◌+◌, ◌*◌, ◌/◌, ◌%◌, ◌^◌, bit_and, bit_xor, List, [], ◌∷◌, map, get_or, range, iterate, ◌==◌,
  if◌then◌else◌, ◌≡◌, refl,
}
use bsomeip.E2e.Slices.{slice_rows, entry}
use bsomeip.Platform.ByteOrder.{bswap64}

abbrev pub crc64_poly : ℕ
crc64_poly = 0x42F0E1EBA9EA3693

-- One round of the loop over the bits.
pub crc64_bit : ℕ → ℕ
crc64_bit crc =
    if bit_and crc (2 ^ 63) == 0 then crc * 2 % 2 ^ 64 else bit_xor (crc * 2 % 2 ^ 64) crc64_poly

pub crc64_rounds : ℕ → ℕ
unfolding iterate crc64_bit
crc64_rounds crc = iterate 8 crc64_bit crc

unfoldable pub make_crc64_table : List ℕ
unfolding crc64_rounds
make_crc64_table = map (λ i. crc64_rounds (i * 2 ^ 56)) (range 256)

-- `result.t[k][i]` from `result.t[k-1][i]`.
abbrev pub next_entry : List ℕ → ℕ → ℕ
next_entry t0 x = bit_xor (x * 2 ^ 8 % 2 ^ 64) (get_or t0 (x / 2 ^ 56 % 2 ^ 8) 0)

pub make_crc64_slice8 : List (List ℕ)
unfolding slice_rows make_crc64_table
make_crc64_slice8 = let t0 = make_crc64_table in slice_rows 8 (next_entry t0) t0

pub crc64_byte : List ℕ → ℕ → ℕ → ℕ
crc64_byte t0 crc b =
    bit_xor (get_or t0 (bit_xor (crc / 2 ^ 56) b % 2 ^ 8) 0) (crc * 2 ^ 8 % 2 ^ 64)

pub crc64_bytes : List ℕ → List ℕ → ℕ → ℕ
unfolding crc64_byte
crc64_bytes t0 [] crc = crc
crc64_bytes t0 (b ∷ bytes) crc = crc64_bytes t0 bytes (crc64_byte t0 crc b)

abbrev pub read_u64_le : ℕ → ℕ → ℕ → ℕ → ℕ → ℕ → ℕ → ℕ → ℕ
read_u64_le p0 p1 p2 p3 p4 p5 p6 p7 =
    p0
    + (p1 + (p2 + (p3 + (p4 + (p5 + (p6 + p7 * 2 ^ 8) * 2 ^ 8) * 2 ^ 8) * 2 ^ 8) * 2 ^ 8) * 2 ^ 8)
      * 2 ^ 8

-- The body of the loop on eight bytes, from `combined`.
pub crc64_word : List (List ℕ) → ℕ → ℕ
crc64_word t combined =
    bit_xor
      (bit_xor
        (bit_xor
          (bit_xor
            (bit_xor
              (bit_xor
                (bit_xor (entry t 7 (combined / 2 ^ 56 % 2 ^ 8))
                  (entry t 6 (combined / 2 ^ 48 % 2 ^ 8)))
                (entry t 5 (combined / 2 ^ 40 % 2 ^ 8)))
              (entry t 4 (combined / 2 ^ 32 % 2 ^ 8)))
            (entry t 3 (combined / 2 ^ 24 % 2 ^ 8)))
          (entry t 2 (combined / 2 ^ 16 % 2 ^ 8)))
        (entry t 1 (combined / 2 ^ 8 % 2 ^ 8)))
      (entry t 0 (combined % 2 ^ 8))

pub crc64_fast_loop : List (List ℕ) → List ℕ → ℕ → ℕ
unfolding crc64_word crc64_bytes bswap64
crc64_fast_loop t (p0 ∷ p1 ∷ p2 ∷ p3 ∷ p4 ∷ p5 ∷ p6 ∷ p7 ∷ rest) crc =
    crc64_fast_loop t rest
      (crc64_word t (bit_xor crc (bswap64 (read_u64_le p0 p1 p2 p3 p4 p5 p6 p7))))
crc64_fast_loop t rest crc = crc64_bytes (get_or t 0 []) rest crc

abbrev pub all_ones : ℕ
all_ones = 0xFFFFFFFFFFFFFFFF

unfoldable pub crc64_fast : List ℕ → ℕ → ℕ
unfolding crc64_fast_loop make_crc64_slice8
crc64_fast bytes crc = let t = make_crc64_slice8 in bit_xor (crc64_fast_loop t bytes crc) all_ones

-- The two branches of `crc64`: at compile time and at run time.
pub crc64_consteval : List ℕ → ℕ → ℕ
unfolding crc64_bytes make_crc64_table
crc64_consteval bytes init =
    let t0 = make_crc64_table in bit_xor (crc64_bytes t0 bytes init) all_ones

unfoldable pub crc64 : List ℕ → ℕ → ℕ
unfolding crc64_fast
crc64 bytes init = crc64_fast bytes init

abbrev check_string : List ℕ
check_string = 0x31 ∷ 0x32 ∷ 0x33 ∷ 0x34 ∷ 0x35 ∷ 0x36 ∷ 0x37 ∷ 0x38 ∷ 0x39 ∷ []

crc64_consteval_check : crc64_consteval check_string all_ones ≡ 0x62EC59E3F1A4F00A
unfolding crc64_consteval
crc64_consteval_check = refl

crc64_fast_check : crc64_fast check_string all_ones ≡ 0x62EC59E3F1A4F00A
unfolding crc64_fast
crc64_fast_check = refl
