-- ===== src/E2e/Crc32.antt =====
-- include/bsomeip/e2e/crc.hpp, CRC-32/Ethernet: the table, the slicing tables and both loops.
-- The tables are compile-time constants; here a table is a list, and a call makes it once.
-- The model of `memcpy` into a `uint32_t` is the one of a little-endian host.
pub mod Linear
pub mod Tables
pub mod Slicing
pub mod Detect
use bsomeip.Common.{
  ℕ, zero, suc, ◌+◌, ◌*◌, ◌/◌, ◌^◌, bit_and, bit_xor, List, [], ◌∷◌, map, get_or, range, iterate,
  ◌≡◌, refl, ◌==◌, if◌then◌else◌,
}
use bsomeip.E2e.Slices.{slice_rows, entry}

abbrev pub crc32_poly : ℕ
crc32_poly = 0xEDB88320

-- One round of the loop over the bits.
pub crc32_bit : ℕ → ℕ
crc32_bit crc = if bit_and crc 1 == 0 then crc / 2 else bit_xor (crc / 2) crc32_poly

pub crc32_entry : ℕ → ℕ
unfolding iterate crc32_bit
crc32_entry i = iterate 8 crc32_bit i

unfoldable pub make_crc32_table : List ℕ
unfolding crc32_entry
make_crc32_table = map crc32_entry (range 256)

-- `result.t[k][i]` from `result.t[k-1][i]`.
abbrev pub next_entry : List ℕ → ℕ → ℕ
next_entry t0 x = bit_xor (x / 2 ^ 8) (get_or t0 (bit_and x 0xFF) 0)

pub make_crc32_slice8 : List (List ℕ)
unfolding slice_rows make_crc32_table
make_crc32_slice8 = let t0 = make_crc32_table in slice_rows 8 (next_entry t0) t0

pub crc32_byte : List ℕ → ℕ → ℕ → ℕ
crc32_byte t0 crc b = bit_xor (get_or t0 (bit_and (bit_xor crc b) 0xFF) 0) (crc / 2 ^ 8)

pub crc32_bytes : List ℕ → List ℕ → ℕ → ℕ
unfolding crc32_byte
crc32_bytes t0 [] crc = crc
crc32_bytes t0 (b ∷ bytes) crc = crc32_bytes t0 bytes (crc32_byte t0 crc b)

abbrev pub read_u32_le : ℕ → ℕ → ℕ → ℕ → ℕ
read_u32_le p0 p1 p2 p3 = p0 + (p1 + (p2 + p3 * 2 ^ 8) * 2 ^ 8) * 2 ^ 8

-- The body of the loop on eight bytes, from the two words that it reads.
pub crc32_words : List (List ℕ) → ℕ → ℕ → ℕ
crc32_words t a b =
    bit_xor
      (bit_xor
        (bit_xor
          (bit_xor
            (bit_xor
              (bit_xor (bit_xor (entry t 7 (bit_and a 0xFF)) (entry t 6 (bit_and (a / 2 ^ 8) 0xFF)))
                (entry t 5 (bit_and (a / 2 ^ 16) 0xFF)))
              (entry t 4 (a / 2 ^ 24)))
            (entry t 3 (bit_and b 0xFF)))
          (entry t 2 (bit_and (b / 2 ^ 8) 0xFF)))
        (entry t 1 (bit_and (b / 2 ^ 16) 0xFF)))
      (entry t 0 (b / 2 ^ 24))

pub crc32_fast_loop : List (List ℕ) → List ℕ → ℕ → ℕ
unfolding crc32_words crc32_bytes
crc32_fast_loop t (p0 ∷ p1 ∷ p2 ∷ p3 ∷ p4 ∷ p5 ∷ p6 ∷ p7 ∷ rest) crc =
    crc32_fast_loop t rest
      (crc32_words t (bit_xor (read_u32_le p0 p1 p2 p3) crc) (read_u32_le p4 p5 p6 p7))
crc32_fast_loop t rest crc = crc32_bytes (get_or t 0 []) rest crc

unfoldable pub crc32_fast : List ℕ → ℕ → ℕ
unfolding crc32_fast_loop make_crc32_slice8
crc32_fast bytes crc = let t = make_crc32_slice8 in bit_xor (crc32_fast_loop t bytes crc) 0xFFFFFFFF

-- The two branches of `crc32_ethernet`: at compile time and at run time.
pub crc32_consteval : List ℕ → ℕ → ℕ
unfolding crc32_bytes make_crc32_table
crc32_consteval bytes init =
    let t0 = make_crc32_table in bit_xor (crc32_bytes t0 bytes init) 0xFFFFFFFF

unfoldable pub crc32_ethernet : List ℕ → ℕ → ℕ
unfolding crc32_fast
crc32_ethernet bytes init = crc32_fast bytes init

abbrev check_string : List ℕ
check_string = 0x31 ∷ 0x32 ∷ 0x33 ∷ 0x34 ∷ 0x35 ∷ 0x36 ∷ 0x37 ∷ 0x38 ∷ 0x39 ∷ []

crc32_consteval_check : crc32_consteval check_string 0xFFFFFFFF ≡ 0xCBF43926
unfolding crc32_consteval
crc32_consteval_check = refl

crc32_fast_check : crc32_fast check_string 0xFFFFFFFF ≡ 0xCBF43926
unfolding crc32_fast
crc32_fast_check = refl
