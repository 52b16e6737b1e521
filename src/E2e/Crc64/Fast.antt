-- ===== src/E2e/Crc64/Fast.antt =====
-- `crc64_fast` (slicing by 8) against the byte-at-a-time loop and the shift register.
use bsomeip.Common.{
  IsByte, ℕ, ◌^◌, ◌<◌, bit_xor, ◌≡◌, refl, sym, ap, ◌∙◌, arith, List, [], ◌∷◌, All,
}
use bsomeip.Common.Bits.{xor-lt}
use bsomeip.Platform.ByteOrder.{bswap64}
use bsomeip.Platform.ByteOrder.Reverse.{bswap64_reverses, big_endian8}
use bsomeip.E2e.Crc64.{
  make_crc64_slice8, crc64_word, crc64_fast_loop, crc64_fast, crc64_consteval, crc64, read_u64_le,
  all_ones,
}
use bsomeip.E2e.Crc64.Tables.{shift_register, shift_register-lt, crc64_bytes-shift_register}
use bsomeip.E2e.Crc64.Slicing.{
  Aligned, shift_register-at_once, contributions_lem, digits8, digits8-Aligned,
  crc64_word-contributions,
}

big_endian8-Aligned :
    (p0 p1 p2 p3 p4 p5 p6 p7 : ℕ)
    → All IsByte (p0 ∷ p1 ∷ p2 ∷ p3 ∷ p4 ∷ p5 ∷ p6 ∷ p7 ∷ [])
    → Aligned (p0 ∷ p1 ∷ p2 ∷ p3 ∷ p4 ∷ p5 ∷ p6 ∷ p7 ∷ []) (big_endian8 p0 p1 p2 p3 p4 p5 p6 p7)
big_endian8-Aligned p0 p1 p2 p3 p4 p5 p6 p7 h = (
  big_endian8 0 p1 p2 p3 p4 p5 p6 p7,
  omega arith,
  omega arith,
  (
    big_endian8 0 p2 p3 p4 p5 p6 p7 0,
    omega arith,
    omega arith,
    (
      big_endian8 0 p3 p4 p5 p6 p7 0 0,
      omega arith,
      omega arith,
      (
        big_endian8 0 p4 p5 p6 p7 0 0 0,
        omega arith,
        omega arith,
        (
          big_endian8 0 p5 p6 p7 0 0 0 0,
          omega arith,
          omega arith,
          (
            big_endian8 0 p6 p7 0 0 0 0 0,
            omega arith,
            omega arith,
            (
              big_endian8 0 p7 0 0 0 0 0 0,
              omega arith,
              omega arith,
              (0, omega arith, omega arith, refl),
            ),
          ),
        ),
      ),
    ),
  ),
)

-- One round of the loop on eight bytes is eight rounds of the loop on one.
crc64_word-shift_register :
    (p0 p1 p2 p3 p4 p5 p6 p7 crc : ℕ)
    → All IsByte (p0 ∷ p1 ∷ p2 ∷ p3 ∷ p4 ∷ p5 ∷ p6 ∷ p7 ∷ [])
    → crc < 2 ^ 64
    → crc64_word make_crc64_slice8 (bit_xor crc (bswap64 (read_u64_le p0 p1 p2 p3 p4 p5 p6 p7)))
      ≡ shift_register (p0 ∷ p1 ∷ p2 ∷ p3 ∷ p4 ∷ p5 ∷ p6 ∷ p7 ∷ []) crc
crc64_word-shift_register p0 p1 p2 p3 p4 p5 p6 p7 crc h hc =
    let bytes : List ℕ = p0 ∷ p1 ∷ p2 ∷ p3 ∷ p4 ∷ p5 ∷ p6 ∷ p7 ∷ [] in
    let block = big_endian8 p0 p1 p2 p3 p4 p5 p6 p7 in
    let swapped : bswap64 (read_u64_le p0 p1 p2 p3 p4 p5 p6 p7) ≡ block =
      ap bswap64 (omega arith) ∙ bswap64_reverses p0 p1 p2 p3 p4 p5 p6 p7 h in
    let x = bit_xor crc block in
    let hx : x < 2 ^ 64 = xor-lt 64 crc block hc (omega arith) in
    ap (λ b. crc64_word make_crc64_slice8 (bit_xor crc b)) swapped
    ∙ crc64_word-contributions x
    ∙ sym (contributions_lem (digits8 x) x (omega arith) (digits8-Aligned x hx))
    ∙ sym (
        shift_register-at_once bytes crc block h hc (big_endian8-Aligned p0 p1 p2 p3 p4 p5 p6 p7 h))

crc64_fast_loop-shift_register :
    (bytes : List ℕ) (crc : ℕ)
    → All IsByte bytes
    → crc < 2 ^ 64
    → crc64_fast_loop make_crc64_slice8 bytes crc ≡ shift_register bytes crc
unfolding crc64_fast_loop shift_register make_crc64_slice8
crc64_fast_loop-shift_register (p0 ∷ p1 ∷ p2 ∷ p3 ∷ p4 ∷ p5 ∷ p6 ∷ p7 ∷ rest) crc
      (h0, (h1, (h2, (h3, (h4, (h5, (h6, (h7, h)))))))) hc =
    let block = p0 ∷ p1 ∷ p2 ∷ p3 ∷ p4 ∷ p5 ∷ p6 ∷ p7 ∷ [] in
    let good : All IsByte block = (h0, (h1, (h2, (h3, (h4, (h5, (h6, (h7, tt)))))))) in
    ap (crc64_fast_loop make_crc64_slice8 rest)
      (crc64_word-shift_register p0 p1 p2 p3 p4 p5 p6 p7 crc good hc)
    ∙ crc64_fast_loop-shift_register rest (shift_register block crc) h
        (shift_register-lt block crc good hc)
crc64_fast_loop-shift_register rest crc h hc = crc64_bytes-shift_register rest crc h hc

-- Slicing by eight computes the checksum that the shift register defines, on every byte string
-- and from every 64-bit start value.
pub crc64_fast-shift_register :
    (bytes : List ℕ) (crc : ℕ)
    → All IsByte bytes
    → crc < 2 ^ 64
    → crc64_fast bytes crc ≡ bit_xor (shift_register bytes crc) all_ones
unfolding crc64_fast
crc64_fast-shift_register bytes crc h hc =
    ap (λ t. bit_xor t all_ones) (crc64_fast_loop-shift_register bytes crc h hc)

-- The run-time branch of `crc64` (slicing by eight) and its compile-time branch (one byte at a
-- time) agree on every byte string and from every 64-bit start value.
pub crc64-consteval :
    (bytes : List ℕ) (init : ℕ)
    → All IsByte bytes
    → init < 2 ^ 64
    → crc64 bytes init ≡ crc64_consteval bytes init
unfolding crc64 crc64_consteval
crc64-consteval bytes init h hi =
    crc64_fast-shift_register bytes init h hi
    ∙ ap (λ t. bit_xor t all_ones) (sym (crc64_bytes-shift_register bytes init h hi))
