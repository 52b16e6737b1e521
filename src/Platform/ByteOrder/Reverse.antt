-- ===== src/Platform/ByteOrder/Reverse.antt =====
-- The byte swaps turn a number's bytes round.
use bsomeip.Common.{
  ℕ, ◌+◌, ◌*◌, ◌/◌, ◌%◌, ◌^◌, ◌<◌, bit_and, bit_or, ◌≡◌, ap, ◌∙◌, arith, All, [], ◌∷◌,
}
use bsomeip.Common.Bits.{and_mask, and-byte, or_disjoint}
use bsomeip.Platform.ByteOrder.{bswap64, bswap32}

-- Eight bytes as a number, the first one highest.
abbrev pub big_endian8 : ℕ → ℕ → ℕ → ℕ → ℕ → ℕ → ℕ → ℕ → ℕ
big_endian8 d0 d1 d2 d3 d4 d5 d6 d7 =
    d0 * 2 ^ 56
    + d1 * 2 ^ 48
    + d2 * 2 ^ 40
    + d3 * 2 ^ 32
    + d4 * 2 ^ 24
    + d5 * 2 ^ 16
    + d6 * 2 ^ 8
    + d7

abbrev pub big_endian4 : ℕ → ℕ → ℕ → ℕ → ℕ
big_endian4 d0 d1 d2 d3 = d0 * 2 ^ 24 + d1 * 2 ^ 16 + d2 * 2 ^ 8 + d3

-- `|` of bytes that stand apart.
pub or_four :
    (d0 d1 d2 d3 : ℕ)
    → d1 < 2 ^ 8
    → d2 < 2 ^ 8
    → d3 < 2 ^ 8
    → bit_or (bit_or (bit_or (d0 * 2 ^ 24) (d1 * 2 ^ 16)) (d2 * 2 ^ 8)) d3 ≡ big_endian4 d0 d1 d2 d3
or_four d0 d1 d2 d3 h1 h2 h3 =
    rw
      (
        or_disjoint 24 (d0 * 2 ^ 24) (d1 * 2 ^ 16) d0 (omega arith) (omega arith),
        or_disjoint 16 (d0 * 2 ^ 24 + d1 * 2 ^ 16) (d2 * 2 ^ 8) (d0 * 2 ^ 8 + d1) (omega arith)
            (omega arith),
      )
      (or_disjoint 8 (d0 * 2 ^ 24 + d1 * 2 ^ 16 + d2 * 2 ^ 8) d3 (d0 * 2 ^ 16 + d1 * 2 ^ 8 + d2)
        (omega arith) (omega arith))

or_eight :
    (d0 d1 d2 d3 d4 d5 d6 d7 : ℕ)
    → d1 < 2 ^ 8
    → d2 < 2 ^ 8
    → d3 < 2 ^ 8
    → d4 < 2 ^ 8
    → d5 < 2 ^ 8
    → d6 < 2 ^ 8
    → d7 < 2 ^ 8
    → bit_or
        (bit_or
          (bit_or
            (bit_or
              (bit_or (bit_or (bit_or (d0 * 2 ^ 56) (d1 * 2 ^ 48)) (d2 * 2 ^ 40)) (d3 * 2 ^ 32))
              (d4 * 2 ^ 24))
            (d5 * 2 ^ 16))
          (d6 * 2 ^ 8))
        d7
      ≡ big_endian8 d0 d1 d2 d3 d4 d5 d6 d7
or_eight d0 d1 d2 d3 d4 d5 d6 d7 h1 h2 h3 h4 h5 h6 h7 =
    let s1 = d0 * 2 ^ 56 + d1 * 2 ^ 48 in
    let s2 = s1 + d2 * 2 ^ 40 in
    let s3 = s2 + d3 * 2 ^ 32 in
    let s4 = s3 + d4 * 2 ^ 24 in
    let s5 = s4 + d5 * 2 ^ 16 in
    let s6 = s5 + d6 * 2 ^ 8 in
    rw
      (
        or_disjoint 56 (d0 * 2 ^ 56) (d1 * 2 ^ 48) d0 (omega arith) (omega arith),
        or_disjoint 48 s1 (d2 * 2 ^ 40) (s1 / 2 ^ 48) (omega arith) (omega arith),
        or_disjoint 40 s2 (d3 * 2 ^ 32) (s2 / 2 ^ 40) (omega arith) (omega arith),
        or_disjoint 32 s3 (d4 * 2 ^ 24) (s3 / 2 ^ 32) (omega arith) (omega arith),
        or_disjoint 24 s4 (d5 * 2 ^ 16) (s4 / 2 ^ 24) (omega arith) (omega arith),
        or_disjoint 16 s5 (d6 * 2 ^ 8) (s5 / 2 ^ 16) (omega arith) (omega arith),
      )
      (or_disjoint 8 s6 d7 (s6 / 2 ^ 8) (omega arith) (omega arith))

mask_byte : (k v : ℕ) → bit_and v (0xFF * 2 ^ k) ≡ v / 2 ^ k % 2 ^ 8 * 2 ^ k
mask_byte k v = and_mask k 0xFF v ∙ ap (λ t. t * 2 ^ k) (and-byte (v / 2 ^ k))

-- The value of `bswap64` by the eight bytes of its argument.
bswap64_lem :
    (v : ℕ)
    → v < 2 ^ 64
    → bswap64 v
      ≡ big_endian8
          (v % 2 ^ 8)
          (v / 2 ^ 8 % 2 ^ 8)
          (v / 2 ^ 16 % 2 ^ 8)
          (v / 2 ^ 24 % 2 ^ 8)
          (v / 2 ^ 32 % 2 ^ 8)
          (v / 2 ^ 40 % 2 ^ 8)
          (v / 2 ^ 48 % 2 ^ 8)
          (v / 2 ^ 56)
unfolding bswap64
bswap64_lem v h =
    rw (t0, t1, t2, t3, t4, t5, t6, t7)
      (or_eight _ _ _ _ _ _ _ _ (omega arith) (omega arith) (omega arith) (omega arith)
        (omega arith) (omega arith) (omega arith))
  where
    t0 : bit_and v 0x00000000000000FF * 2 ^ 56 % 2 ^ 64 ≡ v % 2 ^ 8 * 2 ^ 56
    t0 = omega (arith, mask_byte 0 v)

    t1 : bit_and v 0x000000000000FF00 * 2 ^ 40 % 2 ^ 64 ≡ v / 2 ^ 8 % 2 ^ 8 * 2 ^ 48
    t1 = omega (arith, mask_byte 8 v)

    t2 : bit_and v 0x0000000000FF0000 * 2 ^ 24 % 2 ^ 64 ≡ v / 2 ^ 16 % 2 ^ 8 * 2 ^ 40
    t2 = omega (arith, mask_byte 16 v)

    t3 : bit_and v 0x00000000FF000000 * 2 ^ 8 % 2 ^ 64 ≡ v / 2 ^ 24 % 2 ^ 8 * 2 ^ 32
    t3 = omega (arith, mask_byte 24 v)

    t4 : bit_and v 0x000000FF00000000 / 2 ^ 8 ≡ v / 2 ^ 32 % 2 ^ 8 * 2 ^ 24
    t4 = omega (arith, mask_byte 32 v)

    t5 : bit_and v 0x0000FF0000000000 / 2 ^ 24 ≡ v / 2 ^ 40 % 2 ^ 8 * 2 ^ 16
    t5 = omega (arith, mask_byte 40 v)

    t6 : bit_and v 0x00FF000000000000 / 2 ^ 40 ≡ v / 2 ^ 48 % 2 ^ 8 * 2 ^ 8
    t6 = omega (arith, mask_byte 48 v)

    t7 : bit_and v 0xFF00000000000000 / 2 ^ 56 ≡ v / 2 ^ 56
    t7 = omega (arith, mask_byte 56 v)

-- `bswap64` turns eight bytes round: what was read lowest byte first becomes the number that has
-- the first byte highest.
pub bswap64_reverses :
    (d0 d1 d2 d3 d4 d5 d6 d7 : ℕ)
    → All (λ d. d < 2 ^ 8) (d0 ∷ d1 ∷ d2 ∷ d3 ∷ d4 ∷ d5 ∷ d6 ∷ d7 ∷ [])
    → bswap64 (big_endian8 d7 d6 d5 d4 d3 d2 d1 d0) ≡ big_endian8 d0 d1 d2 d3 d4 d5 d6 d7
bswap64_reverses d0 d1 d2 d3 d4 d5 d6 d7 h =
    bswap64_lem (big_endian8 d7 d6 d5 d4 d3 d2 d1 d0) (omega arith) ∙ omega arith

bswap32_lem :
    (v : ℕ)
    → v < 2 ^ 32
    → bswap32 v ≡ big_endian4 (v % 2 ^ 8) (v / 2 ^ 8 % 2 ^ 8) (v / 2 ^ 16 % 2 ^ 8) (v / 2 ^ 24)
unfolding bswap32
bswap32_lem v h = rw (t0, t1, t2, t3) (or_four _ _ _ _ (omega arith) (omega arith) (omega arith))
  where
    t0 : bit_and v 0x000000FF * 2 ^ 24 % 2 ^ 32 ≡ v % 2 ^ 8 * 2 ^ 24
    t0 = omega (arith, mask_byte 0 v)

    t1 : bit_and v 0x0000FF00 * 2 ^ 8 % 2 ^ 32 ≡ v / 2 ^ 8 % 2 ^ 8 * 2 ^ 16
    t1 = omega (arith, mask_byte 8 v)

    t2 : bit_and v 0x00FF0000 / 2 ^ 8 ≡ v / 2 ^ 16 % 2 ^ 8 * 2 ^ 8
    t2 = omega (arith, mask_byte 16 v)

    t3 : bit_and v 0xFF000000 / 2 ^ 24 ≡ v / 2 ^ 24
    t3 = omega (arith, mask_byte 24 v)

-- Both swaps undo themselves on every number of their width.
pub bswap_twice :
    (v w : ℕ) → v < 2 ^ 64 → w < 2 ^ 32 → (bswap64 (bswap64 v) ≡ v) × (bswap32 (bswap32 w) ≡ w)
bswap_twice v w hv hw = (
  ap bswap64 (bswap64_lem v hv) ∙ bswap64_lem _ (omega arith) ∙ omega arith,
  ap bswap32 (bswap32_lem w hw) ∙ bswap32_lem _ (omega arith) ∙ omega arith,
)
