-- ===== src/E2e/Crc32/Linear.antt =====
-- The eight rounds on one byte of CRC-32 as a linear map.
use bsomeip.Common.{
  ℕ, zero, suc, ◌+◌, ◌*◌, ◌/◌, ◌%◌, ◌^◌, ◌<◌, bit_xor, ◌≡◌, refl, ap, ◌∙◌, arith, iterate, ◌==◌,
  if◌then◌else◌, inl, inr, ◌⊎◌,
}
use bsomeip.Common.Bits.{
  xor-half, xor_swap, xor-zero, and-one, xor-lt, xor-mod2, times_pow-suc, xor_low_high,
}
use bsomeip.E2e.Crc32.{crc32_poly, crc32_bit, crc32_entry}

-- What a round adds for the bit that it shifts out.
abbrev feedback : ℕ → ℕ
feedback b = if b == 0 then 0 else crc32_poly

pub crc32_bit_lem : (c : ℕ) → crc32_bit c ≡ bit_xor (c / 2) (feedback (c % 2))
unfolding crc32_bit
crc32_bit_lem c = ground (arith, and-one c, xor-zero (c / 2))

pub Bit-cases : (c : ℕ) → c < 2 → (c ≡ 0) ⊎ (c ≡ 1)
Bit-cases zero h = inl refl
Bit-cases (suc zero) h = inr refl
Bit-cases (suc (suc c)) h = absurd (omega arith)

feedback-xor :
    (x y : ℕ) → x < 2 → y < 2 → feedback ((x + y) % 2) ≡ bit_xor (feedback x) (feedback y)
feedback-xor x y p q = elim (Bit-cases x p) [
  | inl e ↦ elim (Bit-cases y q) [ inl f ↦ rw (e, f) | inr f ↦ rw (e, f) ]
  | inr e ↦ elim (Bit-cases y q) [ inl f ↦ rw (e, f) | inr f ↦ rw (e, f) ]
]

pub crc32_bit-xor : (a b : ℕ) → crc32_bit (bit_xor a b) ≡ bit_xor (crc32_bit a) (crc32_bit b)
crc32_bit-xor a b =
    rw
      (
        crc32_bit_lem (bit_xor a b),
        crc32_bit_lem a,
        crc32_bit_lem b,
        xor-half a b,
        xor-mod2 a b,
        feedback-xor (a % 2) (b % 2) (omega arith) (omega arith),
      )
      (xor_swap (a / 2) (b / 2) _ _)

pub bits-xor :
    (n a b : ℕ)
    → iterate n crc32_bit (bit_xor a b) ≡ bit_xor (iterate n crc32_bit a) (iterate n crc32_bit b)
unfolding iterate
bits-xor zero a b = refl
bits-xor (suc n) a b =
    ap (iterate n crc32_bit) (crc32_bit-xor a b) ∙ bits-xor n (crc32_bit a) (crc32_bit b)

pub entry-xor : (a b : ℕ) → crc32_entry (bit_xor a b) ≡ bit_xor (crc32_entry a) (crc32_entry b)
unfolding crc32_entry
entry-xor a b = bits-xor 8 a b

crc32_bit-double : (c : ℕ) → crc32_bit (c * 2) ≡ c
crc32_bit-double c =
    let h : c * 2 / 2 ≡ c = omega arith in
    let m : c * 2 % 2 ≡ 0 = omega arith in rw (crc32_bit_lem (c * 2), h, m) (xor-zero c)

bits-shift : (n c : ℕ) → iterate n crc32_bit (c * 2 ^ n) ≡ c
unfolding iterate
bits-shift zero c = omega arith
bits-shift (suc n) c =
    ap (iterate n crc32_bit) (ap crc32_bit (times_pow-suc c n) ∙ crc32_bit-double (c * 2 ^ n))
    ∙ bits-shift n c

-- A low byte of zeros is shifted out.
pub entry-shift : (c : ℕ) → crc32_entry (c * 2 ^ 8) ≡ c
unfolding crc32_entry
entry-shift c = bits-shift 8 c

-- So only the low byte goes through the table.
pub entry_low : (c : ℕ) → crc32_entry c ≡ bit_xor (crc32_entry (c % 2 ^ 8)) (c / 2 ^ 8)
entry_low c =
    ap crc32_entry (xor_low_high c)
    ∙ entry-xor (c % 2 ^ 8) (c / 2 ^ 8 * 2 ^ 8)
    ∙ rw (entry-shift (c / 2 ^ 8))

pub crc32_bit-lt : (c : ℕ) → c < 2 ^ 32 → crc32_bit c < 2 ^ 32
crc32_bit-lt c h =
    rw (crc32_bit_lem c) (xor-lt 32 (c / 2) (feedback (c % 2)) (omega arith) (ground arith))

bits-lt : (n c : ℕ) → c < 2 ^ 32 → iterate n crc32_bit c < 2 ^ 32
unfolding iterate
bits-lt zero c h = h
bits-lt (suc n) c h = bits-lt n (crc32_bit c) (crc32_bit-lt c h)

pub entry-lt : (c : ℕ) → c < 2 ^ 32 → crc32_entry c < 2 ^ 32
unfolding crc32_entry
entry-lt c h = bits-lt 8 c h
