-- ===== src/E2e/Crc64/Linear.antt =====
-- The eight rounds on one byte of CRC-64 as a linear map on 64-bit numbers.
use bsomeip.Common.{
  ℕ, zero, suc, ◌+◌, ◌*◌, ◌/◌, ◌%◌, ◌^◌, ◌≤◌, ◌<◌, bit_xor, ◌≡◌, refl, sym, ap, ◌∙◌, arith, iterate,
  ◌==◌, if◌then◌else◌, inl, inr, ◌⊎◌,
}
use bsomeip.Common.Bits.{
  xor_swap, xor-zero, and-one, and_mask, xor-lt, xor_fields, xor_comm, xor-twice, xor_parts,
  times_pow-suc,
}
use bsomeip.E2e.Crc64.{crc64_poly, crc64_bit, crc64_rounds}
use native.Mathlib.Nat.{one-le-pow}

-- What a round adds for the bit that it shifts out.
abbrev feedback : ℕ → ℕ
feedback b = if b == 0 then 0 else crc64_poly

crc64_bit_lem :
    (c : ℕ) → c < 2 ^ 64 → crc64_bit c ≡ bit_xor (c % 2 ^ 63 * 2) (feedback (c / 2 ^ 63))
unfolding crc64_bit
crc64_bit_lem c h = ground (arith, and_mask 63 1 c, and-one (c / 2 ^ 63), xor-zero (c % 2 ^ 63 * 2))

Bit-cases : (c : ℕ) → c < 2 → (c ≡ 0) ⊎ (c ≡ 1)
Bit-cases zero h = inl refl
Bit-cases (suc zero) h = inr refl
Bit-cases (suc (suc c)) h = absurd (omega arith)

feedback-xor :
    (x y : ℕ) → x < 2 → y < 2 → feedback (bit_xor x y) ≡ bit_xor (feedback x) (feedback y)
feedback-xor x y p q = elim (Bit-cases x p) [
  | inl e ↦ elim (Bit-cases y q) [ inl f ↦ rw (e, f) | inr f ↦ rw (e, f) ]
  | inr e ↦ elim (Bit-cases y q) [ inl f ↦ rw (e, f) | inr f ↦ rw (e, f) ]
]

-- `^` on the top bit and on the other 63.
xor-top :
    (a b : ℕ)
    → (bit_xor a b / 2 ^ 63 ≡ bit_xor (a / 2 ^ 63) (b / 2 ^ 63))
      × (bit_xor a b % 2 ^ 63 ≡ bit_xor (a % 2 ^ 63) (b % 2 ^ 63))
xor-top a b =
    let e : a ≡ a / 2 ^ 63 * 2 ^ 63 + a % 2 ^ 63 = omega arith in
    let f : b ≡ b / 2 ^ 63 * 2 ^ 63 + b % 2 ^ 63 = omega arith in
    let s =
      ap (λ t. bit_xor t b) e
      ∙ ap (bit_xor (a / 2 ^ 63 * 2 ^ 63 + a % 2 ^ 63)) f
      ∙ xor_fields 63 (a / 2 ^ 63) (b / 2 ^ 63) (a % 2 ^ 63) (b % 2 ^ 63) (omega arith)
          (omega arith) in
    let l : bit_xor (a % 2 ^ 63) (b % 2 ^ 63) < 2 ^ 63 =
      xor-lt 63 _ _ (omega arith) (omega arith) in
    (omega arith, omega arith)

pub crc64_bit-xor :
    (a b : ℕ)
    → a < 2 ^ 64
    → b < 2 ^ 64
    → crc64_bit (bit_xor a b) ≡ bit_xor (crc64_bit a) (crc64_bit b)
crc64_bit-xor a b ha hb =
    let (hi, lo) = xor-top a b in
    rw
      (
        crc64_bit_lem (bit_xor a b) (xor-lt 64 a b ha hb),
        crc64_bit_lem a ha,
        crc64_bit_lem b hb,
        hi,
        lo,
        feedback-xor (a / 2 ^ 63) (b / 2 ^ 63) (omega arith) (omega arith),
        ← xor-twice (a % 2 ^ 63) (b % 2 ^ 63),
      )
      (xor_swap (a % 2 ^ 63 * 2) (b % 2 ^ 63 * 2) _ _)

crc64_bit-lt : (c : ℕ) → c < 2 ^ 64 → crc64_bit c < 2 ^ 64
crc64_bit-lt c h =
    rw (crc64_bit_lem c h)
      (xor-lt 64 (c % 2 ^ 63 * 2) (feedback (c / 2 ^ 63)) (omega arith) (ground arith))

bits-lt : (n c : ℕ) → c < 2 ^ 64 → iterate n crc64_bit c < 2 ^ 64
unfolding iterate
bits-lt zero c h = h
bits-lt (suc n) c h = bits-lt n (crc64_bit c) (crc64_bit-lt c h)

pub rounds-lt : (c : ℕ) → c < 2 ^ 64 → crc64_rounds c < 2 ^ 64
unfolding crc64_rounds
rounds-lt c h = bits-lt 8 c h

bits-xor :
    (n a b : ℕ)
    → a < 2 ^ 64
    → b < 2 ^ 64
    → iterate n crc64_bit (bit_xor a b) ≡ bit_xor (iterate n crc64_bit a) (iterate n crc64_bit b)
unfolding iterate
bits-xor zero a b ha hb = refl
bits-xor (suc n) a b ha hb =
    ap (iterate n crc64_bit) (crc64_bit-xor a b ha hb)
    ∙ bits-xor n (crc64_bit a) (crc64_bit b) (crc64_bit-lt a ha) (crc64_bit-lt b hb)

pub rounds-xor :
    (a b : ℕ)
    → a < 2 ^ 64
    → b < 2 ^ 64
    → crc64_rounds (bit_xor a b) ≡ bit_xor (crc64_rounds a) (crc64_rounds b)
unfolding crc64_rounds
rounds-xor a b ha hb = bits-xor 8 a b ha hb

crc64_bit-double : (c : ℕ) → c < 2 ^ 63 → crc64_bit c ≡ c * 2
crc64_bit-double c h =
    let lo : c % 2 ^ 63 ≡ c = omega arith in
    let hi : c / 2 ^ 63 ≡ 0 = omega arith in
    rw (crc64_bit_lem c (omega arith), lo, hi) (xor-zero (c * 2))

bits-shift : (n c : ℕ) → c * 2 ^ n < 2 ^ 64 → iterate n crc64_bit c ≡ c * 2 ^ n
unfolding iterate
bits-shift zero c h = omega arith
bits-shift (suc n) c h =
    let pos : 0 < 2 ^ n = one-le-pow n 2 (omega arith) in
    let e : c * 2 ^ suc n ≡ c * 2 ^ n * 2 = times_pow-suc c n in
    let f : c * 2 * 2 ^ n ≡ c * 2 ^ n * 2 = grind arith in
    let le : c ≤ c * 2 ^ n = grind arith in
    ap (iterate n crc64_bit) (crc64_bit-double c (omega arith))
    ∙ bits-shift n (c * 2) (omega arith)
    ∙ f
    ∙ sym e

-- With zeros in the top byte the rounds only shift.
pub rounds-shift : (c : ℕ) → c < 2 ^ 56 → crc64_rounds c ≡ c * 2 ^ 8
unfolding crc64_rounds
rounds-shift c h = bits-shift 8 c (omega arith)

-- So only the top byte goes through the table.
pub rounds_top :
    (x : ℕ)
    → x < 2 ^ 64
    → crc64_rounds x ≡ bit_xor (crc64_rounds (x / 2 ^ 56 * 2 ^ 56)) (x % 2 ^ 56 * 2 ^ 8)
rounds_top x h =
    let high = x / 2 ^ 56 * 2 ^ 56 in
    let low = x % 2 ^ 56 in
    let e : x ≡ bit_xor high low =
      omega (arith, xor_parts 56 (x / 2 ^ 56) low (omega arith), xor_comm high low) in
    ap crc64_rounds e
    ∙ rounds-xor high low (omega arith) (omega arith)
    ∙ ap (bit_xor (crc64_rounds high)) (rounds-shift low (omega arith))
