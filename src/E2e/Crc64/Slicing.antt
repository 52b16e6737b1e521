-- ===== src/E2e/Crc64/Slicing.antt =====
-- The eight look-ups of `crc64_fast` as the contributions of eight bytes to the register.
use bsomeip.Common.{
  IsByte, ℕ, zero, suc, ◌+◌, ◌*◌, ◌/◌, ◌%◌, ◌^◌, ◌<◌, bit_xor, ◌≡◌, refl, sym, ap, ◌∙◌, arith,
  iterate, List, [], ◌∷◌, length, All,
}
use bsomeip.Common.Bits.{xor_comm, xor_assoc, xor-lt, xor_parts, xor-zero}
use bsomeip.E2e.Crc64.{crc64_rounds, make_crc64_slice8, crc64_word}
use bsomeip.E2e.Crc64.Linear.{rounds-xor, rounds-shift, rounds-lt}
use bsomeip.E2e.Crc64.Tables.{shift_register, entry-iterate, after_byte-lt}

-- `w` holds the bytes from its top byte downwards, and zeros behind them.
abbrev pub Aligned : List ℕ → ℕ → Type 0
Aligned [] w = w ≡ 0
Aligned (b ∷ bytes) w = (n : ℕ) × (n < 2 ^ 56) × (w ≡ b * 2 ^ 56 + n) × Aligned bytes (n * 2 ^ 8)

times-xor :
    (k a b : ℕ)
    → a < 2 ^ 64
    → b < 2 ^ 64
    → iterate k crc64_rounds (bit_xor a b)
      ≡ bit_xor (iterate k crc64_rounds a) (iterate k crc64_rounds b)
unfolding iterate
times-xor zero a b ha hb = refl
times-xor (suc k) a b ha hb =
    ap (iterate k crc64_rounds) (rounds-xor a b ha hb)
    ∙ times-xor k (crc64_rounds a) (crc64_rounds b) (rounds-lt a ha) (rounds-lt b hb)

register_step :
    (crc b n : ℕ)
    → crc < 2 ^ 64
    → IsByte b
    → n < 2 ^ 56
    → crc64_rounds (bit_xor crc (b * 2 ^ 56 + n))
      ≡ bit_xor (crc64_rounds (bit_xor crc (b * 2 ^ 56))) (n * 2 ^ 8)
register_step crc b n hc hb hn =
    let e : b * 2 ^ 56 + n ≡ bit_xor (b * 2 ^ 56) n =
      omega (arith, xor_parts 56 b n hn, xor_comm (b * 2 ^ 56) n) in
    let l : bit_xor crc (b * 2 ^ 56) < 2 ^ 64 = xor-lt 64 crc (b * 2 ^ 56) hc (omega arith) in
    rw (e, ← xor_assoc crc (b * 2 ^ 56) n, rounds-xor _ n l (omega arith), rounds-shift n hn)

-- Bytes that go in one by one may as well go in at once.
pub shift_register-at_once :
    (bytes : List ℕ) (crc w : ℕ)
    → All IsByte bytes
    → crc < 2 ^ 64
    → Aligned bytes w
    → shift_register bytes crc ≡ iterate (length bytes) crc64_rounds (bit_xor crc w)
unfolding shift_register iterate
shift_register-at_once [] crc w h hc e = rw e (sym (xor-zero crc))
shift_register-at_once (b ∷ bytes) crc w h hc (n, hn, e, rest) =
    shift_register-at_once bytes _ (n * 2 ^ 8) h.1 (after_byte-lt crc b hc h.0) rest
    ∙ ap (iterate (length bytes) crc64_rounds)
        (sym (ap (λ t. crc64_rounds (bit_xor crc t)) e ∙ register_step crc b n hc h.0 hn))

-- The contributions of the bytes, each by how far it is from the end.
abbrev pub contributions : List ℕ → ℕ
contributions [] = 0
contributions (b ∷ bytes) =
    bit_xor (iterate (suc (length bytes)) crc64_rounds (b * 2 ^ 56)) (contributions bytes)

pub contributions_lem :
    (bytes : List ℕ) (w : ℕ)
    → All IsByte bytes
    → Aligned bytes w
    → iterate (length bytes) crc64_rounds w ≡ contributions bytes
unfolding iterate
contributions_lem [] w h e = e
contributions_lem (b ∷ bytes) w h (n, hn, e, rest) =
    let s : w ≡ bit_xor (b * 2 ^ 56) n =
      omega (arith, xor_parts 56 b n hn, xor_comm (b * 2 ^ 56) n) in
    let hb : b * 2 ^ 56 < 2 ^ 64 = omega arith in
    ap (iterate (suc (length bytes)) crc64_rounds) s
    ∙ times-xor (suc (length bytes)) (b * 2 ^ 56) n hb (omega arith)
    ∙ ap (bit_xor (iterate (suc (length bytes)) crc64_rounds (b * 2 ^ 56))) (
        ap (iterate (length bytes) crc64_rounds) (rounds-shift n hn)
        ∙ contributions_lem bytes (n * 2 ^ 8) h.1 rest)

abbrev pub digits8 : ℕ → List ℕ
digits8 x =
    (x / 2 ^ 56 % 2 ^ 8)
    ∷ (x / 2 ^ 48 % 2 ^ 8)
    ∷ (x / 2 ^ 40 % 2 ^ 8)
    ∷ (x / 2 ^ 32 % 2 ^ 8)
    ∷ (x / 2 ^ 24 % 2 ^ 8)
    ∷ (x / 2 ^ 16 % 2 ^ 8)
    ∷ (x / 2 ^ 8 % 2 ^ 8)
    ∷ (x % 2 ^ 8)
    ∷ []

pub digits8-Aligned : (x : ℕ) → x < 2 ^ 64 → Aligned (digits8 x) x
digits8-Aligned x h = (
  x % 2 ^ 56,
  omega arith,
  omega arith,
  (
    x % 2 ^ 48 * 2 ^ 8,
    omega arith,
    omega arith,
    (
      x % 2 ^ 40 * 2 ^ 16,
      omega arith,
      omega arith,
      (
        x % 2 ^ 32 * 2 ^ 24,
        omega arith,
        omega arith,
        (
          x % 2 ^ 24 * 2 ^ 32,
          omega arith,
          omega arith,
          (
            x % 2 ^ 16 * 2 ^ 40,
            omega arith,
            omega arith,
            (x % 2 ^ 8 * 2 ^ 48, omega arith, omega arith, (0, omega arith, omega arith, refl)),
          ),
        ),
      ),
    ),
  ),
)

-- The eight look-ups are the contributions of the eight bytes.
pub crc64_word-contributions : (x : ℕ) → crc64_word make_crc64_slice8 x ≡ contributions (digits8 x)
unfolding crc64_word
crc64_word-contributions x =
    rw
      (
        entry-iterate 7 (x / 2 ^ 56 % 2 ^ 8) (omega arith) (omega arith),
        entry-iterate 6 (x / 2 ^ 48 % 2 ^ 8) (omega arith) (omega arith),
        entry-iterate 5 (x / 2 ^ 40 % 2 ^ 8) (omega arith) (omega arith),
        entry-iterate 4 (x / 2 ^ 32 % 2 ^ 8) (omega arith) (omega arith),
        entry-iterate 3 (x / 2 ^ 24 % 2 ^ 8) (omega arith) (omega arith),
        entry-iterate 2 (x / 2 ^ 16 % 2 ^ 8) (omega arith) (omega arith),
        entry-iterate 1 (x / 2 ^ 8 % 2 ^ 8) (omega arith) (omega arith),
        entry-iterate 0 (x % 2 ^ 8) (omega arith) (omega arith),
      )
      (simp (xor_assoc, xor-zero))
