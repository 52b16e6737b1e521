-- ===== src/E2e/Crc32/Slicing.antt =====
-- `crc32_fast` (slicing by 8) against the byte-at-a-time loop and the shift register.
use bsomeip.Common.{
  IsByte, ℕ, zero, suc, ◌+◌, ◌*◌, ◌/◌, ◌%◌, ◌^◌, ◌<◌, bit_xor, ◌≡◌, refl, sym, ap, ◌∙◌, arith,
  iterate, List, [], ◌∷◌, length, All,
}
use bsomeip.Common.Bits.{
  and-byte, xor_comm, xor_assoc, xor-lt, xor_fields, xor_parts, xor-zero, zero-xor,
}
use bsomeip.E2e.Crc32.{
  crc32_entry, make_crc32_slice8, crc32_words, crc32_fast_loop, crc32_fast, crc32_consteval,
  crc32_ethernet, read_u32_le,
}
use bsomeip.E2e.Crc32.Linear.{entry-xor, entry-shift, entry_low}
use bsomeip.E2e.Crc32.Tables.{
  shift_register, shift_register-lt, entry-iterate, crc32_bytes-shift_register,
}

rounds-xor :
    (k a b : ℕ)
    → iterate k crc32_entry (bit_xor a b)
      ≡ bit_xor (iterate k crc32_entry a) (iterate k crc32_entry b)
unfolding iterate
rounds-xor zero a b = refl
rounds-xor (suc k) a b =
    ap (iterate k crc32_entry) (entry-xor a b) ∙ rounds-xor k (crc32_entry a) (crc32_entry b)

-- Bytes as one number, the first lowest.
abbrev pub little_endian : List ℕ → ℕ
little_endian [] = 0
little_endian (b ∷ bytes) = b + little_endian bytes * 2 ^ 8

register_step :
    (crc b n : ℕ)
    → IsByte b
    → crc32_entry (bit_xor crc (b + n * 2 ^ 8)) ≡ bit_xor (crc32_entry (bit_xor crc b)) n
register_step crc b n h =
    let e : b + n * 2 ^ 8 ≡ bit_xor b (n * 2 ^ 8) = omega (arith, xor_parts 8 n b h) in
    rw (e, ← xor_assoc crc b (n * 2 ^ 8), entry-xor (bit_xor crc b) (n * 2 ^ 8), entry-shift n)

-- Bytes that go in one by one may as well go in at once.
pub shift_register-at_once :
    (bytes : List ℕ) (crc : ℕ)
    → All IsByte bytes
    → shift_register bytes crc
      ≡ iterate (length bytes) crc32_entry (bit_xor crc (little_endian bytes))
unfolding shift_register iterate
shift_register-at_once [] crc h = sym (xor-zero crc)
shift_register-at_once (b ∷ bytes) crc h =
    shift_register-at_once bytes _ h.1
    ∙ ap (iterate (length bytes) crc32_entry) (sym (register_step crc b (little_endian bytes) h.0))

-- The contributions of the bytes, each by how far it is from the end.
abbrev contributions : List ℕ → ℕ
contributions [] = 0
contributions (b ∷ bytes) =
    bit_xor (iterate (suc (length bytes)) crc32_entry b) (contributions bytes)

contributions_lem :
    (bytes : List ℕ)
    → All IsByte bytes
    → iterate (length bytes) crc32_entry (little_endian bytes) ≡ contributions bytes
unfolding iterate
contributions_lem [] h = refl
contributions_lem (b ∷ bytes) h =
    let low : (b + little_endian bytes * 2 ^ 8) % 2 ^ 8 ≡ b = omega arith in
    let high : (b + little_endian bytes * 2 ^ 8) / 2 ^ 8 ≡ little_endian bytes = omega arith in
    ap (iterate (length bytes) crc32_entry) (entry_low (b + little_endian bytes * 2 ^ 8))
    ∙ rw (low, high) (rounds-xor (length bytes) (crc32_entry b) (little_endian bytes))
    ∙ ap (bit_xor _) (contributions_lem bytes h.1)

abbrev word_bytes : ℕ → List ℕ → List ℕ
word_bytes a rest = (a % 2 ^ 8) ∷ (a / 2 ^ 8 % 2 ^ 8) ∷ (a / 2 ^ 16 % 2 ^ 8) ∷ (a / 2 ^ 24) ∷ rest

-- The eight look-ups are the contributions of the eight bytes.
crc32_words-contributions :
    (a b : ℕ)
    → a < 2 ^ 32
    → b < 2 ^ 32
    → crc32_words make_crc32_slice8 a b ≡ contributions (word_bytes a (word_bytes b []))
unfolding crc32_words
crc32_words-contributions a b ha hb =
    rw
      (
        and-byte a,
        and-byte (a / 2 ^ 8),
        and-byte (a / 2 ^ 16),
        and-byte b,
        and-byte (b / 2 ^ 8),
        and-byte (b / 2 ^ 16),
      )
      (rw
        (
          entry-iterate 7 (a % 2 ^ 8) (omega arith) (omega arith),
          entry-iterate 6 (a / 2 ^ 8 % 2 ^ 8) (omega arith) (omega arith),
          entry-iterate 5 (a / 2 ^ 16 % 2 ^ 8) (omega arith) (omega arith),
          entry-iterate 4 (a / 2 ^ 24) (omega arith) (omega arith),
          entry-iterate 3 (b % 2 ^ 8) (omega arith) (omega arith),
          entry-iterate 2 (b / 2 ^ 8 % 2 ^ 8) (omega arith) (omega arith),
          entry-iterate 1 (b / 2 ^ 16 % 2 ^ 8) (omega arith) (omega arith),
          entry-iterate 0 (b / 2 ^ 24) (omega arith) (omega arith),
        )
        (simp (xor_assoc, xor-zero)))

abbrev Bytes8 : (p0 p1 p2 p3 p4 p5 p6 p7 : ℕ) → Type 0
Bytes8 p0 p1 p2 p3 p4 p5 p6 p7 = All IsByte (p0 ∷ p1 ∷ p2 ∷ p3 ∷ p4 ∷ p5 ∷ p6 ∷ p7 ∷ [])

-- One round of the loop on eight bytes is eight rounds of the loop on one.
crc32_words-shift_register :
    (p0 p1 p2 p3 p4 p5 p6 p7 crc : ℕ)
    → Bytes8 p0 p1 p2 p3 p4 p5 p6 p7
    → crc < 2 ^ 32
    → crc32_words make_crc32_slice8
        (bit_xor (read_u32_le p0 p1 p2 p3) crc)
        (read_u32_le p4 p5 p6 p7)
      ≡ shift_register (p0 ∷ p1 ∷ p2 ∷ p3 ∷ p4 ∷ p5 ∷ p6 ∷ p7 ∷ []) crc
crc32_words-shift_register p0 p1 p2 p3 p4 p5 p6 p7 crc h hc =
    let lo : ℕ = read_u32_le p0 p1 p2 p3 in
    let hi : ℕ = read_u32_le p4 p5 p6 p7 in
    let a : ℕ = bit_xor lo crc in
    let hlo : lo < 2 ^ 32 = omega arith in
    let hhi : hi < 2 ^ 32 = omega arith in
    let ha : a < 2 ^ 32 = xor-lt 32 lo crc hlo hc in
    let bytes : List ℕ = p0 ∷ p1 ∷ p2 ∷ p3 ∷ p4 ∷ p5 ∷ p6 ∷ p7 ∷ [] in
    let whole : little_endian (word_bytes a (word_bytes hi [])) ≡ hi * 2 ^ 32 + a = omega arith in
    let given : little_endian bytes ≡ hi * 2 ^ 32 + lo = omega arith in
    let split : bit_xor crc (hi * 2 ^ 32 + lo) ≡ hi * 2 ^ 32 + a =
      ap (λ t. bit_xor t (hi * 2 ^ 32 + lo)) {x = crc} {y = 0 * 2 ^ 32 + crc} (omega arith)
      ∙ xor_fields 32 0 hi crc lo hc hlo
      ∙ rw (zero-xor hi, xor_comm crc lo) in
    crc32_words-contributions a hi ha hhi
    ∙ sym (contributions_lem (word_bytes a (word_bytes hi [])) (omega arith))
    ∙ ap (iterate 8 crc32_entry) (whole ∙ sym split ∙ ap (bit_xor crc) (sym given))
    ∙ sym (shift_register-at_once bytes crc h)

crc32_fast_loop-shift_register :
    (bytes : List ℕ) (crc : ℕ)
    → All IsByte bytes
    → crc < 2 ^ 32
    → crc32_fast_loop make_crc32_slice8 bytes crc ≡ shift_register bytes crc
unfolding crc32_fast_loop shift_register make_crc32_slice8
crc32_fast_loop-shift_register (p0 ∷ p1 ∷ p2 ∷ p3 ∷ p4 ∷ p5 ∷ p6 ∷ p7 ∷ rest) crc
      (h0, (h1, (h2, (h3, (h4, (h5, (h6, (h7, h)))))))) hc =
    let block = p0 ∷ p1 ∷ p2 ∷ p3 ∷ p4 ∷ p5 ∷ p6 ∷ p7 ∷ [] in
    let good : All IsByte block = (h0, (h1, (h2, (h3, (h4, (h5, (h6, (h7, tt)))))))) in
    ap (crc32_fast_loop make_crc32_slice8 rest)
      (crc32_words-shift_register p0 p1 p2 p3 p4 p5 p6 p7 crc good hc)
    ∙ crc32_fast_loop-shift_register rest (shift_register block crc) h
        (shift_register-lt block crc good hc)
crc32_fast_loop-shift_register rest crc h hc = crc32_bytes-shift_register rest crc h

-- Slicing by eight computes the checksum that the shift register defines, on every byte string
-- and from every 32-bit start value.
pub crc32_fast-shift_register :
    (bytes : List ℕ) (crc : ℕ)
    → All IsByte bytes
    → crc < 2 ^ 32
    → crc32_fast bytes crc ≡ bit_xor (shift_register bytes crc) 0xFFFFFFFF
unfolding crc32_fast
crc32_fast-shift_register bytes crc h hc =
    ap (λ t. bit_xor t 0xFFFFFFFF) (crc32_fast_loop-shift_register bytes crc h hc)

-- The run-time branch of `crc32_ethernet` (slicing by eight) and its compile-time branch (one
-- byte at a time) agree on every byte string and from every 32-bit start value.
pub crc32_ethernet-consteval :
    (bytes : List ℕ) (init : ℕ)
    → All IsByte bytes
    → init < 2 ^ 32
    → crc32_ethernet bytes init ≡ crc32_consteval bytes init
unfolding crc32_ethernet crc32_consteval
crc32_ethernet-consteval bytes init h hi =
    crc32_fast-shift_register bytes init h hi
    ∙ ap (λ t. bit_xor t 0xFFFFFFFF) (sym (crc32_bytes-shift_register bytes init h))

pub crc32_ethernet-lt :
    (bytes : List ℕ) (init : ℕ)
    → All IsByte bytes
    → init < 2 ^ 32
    → crc32_ethernet bytes init < 2 ^ 32
unfolding crc32_ethernet
crc32_ethernet-lt bytes init h hi =
    rw (crc32_fast-shift_register bytes init h hi)
      (xor-lt 32 _ 0xFFFFFFFF (shift_register-lt bytes init h hi) (omega arith))
