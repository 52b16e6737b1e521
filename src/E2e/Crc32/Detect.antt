-- ===== src/E2e/Crc32/Detect.antt =====
-- CRC-32 as a register that never forgets: a burst of at most four bytes shows.
use bsomeip.Common.{
  ◌≢◌, IsByte, ℕ, zero, suc, ◌+◌, ◌-◌, ◌*◌, ◌/◌, ◌%◌, ◌^◌, ◌≤◌, ◌<◌, bit_xor, ◌≡◌, refl, sym, ap,
  ◌∙◌, arith, iterate, List, [], ◌∷◌, ◌++◌, length, All, All-append, ltb, if◌then◌else◌, inl, inr,
}
use bsomeip.Common.Bits.{xor_injective, xor_comm, xor-lt, xor_cancel, xor_fields, xor-zero}
use bsomeip.E2e.Crc32.{crc32_poly, crc32_bit, crc32_entry, crc32_ethernet}
use bsomeip.E2e.Crc32.Linear.{crc32_bit_lem, crc32_bit-lt, entry-lt, Bit-cases}
use bsomeip.E2e.Crc32.Tables.{shift_register, shift_register-lt}
use bsomeip.E2e.Crc32.Slicing.{shift_register-at_once, little_endian, crc32_fast-shift_register}

-- The round backwards: the polynomial has its top bit set, so that bit tells which way it went.
uncrc32_bit : ℕ → ℕ
uncrc32_bit d = if ltb d (2 ^ 31) then d * 2 else bit_xor d crc32_poly * 2 + 1

xor-poly-high : (a : ℕ) → a < 2 ^ 31 → 2 ^ 31 ≤ bit_xor a crc32_poly
xor-poly-high a h = omega (
  arith,
  ap (λ t. bit_xor t crc32_poly) {x = a} {y = 0 * 2 ^ 31 + a} (omega arith)
      ∙ xor_fields 31 0 1 a (crc32_poly - 2 ^ 31) h (omega arith),
)

uncrc32-crc32 : (c : ℕ) → c < 2 ^ 32 → uncrc32_bit (crc32_bit c) ≡ c
unfolding uncrc32_bit
uncrc32-crc32 c h = elim (Bit-cases (c % 2) (omega arith)) [
  | inl e ↦ rw (crc32_bit_lem c, e, xor-zero (c / 2)) (ground arith)
  | inr e ↦
      rw (crc32_bit_lem c, e)
        (ground (
          arith,
          xor-poly-high (c / 2) (omega arith),
          xor_comm (c / 2) crc32_poly,
          xor_comm (bit_xor crc32_poly (c / 2)) crc32_poly,
          xor_cancel crc32_poly (c / 2),
        ))
]

crc32_bit-injective : (c d : ℕ) → c < 2 ^ 32 → d < 2 ^ 32 → crc32_bit c ≡ crc32_bit d → c ≡ d
crc32_bit-injective c d hc hd e = sym (uncrc32-crc32 c hc) ∙ ap uncrc32_bit e ∙ uncrc32-crc32 d hd

bits-injective :
    (n c d : ℕ) → c < 2 ^ 32 → d < 2 ^ 32 → iterate n crc32_bit c ≡ iterate n crc32_bit d → c ≡ d
unfolding iterate
bits-injective zero c d hc hd e = e
bits-injective (suc n) c d hc hd e =
    crc32_bit-injective c d hc hd
      (bits-injective n (crc32_bit c) (crc32_bit d) (crc32_bit-lt c hc) (crc32_bit-lt d hd) e)

entry-injective : (c d : ℕ) → c < 2 ^ 32 → d < 2 ^ 32 → crc32_entry c ≡ crc32_entry d → c ≡ d
unfolding crc32_entry
entry-injective c d hc hd e = bits-injective 8 c d hc hd e

entries-injective :
    (n c d : ℕ)
    → c < 2 ^ 32
    → d < 2 ^ 32
    → iterate n crc32_entry c ≡ iterate n crc32_entry d
    → c ≡ d
unfolding iterate
entries-injective zero c d hc hd e = e
entries-injective (suc n) c d hc hd e =
    entry-injective c d hc hd
      (entries-injective n (crc32_entry c) (crc32_entry d) (entry-lt c hc) (entry-lt d hd) e)

-- Different registers stay different whatever bytes follow.
shift_register-injective :
    (bytes : List ℕ) (c d : ℕ)
    → All IsByte bytes
    → c < 2 ^ 32
    → d < 2 ^ 32
    → shift_register bytes c ≡ shift_register bytes d
    → c ≡ d
unfolding shift_register
shift_register-injective [] c d h hc hd e = e
shift_register-injective (b ∷ bytes) c d h hc hd e =
    let hb : b < 2 ^ 32 = omega arith in
    let u = xor-lt 32 c b hc hb in
    let v = xor-lt 32 d b hd hb in
    xor_injective b c d (
      xor_comm b c
      ∙ entry-injective _ _ u v
          (shift_register-injective bytes _ _ h.1 (entry-lt _ u) (entry-lt _ v) e)
      ∙ xor_comm d b)

little_endian-injective :
    (xs ys : List ℕ)
    → All IsByte xs
    → All IsByte ys
    → length xs ≡ length ys
    → little_endian xs ≡ little_endian ys
    → xs ≡ ys
little_endian-injective [] [] hx hy l e = refl
little_endian-injective [] (y ∷ ys) hx hy l e = absurd (omega arith)
little_endian-injective (x ∷ xs) [] hx hy l e = absurd (omega arith)
little_endian-injective (x ∷ xs) (y ∷ ys) hx hy l e =
    let head : x ≡ y = omega arith in
    let tail = little_endian-injective xs ys hx.1 hy.1 (omega arith) (omega arith) in
    rw (head, tail)

little_endian-lt : (xs : List ℕ) → All IsByte xs → length xs ≤ 4 → little_endian xs < 2 ^ 32
little_endian-lt [] h l = omega arith
little_endian-lt (a ∷ []) h l = omega arith
little_endian-lt (a ∷ b ∷ []) h l = omega arith
little_endian-lt (a ∷ b ∷ c ∷ []) h l = omega arith
little_endian-lt (a ∷ b ∷ c ∷ d ∷ []) h l = omega arith
little_endian-lt (a ∷ b ∷ c ∷ d ∷ e ∷ xs) h l = absurd (omega arith)

shift_register-append :
    (xs ys : List ℕ) (crc : ℕ)
    → shift_register (xs ++ ys) crc ≡ shift_register ys (shift_register xs crc)
unfolding shift_register
shift_register-append [] ys crc = refl
shift_register-append (x ∷ xs) ys crc = shift_register-append xs ys (crc32_entry (bit_xor crc x))

burst_register :
    (xs ys : List ℕ) (crc : ℕ)
    → All IsByte xs
    → All IsByte ys
    → length xs ≡ length ys
    → length xs ≤ 4
    → crc < 2 ^ 32
    → shift_register xs crc ≡ shift_register ys crc
    → xs ≡ ys
burst_register xs ys crc hx hy l four hc e =
    let nx = little_endian-lt xs hx four in
    let ny = little_endian-lt ys hy (omega arith) in
    let together =
      sym (shift_register-at_once xs crc hx)
      ∙ e
      ∙ shift_register-at_once ys crc hy
      ∙ ap (λ n. iterate n crc32_entry (bit_xor crc (little_endian ys))) (sym l) in
    little_endian-injective xs ys hx hy l (
      xor_injective crc _ _ (
        entries-injective (length xs) _ _ (xor-lt 32 crc _ hc nx) (xor-lt 32 crc _ hc ny) together))

-- Two byte strings of one length that differ only inside four neighbouring bytes have different
-- checksums.
pub crc32_burst :
    (front xs ys back : List ℕ) (init : ℕ)
    → All IsByte front
    → All IsByte xs
    → All IsByte ys
    → All IsByte back
    → init < 2 ^ 32
    → length xs ≡ length ys
    → length xs ≤ 4
    → shift_register (front ++ (xs ++ back)) init ≡ shift_register (front ++ (ys ++ back)) init
    → xs ≡ ys
crc32_burst front xs ys back init hf hx hy hb hi l four e =
    let c = shift_register front init in
    let hc = shift_register-lt front init hf hi in
    let split = λ (zs : List ℕ).
      shift_register-append front (zs ++ back) init ∙ shift_register-append zs back c in
    burst_register xs ys c hx hy l four hc (
      shift_register-injective back _ _ hb (shift_register-lt xs c hx hc)
        (shift_register-lt ys c hy hc) (sym (split xs) ∙ e ∙ split ys))

pub crc32_ethernet-injective :
    (front xs ys back : List ℕ) (init : ℕ)
    → All IsByte front
    → All IsByte xs
    → All IsByte ys
    → All IsByte back
    → init < 2 ^ 32
    → length xs ≡ length ys
    → length xs ≤ 4
    → crc32_ethernet (front ++ (xs ++ back)) init ≡ crc32_ethernet (front ++ (ys ++ back)) init
    → xs ≡ ys
unfolding crc32_ethernet
crc32_ethernet-injective front xs ys back init hf hx hy hb hi l four e =
    let bytes = λ (zs : List ℕ) (hz : All IsByte zs).
      All-append IsByte front (zs ++ back) hf (All-append IsByte zs back hz hb) in
    let sum = λ (zs : List ℕ) (hz : All IsByte zs).
      xor_comm 0xFFFFFFFF (shift_register (front ++ (zs ++ back)) init)
      ∙ sym (crc32_fast-shift_register (front ++ (zs ++ back)) init (bytes zs hz) hi) in
    crc32_burst front xs ys back init hf hx hy hb hi l four
      (xor_injective 0xFFFFFFFF _ _ (sum xs hx ∙ e ∙ sym (sum ys hy)))

-- Changing up to four neighbouring bytes of a byte string always changes its checksum.
pub crc32_ethernet_burst :
    (front xs ys back : List ℕ) (init : ℕ)
    → All IsByte front
    → All IsByte xs
    → All IsByte ys
    → All IsByte back
    → init < 2 ^ 32
    → length xs ≡ length ys
    → length xs ≤ 4
    → xs ≢ ys
    → crc32_ethernet (front ++ (xs ++ back)) init ≢ crc32_ethernet (front ++ (ys ++ back)) init
crc32_ethernet_burst front xs ys back init hf hx hy hb hi l four ne e =
    ne (crc32_ethernet-injective front xs ys back init hf hx hy hb hi l four e)
