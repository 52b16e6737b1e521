-- ===== src/E2e/Profile07/Check.antt =====
-- Profile 07: what `check` makes of what `protect` wrote.
use bsomeip.Common.{
  IsByte, ℕ, suc, ◌+◌, ◌-◌, ◌*◌, ◌/◌, ◌%◌, ◌^◌, ◌≤◌, ◌<◌, bit_or, ◌≡◌, refl, sym, ◌∙◌, arith, List,
  [], ◌∷◌, length, All, All-append, ltb, false, zero, length-set, Bool-cases, inl, inr,
}
use bsomeip.Common.Bits.{or_disjoint, xor-lt}
use bsomeip.Wire.Bytes.{byte}
use bsomeip.Wire.Bytes.Laws.{read_u32_be_lem, length-write_u32_be}
use bsomeip.E2e.Crc64.{crc64}
use bsomeip.E2e.Crc64.Tables.{shift_register-lt}
use bsomeip.E2e.Crc64.Fast.{crc64_fast-shift_register}
use bsomeip.E2e.Result.{counter_result, length-memset}
use bsomeip.E2e.Profile07.{
  Config, header_size, crc_init, write_bytes, write_u64_be, write_fields, read_bytes, read_u64_be,
  protect, check,
}

-- One round of the reading loop.
read_step :
    (n : ℕ) (p : List ℕ) (o v b : ℕ)
    → v < 2 ^ 56
    → IsByte b
    → byte p o ≡ b
    → read_bytes (suc n) p o v ≡ read_bytes n p (o + 1) (v * 2 ^ 8 + b)
unfolding read_bytes
read_step n p o v b h hb e =
    let joined : bit_or (v * 2 ^ 8 % 2 ^ 64) b ≡ v * 2 ^ 8 + b =
      omega (arith, or_disjoint 8 (v * 2 ^ 8 % 2 ^ 64) b v (omega arith) hb) in
    rw (e, joined)

-- Eight bytes as one number.
abbrev number8 : ℕ → ℕ → ℕ → ℕ → ℕ → ℕ → ℕ → ℕ → ℕ
number8 a b c d e f g h =
    ((((((a * 2 ^ 8 + b) * 2 ^ 8 + c) * 2 ^ 8 + d) * 2 ^ 8 + e) * 2 ^ 8 + f) * 2 ^ 8 + g) * 2 ^ 8
    + h

read_u64_be_lem :
    (a b c d e f g h : ℕ)
    → All IsByte (a ∷ b ∷ c ∷ d ∷ e ∷ f ∷ g ∷ h ∷ [])
    → (p : List ℕ) (o : ℕ)
    → (byte p o ≡ a)
      × (byte p (o + 1) ≡ b)
      × (byte p (o + 1 + 1) ≡ c)
      × (byte p (o + 1 + 1 + 1) ≡ d)
      × (byte p (o + 1 + 1 + 1 + 1) ≡ e)
      × (byte p (o + 1 + 1 + 1 + 1 + 1) ≡ f)
      × (byte p (o + 1 + 1 + 1 + 1 + 1 + 1) ≡ g)
      × (byte p (o + 1 + 1 + 1 + 1 + 1 + 1 + 1) ≡ h)
    → read_u64_be p o ≡ number8 a b c d e f g h
unfolding read_u64_be
read_u64_be_lem a b c d e f g h bytes p o (ea, eb, ec, ed, ee, ef, eg, eh) =
    read_step 7 p (o) 0 a (omega arith) (omega arith) ea
    ∙ read_step 6 p (o + 1) _ b (omega arith) (omega arith) eb
    ∙ read_step 5 p (o + 1 + 1) _ c (omega arith) (omega arith) ec
    ∙ read_step 4 p (o + 1 + 1 + 1) _ d (omega arith) (omega arith) ed
    ∙ read_step 3 p (o + 1 + 1 + 1 + 1) _ e (omega arith) (omega arith) ee
    ∙ read_step 2 p (o + 1 + 1 + 1 + 1 + 1) _ f (omega arith) (omega arith) ef
    ∙ read_step 1 p (o + 1 + 1 + 1 + 1 + 1 + 1) _ g (omega arith) (omega arith) eg
    ∙ read_step 0 p (o + 1 + 1 + 1 + 1 + 1 + 1 + 1) _ h (omega arith) (omega arith) eh
    ∙ omega arith

-- `check` on a header of twenty bytes, in plain arithmetic.
check_of_bytes :
    (b0 b1 b2 b3 b4 b5 b6 b7 b8 b9 b10 b11 b12 b13 b14 b15 b16 b17 b18 b19 : ℕ) (rest : List ℕ)
    (cfg : Config) (last : ℕ)
    → All IsByte (
        b0 ∷ b1 ∷ b2 ∷ b3 ∷ b4 ∷ b5 ∷ b6 ∷ b7 ∷ b8 ∷ b9 ∷ b10 ∷ b11 ∷ b12 ∷ b13 ∷ b14 ∷ b15 ∷ b16
        ∷ b17 ∷ b18 ∷ b19 ∷ [])
    → b0 * 2 ^ 24 + b1 * 2 ^ 16 + b2 * 2 ^ 8 + b3 ≡ length rest + 20
    → b8 * 2 ^ 24 + b9 * 2 ^ 16 + b10 * 2 ^ 8 + b11 ≡ cfg.data_id
    → number8 b12 b13 b14 b15 b16 b17 b18 b19
      ≡ crc64
          (b0 ∷ b1 ∷ b2 ∷ b3 ∷ b4 ∷ b5 ∷ b6 ∷ b7 ∷ b8 ∷ b9 ∷ b10 ∷ b11 ∷ 0 ∷ 0 ∷ 0 ∷ 0 ∷ 0 ∷ 0 ∷ 0
            ∷ 0 ∷ rest)
          crc_init
    → check
        (b0 ∷ b1 ∷ b2 ∷ b3 ∷ b4 ∷ b5 ∷ b6 ∷ b7 ∷ b8 ∷ b9 ∷ b10 ∷ b11 ∷ b12 ∷ b13 ∷ b14 ∷ b15 ∷ b16
          ∷ b17 ∷ b18 ∷ b19 ∷ rest)
        cfg
        last
      ≡ (
        counter_result
            ((b4 * 2 ^ 24 + b5 * 2 ^ 16 + b6 * 2 ^ 8 + b7 + 2 ^ 32 - last) % 2 ^ 32)
            cfg.max_delta_counter,
        b4 * 2 ^ 24 + b5 * 2 ^ 16 + b6 * 2 ^ 8 + b7,
      )
unfolding check
check_of_bytes b0 b1 b2 b3 b4 b5 b6 b7 b8 b9 b10 b11 b12 b13 b14 b15 b16 b17 b18 b19 rest cfg last h
      l d k =
    let p =
      b0 ∷ b1 ∷ b2 ∷ b3 ∷ b4 ∷ b5 ∷ b6 ∷ b7 ∷ b8 ∷ b9 ∷ b10 ∷ b11 ∷ b12 ∷ b13 ∷ b14 ∷ b15 ∷ b16
      ∷ b17 ∷ b18 ∷ b19 ∷ rest in
    ground (
      arith,
      read_u32_be_lem p 0 (omega arith) (omega arith) (omega arith),
      read_u32_be_lem p 4 (omega arith) (omega arith) (omega arith),
      read_u32_be_lem p 8 (omega arith) (omega arith) (omega arith),
      read_u64_be_lem b12 b13 b14 b15 b16 b17 b18 b19 (omega arith) p 12
          (refl, refl, refl, refl, refl, refl, refl, refl),
    )

-- The twelve bytes that `protect` writes before the checksum.
abbrev written : ℕ → Config → ℕ → List ℕ → List ℕ
written size cfg counter rest =
    (size / 2 ^ 24 % 2 ^ 8)
    ∷ (size / 2 ^ 16 % 2 ^ 8)
    ∷ (size / 2 ^ 8 % 2 ^ 8)
    ∷ (size % 2 ^ 8)
    ∷ (counter / 2 ^ 24 % 2 ^ 8)
    ∷ (counter / 2 ^ 16 % 2 ^ 8)
    ∷ (counter / 2 ^ 8 % 2 ^ 8)
    ∷ (counter % 2 ^ 8)
    ∷ (cfg.data_id / 2 ^ 24 % 2 ^ 8)
    ∷ (cfg.data_id / 2 ^ 16 % 2 ^ 8)
    ∷ (cfg.data_id / 2 ^ 8 % 2 ^ 8)
    ∷ (cfg.data_id % 2 ^ 8)
    ∷ rest

-- The bytes under the checksum, its own field zeros.
abbrev covered : Config → ℕ → List ℕ → List ℕ
covered cfg counter rest =
    written ((length rest + 20) % 2 ^ 32) cfg counter (0 ∷ 0 ∷ 0 ∷ 0 ∷ 0 ∷ 0 ∷ 0 ∷ 0 ∷ rest)

abbrev checksum : ℕ → List ℕ → List ℕ
checksum crc rest =
    (crc / 2 ^ 56 % 2 ^ 8)
    ∷ (crc / 2 ^ 48 % 2 ^ 8)
    ∷ (crc / 2 ^ 40 % 2 ^ 8)
    ∷ (crc / 2 ^ 32 % 2 ^ 8)
    ∷ (crc / 2 ^ 24 % 2 ^ 8)
    ∷ (crc / 2 ^ 16 % 2 ^ 8)
    ∷ (crc / 2 ^ 8 % 2 ^ 8)
    ∷ (crc % 2 ^ 8)
    ∷ rest

-- `protect` keeps the data behind the header and writes the four fields.
protect_lem :
    (b0 b1 b2 b3 b4 b5 b6 b7 b8 b9 b10 b11 b12 b13 b14 b15 b16 b17 b18 b19 : ℕ) (rest : List ℕ)
    (cfg : Config) (counter crc : ℕ)
    → crc ≡ crc64 (covered cfg counter rest) crc_init
    → protect
        (b0 ∷ b1 ∷ b2 ∷ b3 ∷ b4 ∷ b5 ∷ b6 ∷ b7 ∷ b8 ∷ b9 ∷ b10 ∷ b11 ∷ b12 ∷ b13 ∷ b14 ∷ b15 ∷ b16
          ∷ b17 ∷ b18 ∷ b19 ∷ rest)
        cfg
        counter
      ≡ written ((length rest + 20) % 2 ^ 32) cfg counter (checksum crc rest)
unfolding protect
protect_lem b0 b1 b2 b3 b4 b5 b6 b7 b8 b9 b10 b11 b12 b13 b14 b15 b16 b17 b18 b19 rest cfg counter
      crc e =
    let p =
      b0 ∷ b1 ∷ b2 ∷ b3 ∷ b4 ∷ b5 ∷ b6 ∷ b7 ∷ b8 ∷ b9 ∷ b10 ∷ b11 ∷ b12 ∷ b13 ∷ b14 ∷ b15 ∷ b16
      ∷ b17 ∷ b18 ∷ b19 ∷ rest in
    let long : ltb (length p) header_size ≡ false = ground arith in
    let size : length p % 2 ^ 32 ≡ (length rest + 20) % 2 ^ 32 = omega arith in
    let last_byte : crc / 1 % 2 ^ 8 ≡ crc % 2 ^ 8 = omega arith in rw (long, size, sym e, last_byte)

covered-IsByte :
    (cfg : Config) (counter : ℕ) (rest : List ℕ)
    → All IsByte rest
    → All IsByte (covered cfg counter rest)
covered-IsByte cfg counter rest h =
    All-append IsByte
      (written ((length rest + 20) % 2 ^ 32) cfg counter (0 ∷ 0 ∷ 0 ∷ 0 ∷ 0 ∷ 0 ∷ 0 ∷ 0 ∷ [])) rest
      (omega arith) h

crc64-lt : (bytes : List ℕ) → All IsByte bytes → crc64 bytes crc_init < 2 ^ 64
unfolding crc64
crc64-lt bytes h =
    rw (crc64_fast-shift_register bytes crc_init h (omega arith))
      (xor-lt 64 _ _ (shift_register-lt bytes crc_init h (omega arith)) (omega arith))

length-write_bytes : (n : ℕ) (p : List ℕ) (o v : ℕ) → length (write_bytes n p o v) ≡ length p
unfolding write_bytes
length-write_bytes zero p o v = refl
length-write_bytes (suc i) p o v = length-write_bytes i _ o v ∙ length-set p _ _

pub length-protect :
    (payload : List ℕ) (cfg : Config) (counter : ℕ)
    → length (protect payload cfg counter) ≡ length payload
unfolding protect write_fields write_u64_be
length-protect payload cfg counter = elim (Bool-cases (ltb (length payload) header_size)) [
  | inl t ↦ rw t
  | inr t ↦ rw t (
      length-write_bytes 8 _ 12 _
      ∙ length-memset _ 12 8
      ∙ length-write_u32_be _ 8 _
      ∙ length-write_u32_be _ 4 _
      ∙ length-write_u32_be payload 0 _)
]

number8_digits :
    (crc : ℕ)
    → crc < 2 ^ 64
    → number8
        (crc / 2 ^ 56 % 2 ^ 8)
        (crc / 2 ^ 48 % 2 ^ 8)
        (crc / 2 ^ 40 % 2 ^ 8)
        (crc / 2 ^ 32 % 2 ^ 8)
        (crc / 2 ^ 24 % 2 ^ 8)
        (crc / 2 ^ 16 % 2 ^ 8)
        (crc / 2 ^ 8 % 2 ^ 8)
        (crc % 2 ^ 8)
      ≡ crc
number8_digits crc h = omega arith

-- `check` on the header that `protect` writes over a body with the checksum `crc`.
check_data :
    (cfg : Config) (counter last crc : ℕ) (body : List ℕ)
    → counter < 2 ^ 32
    → cfg.data_id < 2 ^ 32
    → length body + 20 < 2 ^ 32
    → crc < 2 ^ 64
    → crc ≡ crc64 (covered cfg counter body) crc_init
    → check (written ((length body + 20) % 2 ^ 32) cfg counter (checksum crc body)) cfg last
      ≡ (counter_result ((counter + 2 ^ 32 - last) % 2 ^ 32) cfg.max_delta_counter, counter)
check_data cfg counter last crc body hc hd hl hk e =
    let back : counter / 2 ^ 24 % 2 ^ 8 * 2 ^ 24
          + counter / 2 ^ 16 % 2 ^ 8 * 2 ^ 16
          + counter / 2 ^ 8 % 2 ^ 8 * 2 ^ 8
          + counter % 2 ^ 8
        ≡ counter =
      omega arith in
    check_of_bytes _ _ _ _ _ _ _ _ _ _ _ _ _ _ _ _ _ _ _ _ body cfg last (omega arith) (omega arith)
      (omega arith) (number8_digits crc hk ∙ e)
    ∙ rw back

-- What `protect` wrote passes the check, whatever the payload, as long as it fits the 32-bit length:
-- the verdict is that of the counters alone, and the counter received becomes the last one.
pub check-protect_07 :
    (payload : List ℕ) (cfg : Config) (counter last : ℕ)
    → All IsByte payload
    → 20 ≤ length payload
    → length payload < 2 ^ 32
    → counter < 2 ^ 32
    → cfg.data_id < 2 ^ 32
    → check (protect payload cfg counter) cfg last
      ≡ (counter_result ((counter + 2 ^ 32 - last) % 2 ^ 32) cfg.max_delta_counter, counter)
check-protect_07
      (b0 ∷ b1 ∷ b2 ∷ b3 ∷ b4 ∷ b5 ∷ b6 ∷ b7 ∷ b8 ∷ b9 ∷ b10 ∷ b11 ∷ b12 ∷ b13 ∷ b14 ∷ b15 ∷ b16
        ∷ b17 ∷ b18 ∷ b19 ∷ rest)
      cfg counter last h long short hc hd =
    let bytes : All IsByte rest = h.1.1.1.1.1.1.1.1.1.1.1.1.1.1.1.1.1.1.1.1 in
    rw
      (protect_lem b0 b1 b2 b3 b4 b5 b6 b7 b8 b9 b10 b11 b12 b13 b14 b15 b16 b17 b18 b19 rest cfg
        counter _ refl)
      (check_data cfg counter last _ rest hc hd (omega arith)
        (crc64-lt _ (covered-IsByte cfg counter rest bytes)) refl)
check-protect_07 _ cfg counter last h long short hc hd = absurd (omega arith)
