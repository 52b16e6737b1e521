-- ===== src/E2e/Profile04/Check.antt =====
-- Profile 04: what `check` makes of what `protect` wrote.
use bsomeip.Common.{
  IsByte, ℕ, ◌+◌, ◌-◌, ◌*◌, ◌/◌, ◌%◌, ◌^◌, ◌≤◌, ◌<◌, ◌≡◌, refl, ◌∙◌, arith, List, [], ◌∷◌, length,
  All, All-append, ltb, false,
}
use bsomeip.Wire.Bytes.Laws.{read_u16_be_lem, read_u32_be_lem}
use bsomeip.E2e.Crc32.{crc32_ethernet}
use bsomeip.E2e.Crc32.Slicing.{crc32_ethernet-lt}
use bsomeip.E2e.Result.{counter_result}
use bsomeip.E2e.Profile04.{Config, header_size, crc_init, protect, check}

-- `check` on a header of twelve bytes, in plain arithmetic.
check_of_bytes :
    (b0 b1 b2 b3 b4 b5 b6 b7 b8 b9 b10 b11 : ℕ) (rest : List ℕ) (cfg : Config) (last : ℕ)
    → All IsByte (b0 ∷ b1 ∷ b2 ∷ b3 ∷ b4 ∷ b5 ∷ b6 ∷ b7 ∷ b8 ∷ b9 ∷ b10 ∷ b11 ∷ [])
    → b0 * 2 ^ 8 + b1 ≡ length rest + 12
    → b4 * 2 ^ 24 + b5 * 2 ^ 16 + b6 * 2 ^ 8 + b7 ≡ cfg.data_id
    → b8 * 2 ^ 24 + b9 * 2 ^ 16 + b10 * 2 ^ 8 + b11
      ≡ crc32_ethernet (b0 ∷ b1 ∷ b2 ∷ b3 ∷ b4 ∷ b5 ∷ b6 ∷ b7 ∷ 0 ∷ 0 ∷ 0 ∷ 0 ∷ rest) crc_init
    → check (b0 ∷ b1 ∷ b2 ∷ b3 ∷ b4 ∷ b5 ∷ b6 ∷ b7 ∷ b8 ∷ b9 ∷ b10 ∷ b11 ∷ rest) cfg last ≡ (
      counter_result ((b2 * 2 ^ 8 + b3 + 2 ^ 16 - last) % 2 ^ 16) cfg.max_delta_counter,
      b2 * 2 ^ 8 + b3,
    )
unfolding check
check_of_bytes b0 b1 b2 b3 b4 b5 b6 b7 b8 b9 b10 b11 rest cfg last h l d c =
    let p = b0 ∷ b1 ∷ b2 ∷ b3 ∷ b4 ∷ b5 ∷ b6 ∷ b7 ∷ b8 ∷ b9 ∷ b10 ∷ b11 ∷ rest in
    ground (
      arith,
      read_u16_be_lem p 0 (omega arith) (omega arith),
      read_u16_be_lem p 2 (omega arith) (omega arith),
      read_u32_be_lem p 4 (omega arith) (omega arith) (omega arith),
      read_u32_be_lem p 8 (omega arith) (omega arith) (omega arith),
    )

-- The eight bytes that `protect` writes before the checksum.
abbrev pub written : ℕ → Config → ℕ → List ℕ → List ℕ
written size cfg counter rest =
    (size / 2 ^ 8 % 2 ^ 8)
    ∷ (size % 2 ^ 8)
    ∷ (counter / 2 ^ 8 % 2 ^ 8)
    ∷ (counter % 2 ^ 8)
    ∷ (cfg.data_id / 2 ^ 24 % 2 ^ 8)
    ∷ (cfg.data_id / 2 ^ 16 % 2 ^ 8)
    ∷ (cfg.data_id / 2 ^ 8 % 2 ^ 8)
    ∷ (cfg.data_id % 2 ^ 8)
    ∷ rest

-- The bytes under the checksum, its own field zeros.
abbrev pub covered : Config → ℕ → List ℕ → List ℕ
covered cfg counter rest = written ((length rest + 12) % 2 ^ 16) cfg counter (0 ∷ 0 ∷ 0 ∷ 0 ∷ rest)

-- `protect` keeps the data behind the header and writes the four fields.
pub protect_lem :
    (p0 p1 p2 p3 p4 p5 p6 p7 p8 p9 p10 p11 : ℕ) (rest : List ℕ) (cfg : Config) (counter crc : ℕ)
    → crc ≡ crc32_ethernet (covered cfg counter rest) crc_init
    → protect (p0 ∷ p1 ∷ p2 ∷ p3 ∷ p4 ∷ p5 ∷ p6 ∷ p7 ∷ p8 ∷ p9 ∷ p10 ∷ p11 ∷ rest) cfg counter
      ≡ written ((length rest + 12) % 2 ^ 16) cfg counter (
          (crc / 2 ^ 24 % 2 ^ 8)
          ∷ (crc / 2 ^ 16 % 2 ^ 8)
          ∷ (crc / 2 ^ 8 % 2 ^ 8)
          ∷ (crc % 2 ^ 8)
          ∷ rest)
unfolding protect
protect_lem p0 p1 p2 p3 p4 p5 p6 p7 p8 p9 p10 p11 rest cfg counter crc e =
    let p = p0 ∷ p1 ∷ p2 ∷ p3 ∷ p4 ∷ p5 ∷ p6 ∷ p7 ∷ p8 ∷ p9 ∷ p10 ∷ p11 ∷ rest in
    let long : ltb (length p) header_size ≡ false = ground arith in
    let size : length p % 2 ^ 16 ≡ (length rest + 12) % 2 ^ 16 = omega arith in rw (e, long, size)

pub covered-IsByte :
    (cfg : Config) (counter : ℕ) (rest : List ℕ)
    → All IsByte rest
    → All IsByte (covered cfg counter rest)
covered-IsByte cfg counter rest h =
    All-append IsByte (written ((length rest + 12) % 2 ^ 16) cfg counter (0 ∷ 0 ∷ 0 ∷ 0 ∷ [])) rest
      (omega arith) h

-- `check` on the header that `protect` writes over a body with the checksum `crc`.
check_data :
    (cfg : Config) (counter last crc : ℕ) (body : List ℕ)
    → counter < 2 ^ 16
    → cfg.data_id < 2 ^ 32
    → length body + 12 < 2 ^ 16
    → crc < 2 ^ 32
    → crc ≡ crc32_ethernet (covered cfg counter body) crc_init
    → check
        (written ((length body + 12) % 2 ^ 16) cfg counter (
          (crc / 2 ^ 24 % 2 ^ 8)
          ∷ (crc / 2 ^ 16 % 2 ^ 8)
          ∷ (crc / 2 ^ 8 % 2 ^ 8)
          ∷ (crc % 2 ^ 8)
          ∷ body))
        cfg
        last
      ≡ (counter_result ((counter + 2 ^ 16 - last) % 2 ^ 16) cfg.max_delta_counter, counter)
check_data cfg counter last crc body hc hd hl hk e =
    let back : counter / 2 ^ 8 % 2 ^ 8 * 2 ^ 8 + counter % 2 ^ 8 ≡ counter = omega arith in
    check_of_bytes _ _ _ _ _ _ _ _ _ _ _ _ body cfg last (omega arith) (omega arith) (omega arith)
      (omega arith)
    ∙ rw back

-- What `protect` wrote passes the check, whatever the payload, as long as it fits the 16-bit length:
-- the verdict is that of the counters alone, and the counter received becomes the last one.
pub check-protect_04 :
    (payload : List ℕ) (cfg : Config) (counter last : ℕ)
    → All IsByte payload
    → 12 ≤ length payload
    → length payload < 2 ^ 16
    → counter < 2 ^ 16
    → cfg.data_id < 2 ^ 32
    → check (protect payload cfg counter) cfg last
      ≡ (counter_result ((counter + 2 ^ 16 - last) % 2 ^ 16) cfg.max_delta_counter, counter)
check-protect_04 (p0 ∷ p1 ∷ p2 ∷ p3 ∷ p4 ∷ p5 ∷ p6 ∷ p7 ∷ p8 ∷ p9 ∷ p10 ∷ p11 ∷ rest) cfg counter
      last (h0, (h1, (h2, (h3, (h4, (h5, (h6, (h7, (h8, (h9, (h10, (h11, h)))))))))))) long short hc
      hd =
    rw (protect_lem p0 p1 p2 p3 p4 p5 p6 p7 p8 p9 p10 p11 rest cfg counter _ refl) (
      check_data cfg counter last _ rest hc hd (omega arith)
        (crc32_ethernet-lt _ crc_init (covered-IsByte cfg counter rest h) (omega arith)) refl)
check-protect_04 _ cfg counter last h long short hc hd = absurd (omega arith)
