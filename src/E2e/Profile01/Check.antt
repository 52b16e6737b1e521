-- ===== src/E2e/Profile01/Check.antt =====
-- Profile 01: what `check` makes of what `protect` wrote, whole or with one byte changed.
use bsomeip.Common.{
  IsByte, ℕ, ◌+◌, ◌-◌, ◌*◌, ◌/◌, ◌%◌, ◌^◌, ◌≤◌, ◌<◌, bit_and, bit_or, ◌≡◌, ◌≢◌, sym, ap, subst, ◌∙◌,
  arith, List, [], ◌∷◌, length, set, length-set, get_or-set_self, get_or-set_ne, All, ltb, ◌==◌,
  false, true, ==_iff, Bool-cases, inl, inr, zero, suc,
}
use bsomeip.Common.Bits.{and_mask, and-nibble, and-byte, or_disjoint}
use bsomeip.Wire.Bytes.{byte}
use bsomeip.E2e.Crc8.{crc8_sae_j1850}
use bsomeip.E2e.Crc8.Detect.{crc8_sae_j1850-IsByte}
use bsomeip.E2e.Feed.Laws.{feed_except-set, feed_except_one_byte, feed_except-IsByte}
use bsomeip.E2e.Result.{wrong_crc, counter_result}
use bsomeip.E2e.Profile01.{Config, id_bytes, crc_of, with_counter, protect, check}

-- Writing a nibble below another.
pub nibbles :
    (a n : ℕ) → IsByte a → bit_or (bit_and a 0xF0) (bit_and n 0x0F) ≡ a / 2 ^ 4 * 2 ^ 4 + n % 2 ^ 4
nibbles a n h = omega (
  arith,
  and_mask 4 0xF a,
  and-nibble (a / 2 ^ 4),
  and-nibble n,
  or_disjoint 4 (bit_and a 0xF0) (bit_and n 0x0F) (bit_and (a / 2 ^ 4) 0xF) (and_mask 4 0xF a)
      (omega (arith, and-nibble n)),
)

pub All-set : (xs : List ℕ) (i v : ℕ) → All IsByte xs → IsByte v → All IsByte (set xs i v)
All-set [] i v h hv = h
All-set (x ∷ xs) zero v h hv = (hv, h.1)
All-set (x ∷ xs) (suc i) v h hv = (h.0, All-set xs i v h.1 hv)

pub byte-IsByte : (xs : List ℕ) (i : ℕ) → All IsByte xs → IsByte (byte xs i)
byte-IsByte [] i h = omega arith
byte-IsByte (x ∷ xs) zero h = h.0
byte-IsByte (x ∷ xs) (suc i) h = byte-IsByte xs i h.1

-- The configuration points into the payload, at two different bytes.
pub record Fits (cfg : Config) (payload : List ℕ) : Type 0 where
  pub long : 2 ≤ length payload
  pub crc_inside : cfg.crc_offset < length payload
  pub counter_inside : cfg.counter_offset < length payload
  pub apart : cfg.counter_offset ≢ cfg.crc_offset

module _ (payload : List ℕ) (cfg : Config) (counter : ℕ) (bytes : All IsByte payload)
    (fits : Fits cfg payload) where
  low : ℕ
  low = bit_or (bit_and (byte payload cfg.counter_offset) 0xF0) (bit_and counter 0x0F) % 2 ^ 8

  low_nibble : low % 2 ^ 4 ≡ counter % 2 ^ 4
  unfolding low
  low_nibble =
      let h = byte-IsByte payload cfg.counter_offset bytes in
      omega (arith, nibbles (byte payload cfg.counter_offset) counter h)

  with_counter-IsByte : All IsByte (with_counter payload cfg counter)
  unfolding with_counter
  with_counter-IsByte =
      All-set _ cfg.crc_offset 0 (All-set payload cfg.counter_offset _ bytes (omega arith))
        (omega arith)

  length-with_counter : length (with_counter payload cfg counter) ≡ length payload
  unfolding with_counter
  length-with_counter = length-set _ _ _ ∙ length-set _ _ _

  protect_lem :
      protect payload cfg counter
      ≡ set
          (with_counter payload cfg counter)
          cfg.crc_offset
          (crc_of (with_counter payload cfg counter) cfg)
  unfolding protect
  protect_lem = let t : ltb (length payload) 2 ≡ false = ground (arith, fits.long) in rw t

  length-protect : length (protect payload cfg counter) ≡ length payload
  length-protect = rw protect_lem (length-set _ _ _ ∙ length-with_counter)

  crc_of-IsByte : IsByte (crc_of (with_counter payload cfg counter) cfg)
  unfolding crc_of
  crc_of-IsByte = feed_except-IsByte cfg.crc_offset 0 _ _ with_counter-IsByte (
      crc8_sae_j1850-IsByte (id_bytes cfg) 0xFF (omega (arith, and-byte cfg.data_id)) (omega arith))

  -- The CRC byte does not count in the checksum.
  crc_of-protect :
      crc_of (protect payload cfg counter) cfg ≡ crc_of (with_counter payload cfg counter) cfg
  unfolding crc_of
  crc_of-protect = rw protect_lem (
      feed_except-set cfg.crc_offset 0 cfg.crc_offset
        (crc_of (with_counter payload cfg counter) cfg) (with_counter payload cfg counter)
        (crc8_sae_j1850 (id_bytes cfg) 0xFF) (omega arith))

  crc_byte :
      byte (protect payload cfg counter) cfg.crc_offset
      ≡ crc_of (with_counter payload cfg counter) cfg
  crc_byte =
      rw protect_lem
        (get_or-set_self _ cfg.crc_offset _ 0 (omega (arith, length-with_counter, fits.crc_inside)))

  counter_byte : byte (protect payload cfg counter) cfg.counter_offset ≡ low
  unfolding low with_counter
  counter_byte = rw protect_lem (
      get_or-set_ne _ cfg.crc_offset cfg.counter_offset _ 0 (omega (arith, fits.apart))
      ∙ get_or-set_ne _ cfg.crc_offset cfg.counter_offset _ 0 (omega (arith, fits.apart))
      ∙ get_or-set_self payload cfg.counter_offset _ 0 fits.counter_inside)

  -- What `protect` wrote passes the check: the verdict is that of the two 4-bit counters alone, and
  -- the counter received becomes the last one.
  pub check-protect_01 :
      (last : ℕ)
      → last < 2 ^ 8
      → check (protect payload cfg counter) cfg last
        ≡ (counter_result ((counter + 2 ^ 8 - last) % 2 ^ 4) cfg.max_delta_counter, counter % 2 ^ 4)
  unfolding check
  check-protect_01 last h =
      let c = bit_and (byte (protect payload cfg counter) cfg.counter_offset) 0x0F in
      let recv : c ≡ counter % 2 ^ 4 = omega (
        arith,
        and-nibble (byte (protect payload cfg counter) cfg.counter_offset),
        counter_byte,
        low_nibble,
      ) in
      let delta : bit_and ((c + 2 ^ 32 - last) % 2 ^ 32) 0x0F ≡ (counter + 2 ^ 8 - last) % 2 ^ 4 =
        omega (arith, recv, and-nibble ((c + 2 ^ 32 - last) % 2 ^ 32)) in
      let long : ltb (length (protect payload cfg counter)) 2 ≡ false =
        ground (arith, length-protect, fits.long) in
      let same : (crc_of (protect payload cfg counter) cfg
            == byte (protect payload cfg counter) cfg.crc_offset)
          ≡ true =
        (==_iff _ _).1 (crc_of-protect ∙ sym crc_byte) in
      rw (long, same, delta, recv)

  protect-IsByte : All IsByte (protect payload cfg counter)
  protect-IsByte = rw protect_lem (All-set _ cfg.crc_offset _ with_counter-IsByte crc_of-IsByte)

  -- The checksum and the CRC byte disagree after any change of one byte.
  changed :
      (j v : ℕ)
      → j < length payload
      → IsByte v
      → v ≢ byte (protect payload cfg counter) j
      → crc_of (set (protect payload cfg counter) j v) cfg
        ≢ byte (set (protect payload cfg counter) j v) cfg.crc_offset
  unfolding crc_of
  changed j v hj hv ne e =
      let p = protect payload cfg counter in
      let start = crc8_sae_j1850 (id_bytes cfg) 0xFF in
      let same : crc_of p cfg ≡ byte p cfg.crc_offset = crc_of-protect ∙ sym crc_byte in
      elim (Bool-cases (j == cfg.crc_offset)) [
        | inl t ↦
            let at : j ≡ cfg.crc_offset = (==_iff j cfg.crc_offset).0 t in
            let crc_same = feed_except-set cfg.crc_offset 0 j v p start (omega arith) in
            let crc_new : byte (set p j v) cfg.crc_offset ≡ v =
              subst (λ i. byte (set p j v) i ≡ v) at
                (get_or-set_self p j v 0 (omega (arith, length-protect))) in
            ne (sym crc_new ∙ sym e ∙ crc_same ∙ same ∙ ap (byte p) (sym at))
        | inr t ↦
            let away : j ≢ cfg.crc_offset = ground arith in
            let kept : byte (set p j v) cfg.crc_offset ≡ byte p cfg.crc_offset =
              get_or-set_ne p j cfg.crc_offset v 0 away in
            let unchanged : crc_of (set p j v) cfg ≡ crc_of p cfg = e ∙ kept ∙ sym same in
            ne (
              feed_except_one_byte cfg.crc_offset 0 j v p start protect-IsByte
                (crc8_sae_j1850-IsByte (id_bytes cfg) 0xFF (omega (arith, and-byte cfg.data_id))
                  (omega arith))
                hv (omega (arith, length-protect)) (λ a. away (omega arith)) unchanged)
      ]

  -- A protected payload of which any one byte was changed, the CRC or another, fails the check with
  -- `wrong_crc`, and the last counter stays.
  pub check_01_one_byte :
      (last j v : ℕ)
      → j < length payload
      → IsByte v
      → v ≢ byte (protect payload cfg counter) j
      → check (set (protect payload cfg counter) j v) cfg last ≡ (wrong_crc, last)
  unfolding check
  check_01_one_byte last j v hj hv ne =
      let p = protect payload cfg counter in
      let long : ltb (length (set p j v)) 2 ≡ false =
        ground (arith, length-set p j v, length-protect, fits.long) in
      let differs : (crc_of (set p j v) cfg == byte (set p j v) cfg.crc_offset) ≡ false =
        ground (arith, changed j v hj hv ne) in
      rw (long, differs)
