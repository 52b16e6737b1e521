-- ===== src/E2e/Profile02/Check.antt =====
-- Profile 02: what `check` makes of what `protect` wrote.
use bsomeip.Common.{
  IsByte, ℕ, ◌+◌, ◌-◌, ◌%◌, ◌^◌, ◌≤◌, ◌<◌, bit_and, bit_or, ◌≡◌, sym, ◌∙◌, arith, List, [], ◌∷◌,
  length, All, get_or, ltb, ◌==◌, false, true, ==_iff,
}
use bsomeip.Common.Bits.{and-nibble}
use bsomeip.E2e.Crc8.{crc8_sae_j1850}
use bsomeip.E2e.Feed.{feed}
use bsomeip.E2e.Profile01.Check.{nibbles}
use bsomeip.E2e.Result.{counter_result}
use bsomeip.E2e.Profile02.{Config, protect, check}

-- The byte of the counter after `protect`.
abbrev low : ℕ → ℕ → ℕ
low b counter = bit_or (bit_and b 0xF0) (bit_and counter 0x0F) % 2 ^ 8

abbrev code : ℕ → List ℕ → Config → ℕ → ℕ
code b rest cfg counter =
    feed (b ∷ rest) (crc8_sae_j1850 (get_or cfg.data_id_list (bit_and counter 0x0F) 0 ∷ []) 0xFF)

protect_lem :
    (a b : ℕ) (rest : List ℕ) (cfg : Config) (counter : ℕ)
    → protect (a ∷ b ∷ rest) cfg counter
      ≡ code (low b counter) rest cfg counter ∷ low b counter ∷ rest
unfolding protect
protect_lem a b rest cfg counter =
    let long : ltb (length (a ∷ b ∷ rest)) 2 ≡ false = ground arith in rw long

check_lem :
    (c b : ℕ) (rest : List ℕ) (cfg : Config) (last : ℕ)
    → last < 2 ^ 8
    → c ≡ code b rest cfg (bit_and b 0x0F)
    → check (c ∷ b ∷ rest) cfg last
      ≡ (counter_result ((b % 2 ^ 4 + 2 ^ 8 - last) % 2 ^ 4) cfg.max_delta_counter, b % 2 ^ 4)
unfolding check
check_lem c b rest cfg last h e =
    let long : ltb (length (c ∷ b ∷ rest)) 2 ≡ false = ground arith in
    let same : (code b rest cfg (bit_and b 0x0F) == c) ≡ true = (==_iff _ _).1 (sym e) in
    let recv : bit_and b 0x0F ≡ b % 2 ^ 4 = and-nibble b in
    let delta : bit_and ((bit_and b 0x0F + 2 ^ 32 - last) % 2 ^ 32) 0x0F
        ≡ (b % 2 ^ 4 + 2 ^ 8 - last) % 2 ^ 4 =
      omega (arith, and-nibble ((bit_and b 0x0F + 2 ^ 32 - last) % 2 ^ 32), recv) in
    rw (long, same, delta, recv)

-- What `protect` wrote passes the check of a receiver with the same list of data IDs: the verdict is
-- that of the two 4-bit counters alone, and the counter received becomes the last one.
pub check-protect_02 :
    (payload : List ℕ) (cfg : Config) (counter last : ℕ)
    → All IsByte payload
    → 2 ≤ length payload
    → last < 2 ^ 8
    → check (protect payload cfg counter) cfg last
      ≡ (counter_result ((counter + 2 ^ 8 - last) % 2 ^ 4) cfg.max_delta_counter, counter % 2 ^ 4)
check-protect_02 (a ∷ b ∷ rest) cfg counter last h long hl =
    let nibble : low b counter % 2 ^ 4 ≡ counter % 2 ^ 4 = omega (arith, nibbles b counter h.1.0) in
    let masked : bit_and (bit_and (low b counter) 0x0F) 0x0F ≡ bit_and counter 0x0F = omega (
      arith,
      and-nibble (low b counter),
      and-nibble (bit_and (low b counter) 0x0F),
      and-nibble counter,
    ) in
    let delta : (low b counter % 2 ^ 4 + 2 ^ 8 - last) % 2 ^ 4 ≡ (counter + 2 ^ 8 - last) % 2 ^ 4 =
      omega (arith, nibble) in
    rw (protect_lem a b rest cfg counter)
      (check_lem _ (low b counter) rest cfg last hl (rw masked) ∙ rw (delta, nibble))
check-protect_02 [] cfg counter last h long hl = absurd (omega arith)
check-protect_02 (a ∷ []) cfg counter last h long hl = absurd (omega arith)
