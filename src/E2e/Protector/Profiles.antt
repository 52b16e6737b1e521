-- ===== src/E2e/Protector/Profiles.antt =====
-- The profiles behind the senders of protector.hpp, with the casts that `if constexpr` selects.
use bsomeip.Common.{
  ℕ, ◌+◌, ◌-◌, ◌%◌, ◌^◌, ◌≤◌, ◌<◌, bit_and, ◌≡◌, ◌∙◌, refl, inl, inr, arith, List, length,
  length-set, ltb, Bool-cases,
}
use bsomeip.Common.Bits.{and-nibble}
use bsomeip.Wire.Bytes.Laws.{length-write_u16_be, length-write_u32_be}
use bsomeip.E2e.Protector.{Profile, ProfileLaws}
use bsomeip.E2e.Crc32.{crc32_ethernet}
use bsomeip.E2e.Profile01
use bsomeip.E2e.Profile01.Check as Check01
use bsomeip.E2e.Profile02
use bsomeip.E2e.Profile02.Check as Check02
use bsomeip.E2e.Profile04
use bsomeip.E2e.Profile04.Check as Check04
use bsomeip.E2e.Profile07
use bsomeip.E2e.Profile07.Check as Check07

abbrev pub profile_01 : Profile Profile01.Config
profile_01 = record {
  protect = Profile01.protect;
  check = Profile01.check;
  narrow_send = λ n. bit_and n 0x0F;
  narrow_recv = λ n. n % 2 ^ 8;
}

abbrev pub profile_02 : Profile Profile02.Config
profile_02 = record {
  protect = Profile02.protect;
  check = Profile02.check;
  narrow_send = λ n. bit_and n 0x0F;
  narrow_recv = λ n. n % 2 ^ 8;
}

abbrev pub profile_04 : Profile Profile04.Config
profile_04 = record {
  protect = Profile04.protect;
  check = Profile04.check;
  narrow_send = λ n. n % 2 ^ 16;
  narrow_recv = λ n. n % 2 ^ 16;
}

abbrev pub profile_07 : Profile Profile07.Config
profile_07 = record {
  protect = Profile07.protect;
  check = Profile07.check;
  narrow_send = λ n. n;
  narrow_recv = λ n. n;
}

pub length-protect_01 :
    (payload : List ℕ) (cfg : Profile01.Config) (counter : ℕ)
    → length (Profile01.protect payload cfg counter) ≡ length payload
unfolding Profile01.protect Profile01.with_counter
length-protect_01 payload cfg counter = elim (Bool-cases (ltb (length payload) 2)) [
  | inl t ↦ rw t
  | inr t ↦ rw t (length-set _ _ _ ∙ length-set _ _ _ ∙ length-set _ _ _)
]

pub length-protect_02 :
    (payload : List ℕ) (cfg : Profile02.Config) (counter : ℕ)
    → length (Profile02.protect payload cfg counter) ≡ length payload
unfolding Profile02.protect Profile02.with_counter
length-protect_02 payload cfg counter = elim (Bool-cases (ltb (length payload) 2)) [
  | inl t ↦ rw t
  | inr t ↦ rw t (length-set _ _ _ ∙ length-set _ _ _ ∙ length-set _ _ _)
]

pub length-protect_04 :
    (payload : List ℕ) (cfg : Profile04.Config) (counter : ℕ)
    → length (Profile04.protect payload cfg counter) ≡ length payload
unfolding Profile04.protect Profile04.write_fields
length-protect_04 payload cfg counter =
    elim (Bool-cases (ltb (length payload) Profile04.header_size)) [
      | inl t ↦ rw t
      | inr t ↦ rw t (
          length-write_u32_be _ 8
            (crc32_ethernet (Profile04.write_fields payload cfg counter) Profile04.crc_init)
          ∙ length-write_u32_be _ 8 0
          ∙ length-write_u32_be _ 4 _
          ∙ length-write_u16_be _ 2 _
          ∙ length-write_u16_be payload 0 _)
    ]

-- The casts of a counter of four bits.
pub nibble_casts :
    (counter last : ℕ)
    → counter < 2 ^ 32
    → last < 2 ^ 32
    → ((bit_and counter 0x0F + 2 ^ 8 - last % 2 ^ 8) % 2 ^ 4 ≡ (counter + 2 ^ 32 - last) % 2 ^ 4)
      × (bit_and counter 0x0F % 2 ^ 4 ≡ counter % 2 ^ 4)
nibble_casts counter last hc hl =
    (omega (arith, and-nibble counter), omega (arith, and-nibble counter))

abbrev pub laws_01 : ProfileLaws profile_01
laws_01 = record {
  Fits = λ cfg payload. Check01.Fits cfg payload;
  modulus = 2 ^ 4;
  max_delta = λ cfg. cfg.max_delta_counter;
  modulus_cases = inl refl;
  length-protect = length-protect_01;
  check-protect = λ payload cfg counter last bytes fits hc hl.
      let (delta, received) = nibble_casts counter last hc hl in
      Check01.check-protect_01 payload cfg (bit_and counter 0x0F) bytes fits (last % 2 ^ 8)
        (omega arith)
      ∙ rw (delta, received);
}

abbrev pub laws_02 : ProfileLaws profile_02
laws_02 = record {
  Fits = λ cfg payload. 2 ≤ length payload;
  modulus = 2 ^ 4;
  max_delta = λ cfg. cfg.max_delta_counter;
  modulus_cases = inl refl;
  length-protect = length-protect_02;
  check-protect = λ payload cfg counter last bytes fits hc hl.
      let (delta, received) = nibble_casts counter last hc hl in
      Check02.check-protect_02 payload cfg (bit_and counter 0x0F) (last % 2 ^ 8) bytes fits
        (omega arith)
      ∙ rw (delta, received);
}

abbrev pub laws_04 : ProfileLaws profile_04
laws_04 = record {
  Fits = λ cfg payload. (12 ≤ length payload) × (length payload < 2 ^ 16) × (cfg.data_id < 2 ^ 32);
  modulus = 2 ^ 16;
  max_delta = λ cfg. cfg.max_delta_counter;
  modulus_cases = inr (inl refl);
  length-protect = length-protect_04;
  check-protect = λ payload cfg counter last bytes fits hc hl.
      let delta : (counter % 2 ^ 16 + 2 ^ 16 - last % 2 ^ 16) % 2 ^ 16
          ≡ (counter + 2 ^ 32 - last) % 2 ^ 16 =
        omega arith in
      Check04.check-protect_04 payload cfg (counter % 2 ^ 16) (last % 2 ^ 16) bytes fits.0 fits.1
        (omega arith) fits.2
      ∙ rw delta;
}

abbrev pub laws_07 : ProfileLaws profile_07
laws_07 = record {
  Fits = λ cfg payload. (20 ≤ length payload) × (length payload < 2 ^ 32) × (cfg.data_id < 2 ^ 32);
  modulus = 2 ^ 32;
  max_delta = λ cfg. cfg.max_delta_counter;
  modulus_cases = inr (inr refl);
  length-protect = Check07.length-protect;
  check-protect = λ payload cfg counter last bytes fits hc hl.
      let received : counter % 2 ^ 32 ≡ counter = omega arith in
      rw received (Check07.check-protect_07 payload cfg counter last bytes fits.0 fits.1 hc fits.2);
}
