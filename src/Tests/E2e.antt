-- ===== src/Tests/E2e.antt =====
-- include/bsomeip/e2e at concrete inputs.
use bsomeip.Common.{ℕ, bit_xor, ◌≡◌, ◌≢◌, refl, List, [], ◌∷◌, ◌++◌, map, drop, take, set, arith}
use bsomeip.E2e.Crc8.{crc8_sae_j1850}
use bsomeip.E2e.Crc32.{crc32_fast, crc32_ethernet}
use bsomeip.E2e.Crc32.Tables as Tables32
use bsomeip.E2e.Crc32.Slicing.{crc32_fast-shift_register}
use bsomeip.E2e.Crc32.Detect.{crc32_ethernet_burst}
use bsomeip.E2e.Crc64.{crc64_fast, all_ones}
use bsomeip.E2e.Crc64.Tables as Tables64
use bsomeip.E2e.Crc64.Fast.{crc64_fast-shift_register}
use bsomeip.E2e.Result.{wrong_crc, repeated}
use bsomeip.E2e.Profile01
use bsomeip.E2e.Profile01.Check as Check01
use bsomeip.E2e.Profile02
use bsomeip.E2e.Profile04
use bsomeip.E2e.Profile04.Detect as Detect04
use bsomeip.E2e.Profile07
use bsomeip.E2e.Protector.{set_value, set_error, protect_message}
use bsomeip.E2e.Protector.Stream.{protect_all, check_all, check_all-protect_all, check_all_replay}
use bsomeip.E2e.Protector.Profiles.{profile_01, laws_01}

-- "123456789"
abbrev digits : List ℕ
digits = 0x31 ∷ 0x32 ∷ 0x33 ∷ 0x34 ∷ 0x35 ∷ 0x36 ∷ 0x37 ∷ 0x38 ∷ 0x39 ∷ []

crc32_check : crc32_ethernet digits 0xFFFFFFFF ≡ 0xCBF43926
unfolding crc32_ethernet
crc32_check = refl

crc8_check : crc8_sae_j1850 digits 0xFF ≡ 0x4B
unfolding crc8_sae_j1850
crc8_check = refl

crc32_fast_example :
    crc32_fast digits 0xFFFFFFFF ≡ bit_xor (Tables32.shift_register digits 0xFFFFFFFF) 0xFFFFFFFF
crc32_fast_example = crc32_fast-shift_register digits 0xFFFFFFFF (omega arith) (omega arith)

crc32_burst_example :
    crc32_ethernet (digits ++ ((1 ∷ 2 ∷ []) ++ digits)) 0xFFFFFFFF
    ≢ crc32_ethernet (digits ++ ((1 ∷ 3 ∷ []) ++ digits)) 0xFFFFFFFF
crc32_burst_example =
    crc32_ethernet_burst digits (1 ∷ 2 ∷ []) (1 ∷ 3 ∷ []) digits 0xFFFFFFFF (omega arith)
      (omega arith) (omega arith) (omega arith) (omega arith) refl (omega arith)
      (λ e. ground (arith, e))

crc64_fast_example :
    crc64_fast digits all_ones ≡ bit_xor (Tables64.shift_register digits all_ones) all_ones
crc64_fast_example = crc64_fast-shift_register digits all_ones (omega arith) (omega arith)

abbrev config_01 : Profile01.Config
config_01 = record {
  data_id = 0x1234;
  crc_offset = 0;
  counter_offset = 1;
  data_id_mode = 0;
  max_delta_counter = 1;
}

abbrev fits_01 : Check01.Fits config_01 digits
fits_01 = record {
  long = omega arith;
  crc_inside = omega arith;
  counter_inside = omega arith;
  apart = omega arith;
}

check_01_one_byte_example :
    Profile01.check (set (Profile01.protect digits config_01 5) 3 0x44) config_01 4 ≡ (wrong_crc, 4)
unfolding Profile01.protect
check_01_one_byte_example =
    Check01.check_01_one_byte digits config_01 5 (omega arith) fits_01 4 3 0x44 (omega arith)
      (omega arith) (λ e. ground (arith, e))

abbrev config_02 : Profile02.Config
config_02 = record {
  data_id_list = 1 ∷ 2 ∷ 3 ∷ 4 ∷ 5 ∷ 6 ∷ 7 ∷ 8 ∷ 9 ∷ 10 ∷ 11 ∷ 12 ∷ 13 ∷ 14 ∷ 15 ∷ 16 ∷ [];
  max_delta_counter = 1;
}

abbrev config_04 : Profile04.Config
config_04 = record {
  data_id = 0x01020304;
  min_data_length = 12;
  max_data_length = 4096;
  max_delta_counter = 1;
}

abbrev longer : List ℕ
longer = digits ++ digits ++ digits

check_04_burst_example :
    Profile04.check
      (take 12 (Profile04.protect longer config_04 7) ++ ([] ++ ((0 ∷ 0 ∷ []) ++ drop 14 longer)))
      config_04
      6
    ≡ (wrong_crc, 6)
check_04_burst_example =
    Detect04.check_04_burst longer [] (take 2 (drop 12 longer)) (0 ∷ 0 ∷ []) (drop 14 longer)
      config_04 7 6 (omega arith) (omega arith) refl (omega arith) refl (omega arith)
      (λ e. ground (arith, e))

abbrev config_07 : Profile07.Config
config_07 = record {
  data_id = 0x01020304;
  min_data_length = 20;
  max_data_length = 65536;
  max_delta_counter = 1;
}

-- A header of zeros before the digits.
abbrev unprotected : List ℕ
unprotected = 0 ∷ 0 ∷ 0 ∷ 0 ∷ 0 ∷ 0 ∷ 0 ∷ 0 ∷ 0 ∷ 0 ∷ 0 ∷ 0 ∷ 0 ∷ 0 ∷ 0 ∷ 0 ∷ digits

abbrev sent : ℕ → List ℕ
sent counter = (protect_message profile_01 config_01 unprotected counter).0

check_all_example :
    check_all profile_01 config_01
      (protect_all profile_01 config_01 (unprotected ∷ unprotected ∷ []) 16)
      15
    ≡ map set_value (protect_all profile_01 config_01 (unprotected ∷ unprotected ∷ []) 16)
check_all_example =
    check_all-protect_all profile_01 laws_01 config_01 (unprotected ∷ unprotected ∷ []) 16 15
      (omega arith) ((omega arith, omega arith, fits_01), ((omega arith, omega arith, fits_01), tt))
      (omega arith) (omega arith) refl

check_all_replay_example :
    check_all profile_01 config_01 (sent 5 ∷ sent 5 ∷ sent 5 ∷ []) 4
    ≡ set_value (sent 5) ∷ set_error repeated ∷ set_error repeated ∷ []
check_all_replay_example =
    check_all_replay profile_01 laws_01 config_01 unprotected 5 4 2 (omega arith)
      (omega arith, omega arith, fits_01) (omega arith) (omega arith) refl
