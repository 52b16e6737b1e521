-- ===== src/E2e/Protector.antt =====
-- include/bsomeip/e2e/protector.hpp: the senders that protect and check a message, over any profile.
-- Only what their receivers do with a value is modelled; errors and stops pass through.
pub mod Stream
pub mod Profiles
use bsomeip.Common.{
  ℕ, ◌+◌, ◌-◌, ◌%◌, ◌^◌, ◌<◌, ◌≡◌, ◌⊎◌, List, ◌++◌, length, take, drop, All, IsByte, ltb, leb, Bool,
  true, false, if◌then◌else◌,
}
use bsomeip.Wire.HeaderView.{header_size, set_payload_length}
use bsomeip.E2e.Result.{
  E2eResult, ok, wrong_crc, wrong_sequence, repeated, no_new_data, error, counter_result,
}

-- A profile with the casts of the counter that `if constexpr` selects for it.
pub record Profile (C : Type 0) : Type 1 where
  pub protect : List ℕ → C → ℕ → List ℕ
  pub check : List ℕ → C → ℕ → E2eResult × ℕ
  pub narrow_send : ℕ → ℕ
  pub narrow_recv : ℕ → ℕ

-- `config` of `e2e_state` stays a parameter: nothing changes it.
pub record E2eState : Type 0 where
  pub send_counter : ℕ
  pub recv_counter : ℕ

abbrev pub initial_state : E2eState
initial_state = record { send_counter = 1; recv_counter = 0 }

-- What goes downstream.
pub data Completion : Type 0 where
  set_value : List ℕ → Completion
  set_error : E2eResult → Completion

abbrev pub forwarded : E2eResult → Bool
forwarded ok = true
forwarded no_new_data = true
forwarded wrong_crc = false
forwarded wrong_sequence = false
forwarded repeated = false
forwarded error = false

module _ {C : Type 0} (profile : Profile C) (config : C) where
  -- `protect_sender`: the message sent and the new `send_counter`.
  unfoldable pub protect_message : List ℕ → ℕ → List ℕ × ℕ
  unfolding set_payload_length
  protect_message msg send_counter =
      let payload = drop header_size msg in
      let protected = profile.protect payload config (profile.narrow_send send_counter) in
      if ltb header_size (length msg)
      then (
        set_payload_length (take header_size msg ++ protected) (length payload),
        (send_counter + 1) % 2 ^ 32,
      )
      else (msg, send_counter)

  -- `check_sender`: what goes downstream and the new `recv_counter`.
  unfoldable pub check_message : List ℕ → ℕ → Completion × ℕ
  check_message msg recv_counter =
      let (res, counter) =
        profile.check (drop header_size msg) config (profile.narrow_recv recv_counter) in
      if leb (length msg) header_size
      then (set_error error, recv_counter)
      else ((if forwarded res then set_value msg else set_error res), counter)

-- What the senders rely on: the sizes stay, and a check of a protected payload that fits the
-- profile's header weighs the two counters only, modulo the profile's counter range.
pub record ProfileLaws {C : Type 0} (profile : Profile C) : Type 1 where
  pub Fits : C → List ℕ → Type 0
  pub modulus : ℕ
  pub max_delta : C → ℕ
  pub modulus_cases : (modulus ≡ 2 ^ 4) ⊎ ((modulus ≡ 2 ^ 16) ⊎ (modulus ≡ 2 ^ 32))
  pub length-protect :
      (payload : List ℕ) (config : C) (counter : ℕ)
      → length (profile.protect payload config counter) ≡ length payload
  pub check-protect :
      (payload : List ℕ) (config : C) (counter last : ℕ)
      → All IsByte payload
      → Fits config payload
      → counter < 2 ^ 32
      → last < 2 ^ 32
      → profile.check
          (profile.protect payload config (profile.narrow_send counter))
          config
          (profile.narrow_recv last)
        ≡ (
          counter_result ((counter + 2 ^ 32 - last) % modulus) (max_delta config),
          counter % modulus,
        )
