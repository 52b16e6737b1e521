-- ===== src/Tests/Sd.antt =====
-- include/bsomeip/sd at concrete inputs.
use bsomeip.Common.{ℕ, ◌+◌, ◌<◌, ◌≤◌, ◌≡◌, ◌⊎◌, List, [], ◌∷◌, length, arith}
use bsomeip.Sd.Entry.{SdEntry, make_offer_service}
use bsomeip.Sd.Entry.RoundTrip.{Fits}
use bsomeip.Sd.Discovery.{
  SdConfig, OfferState, repetition, main, down, first_wait, advance_phase, advance_find_phase,
}
use bsomeip.Sd.Discovery.Phases.{after, offer_phases, find_phases}

abbrev entry : SdEntry
entry = make_offer_service 0x1234 1 2 3 4

entry-Fits : Fits entry
entry-Fits = record {
  bytes = omega arith;
  counts = omega arith;
  ids = omega arith;
  ttl_24 = omega arith;
  service_entry = λ t. omega arith;
  eventgroup_entry = λ t. ground (arith, t);
}

abbrev config : SdConfig
config = record {
  initial_delay_min = 0;
  initial_delay_max = 3000;
  repetition_base_delay = 10;
  repetition_max = 3;
  cyclic_offer_delay = 1000;
  offer_ttl = 3;
  find_ttl = 3;
}

abbrev later : List ℕ
later = 11 ∷ 31 ∷ []

offer_phases_example :
    let t = after advance_phase config (first_wait config 0) (1 ∷ later) in
    ((length later ≡ 0) ⊎ (1 + length later < 3) → t.phase ≡ repetition)
    × (1 ≤ length later → 3 ≤ 1 + length later → t.phase ≡ main)
offer_phases_example = offer_phases config 0 1 later

find_phases_example :
    let t = after advance_find_phase config (first_wait config 0) (1 ∷ later) in
    ((length later ≡ 0) ⊎ (1 + length later < 3) → t.phase ≡ repetition)
    × (1 ≤ length later → 3 ≤ 1 + length later → t.phase ≡ down)
find_phases_example = find_phases config 0 1 later

abbrev offers : List (OfferState ℕ)
offers =
    record {
      service = 0x1234;
      instance_id = 1;
      major_version = 1;
      minor_version = 0;
      options = 7 ∷ 8 ∷ [];
      timer = first_wait config 0;
    }
    ∷ []
