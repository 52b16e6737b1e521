-- ===== src/Tests/SdMessage.antt =====
-- include/bsomeip/sd/message.hpp at concrete inputs.
use bsomeip.Common.{
  ◌++◌, ℕ, ◌+◌, ◌*◌, ◌≤◌, ◌≡◌, inl, refl, true, false, List, [], ◌∷◌, length, replicate, take, drop,
  arith,
}
use bsomeip.Wire.Header.{fields}
use bsomeip.Sd.Entry.{SdEntry, make_offer_service}
use bsomeip.Sd.Entry.RoundTrip.{Fits}
use bsomeip.Sd.Option.{SdOption, ipv4, ipv6, make_ipv4_endpoint}
use bsomeip.Sd.Discovery.{SdMessage, Discovery, OfferState, initial_wait, main, stop_entry, tick}
use bsomeip.Sd.Discovery.Announced.{due_offers, AllOffers}
use bsomeip.Sd.Message.Announced.{OfferFits, tick-build_sd_message}
use bsomeip.Sd.Message.{
  ok, err, buffer_too_small, truncated_option, serialize_sd, deserialize_sd, build_sd_message,
}
use bsomeip.Sd.Message.Parse.{Answer, deserialize_sd_total}
use bsomeip.Sd.Message.RoundTrip.{deserialize_sd-serialize_sd}
use bsomeip.Sd.Message.Build.{sd_fields, build_sd_message_lem, build_sd_message_small}

abbrev offer : SdEntry
offer = record (make_offer_service 0x1234 1 2 3 4) { num_options_1st = 2 }

offer-Fits : Fits offer
offer-Fits = record {
  bytes = omega arith;
  counts = omega arith;
  ids = omega arith;
  ttl_24 = omega arith;
  service_entry = λ t. omega arith;
  eventgroup_entry = λ t. ground (arith, t);
}

abbrev ipv6_local : SdOption
ipv6_local = ipv6 (record {
  option_type = 0x06;
  address = replicate 15 0 ++ 1 ∷ [];
  protocol = 0x11;
  port = 30490;
})

abbrev message : SdMessage SdOption
message = record {
  reboot = true;
  unicast = true;
  entries = offer ∷ [];
  options = ipv4 (make_ipv4_endpoint 192 168 0 1 0x06 30501) ∷ ipv6_local ∷ [];
}

abbrev empty : SdMessage SdOption
empty = record { reboot = false; unicast = true; entries = []; options = [] }

serialize_sd_example :
    let (buf', n) = serialize_sd (replicate 80 7) message in
    (deserialize_sd buf' ≡ ok message)
    × (deserialize_sd (take n buf') ≡ ok message)
    × (n ≡ 64)
    × (drop n buf' ≡ drop n (replicate 80 7))
serialize_sd_example =
    deserialize_sd-serialize_sd (replicate 80 7) message (offer-Fits, tt)
      (
        (inl refl, omega arith, omega arith, omega arith),
        ((inl refl, omega arith, omega arith, omega arith), tt),
      )
      (omega arith) (omega arith)

-- An option that announces more bytes than there are.
abbrev truncated : List ℕ
truncated = 0x40 ∷ 0 ∷ 0 ∷ 0 ∷ 0 ∷ 0 ∷ 0 ∷ 0 ∷ 0 ∷ 0 ∷ 0 ∷ 4 ∷ 0 ∷ 9 ∷ 4 ∷ 0 ∷ []

deserialize_sd_example :
    Answer
      (λ (msg : SdMessage SdOption). 12 + length msg.entries * 16 + length msg.options * 12 ≤ 16)
      (deserialize_sd truncated)
deserialize_sd_example = deserialize_sd_total truncated (omega arith)

truncated_test : deserialize_sd truncated ≡ err truncated_option
unfolding deserialize_sd
truncated_test = refl

build_sd_message_example :
    let (out, n) = build_sd_message (replicate 90 0) message 5 in
    (n ≡ 80) × (fields out ≡ sd_fields 64 5) × (deserialize_sd (drop 16 (take n out)) ≡ ok message)
build_sd_message_example =
    build_sd_message_lem (replicate 90 0) message 5 (offer-Fits, tt)
      (
        (inl refl, omega arith, omega arith, omega arith),
        ((inl refl, omega arith, omega arith, omega arith), tt),
      )
      (omega arith) (omega arith) (omega arith)

build_sd_message_small_example :
    let (out, n) = build_sd_message (replicate 20 0) empty 5 in
    (n ≡ 16)
    × (fields out ≡ sd_fields 0 5)
    × (deserialize_sd (drop 16 (take n out)) ≡ err buffer_too_small)
build_sd_message_small_example =
    build_sd_message_small (replicate 20 0) empty 5 (omega arith) (omega arith)

-- Service 0x1234 is due with two options, 0x1235 is not, and 0x1236 was stopped.
abbrev due_offer : OfferState SdOption
due_offer = record {
  service = 0x1234;
  instance_id = 1;
  major_version = 2;
  minor_version = 3;
  options = message.options;
  timer = record { phase = initial_wait; next_send = 5; repetition_count = 0 };
}

abbrev later_offer : OfferState SdOption
later_offer = record due_offer {
  service = 0x1235;
  timer = record { phase = main; next_send = 6; repetition_count = 3 };
}

abbrev stopped_offer : OfferState SdOption
stopped_offer = record due_offer { service = 0x1236; options = [] }

abbrev discovery : Discovery SdOption
discovery = record {
  config = record {
    initial_delay_min = 0;
    initial_delay_max = 3000;
    repetition_base_delay = 10;
    repetition_max = 3;
    cyclic_offer_delay = 1000;
    offer_ttl = 3;
    find_ttl = 3;
  };
  reboot_flag = true;
  offers = due_offer ∷ later_offer ∷ [];
  pending_stop_offers = stopped_offer ∷ [];
  finds = [];
}

abbrev ticked : SdMessage SdOption
ticked = record {
  reboot = true;
  unicast = true;
  entries = stop_entry stopped_offer ∷ record offer { ttl = 3 } ∷ [];
  options = message.options;
}

ticked_first : (tick discovery 5).0 ≡ ticked ∷ []
unfolding tick
ticked_first = refl

due_offer-OfferFits : OfferFits due_offer
due_offer-OfferFits = record {
  ids = omega arith;
  versions = omega arith;
  options_fit = (
    (inl refl, omega arith, omega arith, omega arith),
    ((inl refl, omega arith, omega arith, omega arith), tt),
  );
  few = omega arith;
}

later_offer-OfferFits : OfferFits later_offer
later_offer-OfferFits = record {
  ids = omega arith;
  versions = omega arith;
  options_fit = due_offer-OfferFits.options_fit;
  few = omega arith;
}

stopped_offer-OfferFits : OfferFits stopped_offer
stopped_offer-OfferFits = record {
  ids = omega arith;
  versions = omega arith;
  options_fit = tt;
  few = omega arith;
}

tick-build_sd_message_example :
    let (out, n) = build_sd_message (replicate 120 7) ticked 1 in
    (deserialize_sd (drop 16 (take n out)) ≡ ok ticked)
    × (ticked.reboot ≡ discovery.reboot_flag)
    × (ticked.unicast ≡ true)
    × ((es : List SdEntry) × (ticked.entries ≡ stop_entry stopped_offer ∷ es)
        × AllOffers discovery.config 5 ticked.options es
            (due_offers discovery.config 5 discovery.offers))
    × ((tick discovery 5).1.pending_stop_offers ≡ [])
tick-build_sd_message_example =
    tick-build_sd_message discovery 5 1 (replicate 120 7) ticked []
      (due_offer-OfferFits, (later_offer-OfferFits, tt)) (stopped_offer-OfferFits, tt) (omega arith)
      (omega arith) (omega arith) ticked_first (omega arith)
