-- ===== src/Sd/Message/Build.antt =====
-- The whole message of service discovery, with its header.
use bsomeip.Common.{
  ℕ, ◌+◌, ◌/◌, ◌%◌, ◌^◌, ◌≤◌, ◌<◌, ◌≡◌, refl, sym, ap, ◌∙◌, false, not, List, [], ◌∷◌, ◌++◌, length,
  take, drop, length-take, length-drop, drop-take, take-append, append-nil, [], ◌||◌, inl, inr,
  Bool-cases, All, ltb, ◌==◌, if◌then◌else◌, arith,
}
use bsomeip.Wire.Header.{Fields, fields, fields_of_bytes}
use bsomeip.Sd.Entry.RoundTrip.{Fits}
use bsomeip.Sd.Option.{SdOption}
use bsomeip.Sd.Option.RoundTrip.{OptionFits}
use bsomeip.Sd.Discovery.{SdMessage}
use bsomeip.Sd.Message.{
  ok, err, buffer_too_small, is_empty, deserialize_sd, sd_header, build_sd_message,
}
use bsomeip.Sd.Message.Serialize.{
  total_of, sd_bytes, length-sd_bytes, serialize_sd-room, serialize_sd-small,
}
use bsomeip.Sd.Message.RoundTrip.{deserialize_sd-sd_bytes}

-- The header of a message of service discovery.
abbrev pub sd_fields : (payload_len session : ℕ) → Fields
sd_fields n session = record {
  service = 0xFFFF;
  method = 0x8100;
  length_field = n + 8;
  client = 0;
  session = session;
  protocol_ver = 1;
  interface_ver = 1;
  msg_type = 2;
  ret_code = 0;
}

-- The header over sixteen bytes and any payload.
sd_header_lem :
    (front payload : List ℕ) (n session : ℕ)
    → length front ≡ 16
    → n + 8 < 2 ^ 32
    → session < 2 ^ 16
    → (fields (sd_header (front ++ payload) n session) ≡ sd_fields n session)
      × (drop 16 (sd_header (front ++ payload) n session) ≡ payload)
unfolding sd_header
sd_header_lem
      (p0 ∷ p1 ∷ p2 ∷ p3 ∷ p4 ∷ p5 ∷ p6 ∷ p7 ∷ p8 ∷ p9 ∷ p10 ∷ p11 ∷ p12 ∷ p13 ∷ p14 ∷ p15 ∷ [])
      payload n s h hn hs =
    let l = (n % 2 ^ 32 + 8) % 2 ^ 32 in
    let e =
      fields_of_bytes 0xFF 0xFF 0x81 0x00 (l / 2 ^ 24 % 2 ^ 8) (l / 2 ^ 16 % 2 ^ 8)
        (l / 2 ^ 8 % 2 ^ 8) (l % 2 ^ 8) 0 0 (s / 2 ^ 8 % 2 ^ 8) (s % 2 ^ 8) 1 1 2 0 payload
        (omega arith) in
    (ground (arith, e), refl)
sd_header_lem _ payload n s h hn hs = absurd (omega arith)

-- A message that fits, built into a buffer with room for it and the header, has the header of
-- service discovery with the session and a length field that covers the payload; its payload is
-- read back as the message, and the number returned is the size of header and payload.
pub build_sd_message_lem :
    (buf : List ℕ) (msg : SdMessage SdOption) (session : ℕ)
    → All Fits msg.entries
    → All OptionFits msg.options
    → total_of msg + 8 < 2 ^ 32
    → session < 2 ^ 16
    → 16 + total_of msg ≤ length buf
    → let (out, n) = build_sd_message buf msg session in
      (n ≡ 16 + total_of msg)
      × (fields out ≡ sd_fields (total_of msg) session)
      × (deserialize_sd (drop 16 (take n out)) ≡ ok msg)
unfolding build_sd_message
build_sd_message_lem buf msg session fe fo small hs room =
    let total = total_of msg in
    let rest = drop 16 buf in
    let big : ltb (length buf) 16 ≡ false = ground arith in
    let fits : total ≤ length rest = omega (arith, length-drop 16 buf) in
    let e = serialize_sd-room rest msg fits in
    let wrote : (total == 0) ≡ false = ground arith in
    let payload = sd_bytes msg ++ drop total rest in
    let front : length (take 16 buf) ≡ 16 = omega (arith, length-take 16 buf) in
    let (hdr, behind) = sd_header_lem (take 16 buf) payload total session front small hs in
    let cut : drop 16 (take (16 + total) (sd_header (take 16 buf ++ payload) total session))
        ≡ sd_bytes msg ++ [] =
      drop-take 16 total (16 + total) _ refl
      ∙ ap (take total) behind
      ∙ take-append total (sd_bytes msg) (drop total rest) (sym (length-sd_bytes msg))
      ∙ sym (append-nil (sd_bytes msg)) in
    rw (big, e, wrote)
      (refl, hdr, ap deserialize_sd cut ∙ deserialize_sd-sd_bytes msg [] fe fo (omega arith))

empty_payload : deserialize_sd [] ≡ err buffer_too_small
unfolding deserialize_sd
empty_payload = refl

-- A buffer without room for the header, or without room for a message with entries, is refused.
-- One with room for the header alone is not, when the message has no entries: the number returned
-- is the size of the header, which announces no payload, and a receiver that reads the empty
-- payload finds it too short.
pub build_sd_message_small :
    (buf : List ℕ) (msg : SdMessage SdOption) (session : ℕ)
    → length buf < 16 + total_of msg
    → session < 2 ^ 16
    → let (out, n) = build_sd_message buf msg session in
      if ltb (length buf) 16 || not (is_empty msg.entries)
      then (n ≡ 0)
      else (n ≡ 16)
        × (fields out ≡ sd_fields 0 session)
        × (deserialize_sd (drop 16 (take n out)) ≡ err buffer_too_small)
unfolding build_sd_message
build_sd_message_small buf msg session small hs = elim (Bool-cases (ltb (length buf) 16)) [
  | inl t ↦ rw t refl
  | inr t ↦
      let rest = drop 16 buf in
      let e = serialize_sd-small rest msg (ground (arith, length-drop 16 buf, t)) in
      let front : length (take 16 buf) ≡ 16 = ground (arith, length-take 16 buf, t) in
      let (hdr, behind) = sd_header_lem (take 16 buf) rest 0 session front (omega arith) hs in
      elim (Bool-cases (is_empty msg.entries)) [
        | inr u ↦ rw (t, e, u) refl
        | inl u ↦
            let cut : drop 16 (take 16 (sd_header (take 16 buf ++ rest) 0 session)) ≡ [] =
              drop-take 16 0 16 _ refl in
            rw (t, e, e, u) (refl, hdr, ap deserialize_sd cut ∙ empty_payload)
      ]
]
