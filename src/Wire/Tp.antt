-- ===== src/Wire/Tp.antt =====
-- include/bsomeip/wire/tp.hpp: messages cut into segments, and segments put together.
pub mod RoundTrip
pub mod Stream
use bsomeip.Common.{
  ℕ, zero, suc, ◌+◌, ◌*◌, ◌/◌, ◌%◌, ◌^◌, bit_and, bit_or, ◌≡◌, ◌↔◌, ap, arith, Bool, true, false,
  ◌&&◌, not, Option, none, some, List, [], ◌∷◌, ◌++◌, length, take, drop, replicate, ltb, ◌==◌,
  if◌then◌else◌, Key, lookup, insert, erase,
}
use bsomeip.Wire.Bytes.{read_u32_be, write_u32_be}
use bsomeip.Wire.MessageType.{with_tp}
use bsomeip.Wire.HeaderView
use bsomeip.Wire.HeaderView.{
  header_size, someip_header_size, set_msg_type, set_length, msg_type, service, method, client,
  session,
}

abbrev pub tp_header_size : ℕ
tp_header_size = 4

-- The offset has 28 bits, `more_segments` one.
pub record TpHeader : Type 0 where
  pub offset : ℕ
  pub more_segments : ℕ

unfoldable pub read_tp_header : List ℕ → ℕ → TpHeader
unfolding read_u32_be
read_tp_header p o =
    let raw = read_u32_be p o in record { offset = raw / 2 ^ 4; more_segments = bit_and raw 1 }

unfoldable pub write_tp_header : List ℕ → ℕ → TpHeader → List ℕ
unfolding write_u32_be
write_tp_header p o h =
    write_u32_be p o (bit_or (h.offset * 2 ^ 4 % 2 ^ 32) (bit_and h.more_segments 1))

-- One segment: the header with the TP flag and its own length, the TP header and the chunk.
unfoldable pub segment : (hdr chunk : List ℕ) → (offset : ℕ) → (more : Bool) → List ℕ
unfolding set_msg_type set_length msg_type with_tp write_tp_header
segment hdr chunk offset more =
    let seg = hdr ++ replicate tp_header_size 0 in
    let seg = set_msg_type seg (with_tp (msg_type seg)) in
    let seg = set_length seg ((someip_header_size + tp_header_size + length chunk) % 2 ^ 32) in
    let tph : TpHeader = record {
      offset = offset % 2 ^ 28;
      more_segments = if more then 1 else 0;
    } in
    write_tp_header seg header_size tph ++ chunk

-- The loop from `offset` on, where `rest` is left of the payload.
unfoldable pub segments_from :
    (fuel : ℕ) → (hdr : List ℕ) → (max_segment_payload offset : ℕ) → (rest : List ℕ) → List (List ℕ)
unfolding segment
segments_from zero hdr max_segment_payload offset rest = []
segments_from (suc fuel) hdr max_segment_payload offset rest =
    let chunk = take max_segment_payload rest in
    let more = ltb (length chunk) (length rest) in
    let later =
      segments_from fuel hdr max_segment_payload (offset + length chunk)
        (drop max_segment_payload rest) in
    if length rest == 0 then [] else segment hdr chunk offset more ∷ later

-- With segments of one byte at least, the length of the payload is fuel enough.
unfoldable pub segment_message : (hdr payload : List ℕ) → (max_segment_payload : ℕ) → List (List ℕ)
unfolding segments_from
segment_message hdr payload max_segment_payload =
    segments_from (length payload) hdr max_segment_payload 0 payload

pub record TpStreamKey : Type 0 where
  pub service : ℕ
  pub method : ℕ
  pub client : ℕ
  pub session : ℕ

unfoldable pub key_of : List ℕ → TpStreamKey
unfolding HeaderView.service HeaderView.method HeaderView.client HeaderView.session
key_of hdr = record {
  service = HeaderView.service hdr;
  method = HeaderView.method hdr;
  client = HeaderView.client hdr;
  session = HeaderView.session hdr;
}

abbrev pub same_stream : TpStreamKey → TpStreamKey → Bool
same_stream a b =
    a.service == b.service && a.method == b.method && a.client == b.client && a.session == b.session

pub same_stream_iff : (a b : TpStreamKey) → (same_stream a b ≡ true) ↔ (a ≡ b)
same_stream_iff a b = (
  (λ h.
      let s : a.service ≡ b.service = ground arith in
      let m : a.method ≡ b.method = ground arith in
      let c : a.client ≡ b.client = ground arith in
      let n : a.session ≡ b.session = ground arith in
      λ i. record { service = s i; method = m i; client = c i; session = n i }),
  (λ e.
      let s = ap (λ (k : TpStreamKey). k.service) e in
      let m = ap (λ (k : TpStreamKey). k.method) e in
      let c = ap (λ (k : TpStreamKey). k.client) e in
      let n = ap (λ (k : TpStreamKey). k.session) e in ground (arith, s, m, c, n)),
)

instance abbrev pub tp_stream_key : Key TpStreamKey
tp_stream_key = record { same = same_stream; same_iff = same_stream_iff }

-- The fragments by offset, in the order of their offsets.
pub record StreamState : Type 0 where
  pub fragments : List (ℕ × List ℕ)
  pub final_offset : ℕ

-- `streams_`
abbrev pub Assembler : Type 0
Assembler = List (TpStreamKey × StreamState)

-- `out_of_bounds` is a write behind the result, which the code does not exclude.
pub data Fed : Type 0 where
  complete : List ℕ → Fed
  buffer_too_small invalid_length out_of_bounds : Fed

-- `fragments[offset] = data`
unfoldable pub put_fragment : ℕ → List ℕ → List (ℕ × List ℕ) → List (ℕ × List ℕ)
put_fragment off frag [] = (off, frag) ∷ []
put_fragment off frag ((o, f) ∷ fragments) =
    let rest = put_fragment off frag fragments in
    if off == o
    then (off, frag) ∷ fragments
    else if ltb off o
    then (off, frag) ∷ (o, f) ∷ fragments
    else (o, f) ∷ rest

-- The loop over the fragments; `result` is what is written so far, which ends at `expected`.
unfoldable pub assemble :
    (final_offset : ℕ) → List (ℕ × List ℕ) → (expected : ℕ) → (result : List ℕ) → Fed
assemble final_offset [] expected result =
    if expected == final_offset then complete result else invalid_length
assemble final_offset ((off, frag) ∷ fragments) expected result =
    let rest = assemble final_offset fragments ((off + length frag) % 2 ^ 32) (result ++ frag) in
    if not (off == expected)
    then invalid_length
    else if ltb final_offset (off + length frag)
    then out_of_bounds
    else rest

abbrev pub state_of : Option StreamState → StreamState
state_of none = record { fragments = []; final_offset = 0 }
state_of (some s) = s

abbrev pub finish : TpStreamKey → StreamState → Assembler → Fed → Assembler × Fed
finish key stream streams (complete result) = (erase key streams, complete result)
finish key stream streams buffer_too_small = (insert key stream streams, buffer_too_small)
finish key stream streams invalid_length = (insert key stream streams, invalid_length)
finish key stream streams out_of_bounds = (insert key stream streams, out_of_bounds)

-- The stream after a fragment came.
abbrev pub with_fragment : StreamState → TpHeader → List ℕ → StreamState
with_fragment stream tph frag = record {
  fragments = put_fragment tph.offset frag stream.fragments;
  final_offset =
      if tph.more_segments == 0 then (tph.offset + length frag) % 2 ^ 32 else stream.final_offset;
}

abbrev pub try_assemble : TpStreamKey → StreamState → Assembler → Assembler × Fed
try_assemble key stream streams =
    if stream.final_offset == 0
    then (insert key stream streams, invalid_length)
    else finish key stream streams (assemble stream.final_offset stream.fragments 0 [])

unfoldable pub feed : Assembler → (hdr seg : List ℕ) → Assembler × Fed
unfolding key_of read_tp_header put_fragment assemble lookup insert erase
feed streams hdr seg =
    let key = key_of hdr in
    let tph = read_tp_header seg header_size in
    let stream =
      with_fragment (state_of (lookup key streams)) tph (drop (header_size + tp_header_size) seg) in
    if ltb (length seg) (header_size + tp_header_size)
    then (streams, buffer_too_small)
    else try_assemble key stream streams

unfoldable pub clear : Assembler → Assembler
clear streams = []
