-- ===== src/Wire/Codec/RoundTrip.antt =====
-- A struct survives the wire, alone and as the payload of a message.
use bsomeip.Common.{
  ℕ, ◌+◌, ◌≤◌, ◌≡◌, refl, sym, ap, ◌∙◌, false, List, [], ◌++◌, append-nil, append_assoc, length,
  length-append, take, drop, take-append, ltb, leb, arith,
}
use bsomeip.Wire.Codec.{
  Members, no_members, member, Values, deserialize_field, done, serialize, deserialize_checked,
  deserialize,
}
use bsomeip.Wire.Codec.Layout.{
  MembersFit, wire_size, members_size, value_bytes, members_bytes, length-value_bytes,
  length-members_bytes, deserialize_field-Reads,
}
use bsomeip.Wire.Codec.Checked.{NonEmpty, serialize_lem}

deserialize_checked-bytes :
    (ms : Members) (v : Values ms) (front p : List ℕ) (offset : ℕ)
    → MembersFit ms v
    → NonEmpty ms
    → offset ≡ length front
    → deserialize_checked ms ((front ++ members_bytes ms v) ++ p) offset ≡ done v
unfolding deserialize_checked members_bytes
deserialize_checked-bytes no_members v front p offset h ne e = refl
deserialize_checked-bytes (member t ms) v front p offset h ne e =
    let b = value_bytes t v.0 in
    let bs = members_bytes ms v.1 in
    let buf = (front ++ (b ++ bs)) ++ p in
    let k = wire_size t in
    let size = length-value_bytes t v.0 h.0 in
    let own : buf ≡ (front ++ b) ++ (bs ++ p) =
      ap (λ l. l ++ p) (sym (append_assoc front b bs)) ∙ append_assoc (front ++ b) bs p in
    let rest_at : buf ≡ ((front ++ b) ++ bs) ++ p =
      ap (λ l. l ++ p) (sym (append_assoc front b bs)) in
    let read =
      ap (λ l. deserialize_field t l offset) own
      ∙ deserialize_field-Reads t v.0 h.0 front (bs ++ p) offset e in
    let rest =
      ap (λ l. deserialize_checked ms l (offset + k)) rest_at
      ∙ deserialize_checked-bytes ms v.1 (front ++ b) p (offset + k) h.1 ne.1
          (omega (arith, length-append front b, size)) in
    let total = length-append (front ++ (b ++ bs)) p in
    let inner = length-append front (b ++ bs) in
    let two = length-append b bs in
    let before : leb (length buf) offset ≡ false = ground (arith, ne.0, total, inner, two, size) in
    let inside : ltb (length buf) (offset + k) ≡ false = ground (arith, total, inner, two, size) in
    rw (before, read, inside, rest) refl

pub deserialize-members_bytes :
    (ms : Members) (v : Values ms) (p : List ℕ)
    → MembersFit ms v
    → NonEmpty ms
    → deserialize ms (members_bytes ms v ++ p) ≡ done v
unfolding deserialize
deserialize-members_bytes ms v p h ne = deserialize_checked-bytes ms v [] p 0 h ne refl

-- A value that fits its types, serialized into a buffer with room for it, is read back as it was,
-- from the bytes that were written and from the buffer as a whole. Each member takes a byte at
-- least.
pub deserialize-serialize :
    (ms : Members) (buf : List ℕ) (v : Values ms)
    → MembersFit ms v
    → NonEmpty ms
    → members_size ms ≤ length buf
    → (out : List ℕ) × (serialize ms buf v ≡ done (out, members_size ms))
      × (deserialize ms (take (members_size ms) out) ≡ done v)
      × (deserialize ms out ≡ done v)
deserialize-serialize ms buf v h ne room =
    let n = members_size ms in
    let bs = members_bytes ms v in
    let size = length-members_bytes ms v h in
    let big : ltb (length buf) n ≡ false = ground arith in
    let e : serialize ms buf v ≡ done (bs ++ drop n buf, n) =
      serialize_lem ms buf v h ∙ rw big refl in
    let cut : take n (bs ++ drop n buf) ≡ bs ++ [] =
      take-append n bs (drop n buf) (sym size) ∙ sym (append-nil bs) in
    (
      bs ++ drop n buf,
      e,
      ap (deserialize ms) cut ∙ deserialize-members_bytes ms v [] h ne,
      deserialize-members_bytes ms v (drop n buf) h ne,
    )
