-- ===== src/Wire/Codec/Checked.antt =====
-- What the checks of the buffer's bounds do.
use bsomeip.Common.{
  ℕ, ◌+◌, ◌-◌, ◌≤◌, ◌<◌, ◌≡◌, refl, sym, ap, ◌∙◌, Bool, true, false, if◌then◌else◌, List, [], ◌++◌,
  append-nil, append_assoc, length, length-append, length-drop, drop, drop-drop, ltb, leb, ◌==◌,
  Bool-cases, inl, inr, arith,
}
use bsomeip.Wire.Codec.{
  FieldType, Members, bool, u8, i8, u16, i16, u32, i32, u64, i64, f32, f64, bytes, enum, aggregate,
  no_members, member, Value, Values, serialize_field, serialize_members, deserialize_field,
  deserialize_members, done, buffer_too_small, out_of_bounds, serialize_checked, serialize,
  deserialize_checked, deserialize,
}
use bsomeip.Wire.Primitive.{
  serialize_u8, serialize_bool, serialize_i8, serialize_u16, serialize_i16, serialize_u32,
  serialize_i32, serialize_u64, serialize_i64, serialize_f32, serialize_f64,
}
use bsomeip.Wire.Codec.Layout.{
  FieldFits, MembersFit, wire_size, members_size, value_bytes, members_bytes, length-value_bytes,
  serialize_field-Writes,
}

add_assoc : (a b c : ℕ) → a + b + c ≡ a + (b + c)
add_assoc a b c = omega arith

add-zero : (n : ℕ) → n ≡ n + 0
add-zero n = omega arith

zero-add : (n : ℕ) → 0 + n ≡ n
zero-add n = omega arith

-- A field counts as many bytes as its type has, with room or without.
mutual
  unfolding serialize_field serialize_u8 serialize_bool serialize_i8 serialize_u16 serialize_i16
      serialize_u32 serialize_i32 serialize_u64 serialize_i64 serialize_f32 serialize_f64

  serialize_field_size :
      (t : FieldType) (v : Value t) (p : List ℕ) (out : ℕ)
      → FieldFits t v
      → (serialize_field t p out v).1 ≡ wire_size t
  serialize_field_size bool v p out h = refl
  serialize_field_size u8 v p out h = refl
  serialize_field_size i8 v p out h = refl
  serialize_field_size u16 v p out h = refl
  serialize_field_size i16 v p out h = refl
  serialize_field_size u32 v p out h = refl
  serialize_field_size i32 v p out h = refl
  serialize_field_size u64 v p out h = refl
  serialize_field_size i64 v p out h = refl
  serialize_field_size f32 v p out h = refl
  serialize_field_size f64 v p out h = refl
  serialize_field_size (bytes n) v p out h = h
  serialize_field_size (enum t) v p out h = serialize_field_size t v p out h
  serialize_field_size (aggregate ms) v p out h =
      serialize_members_size ms v p out 0 h ∙ zero-add (members_size ms)

  serialize_members_size :
      (ms : Members) (v : Values ms) (p : List ℕ) (out offset : ℕ)
      → MembersFit ms v
      → (serialize_members ms p out offset v).1 ≡ offset + members_size ms
  serialize_members_size no_members v p out offset h = add-zero offset
  serialize_members_size (member t ms) v p out offset h =
      let (p', n) = serialize_field t p (out + offset) v.0 in
      serialize_members_size ms v.1 p' out (offset + n) h.1
      ∙ ap (λ k. offset + k + members_size ms) (serialize_field_size t v.0 p (out + offset) h.0)
      ∙ add_assoc offset (wire_size t) (members_size ms)

serialize_checked_room :
    (ms : Members) (v : Values ms) (front p : List ℕ) (offset : ℕ)
    → MembersFit ms v
    → offset ≡ length front
    → members_size ms ≤ length p
    → serialize_checked ms (front ++ p) offset v
      ≡ done ((front ++ members_bytes ms v) ++ drop (members_size ms) p, offset + members_size ms)
unfolding serialize_checked members_bytes
serialize_checked_room no_members v front p offset h e room =
    λ i. done (sym (append-nil front) i ++ p, add-zero offset i)
serialize_checked_room (member t ms) v front p offset h e room =
    let b = value_bytes t v.0 in
    let n = wire_size t in
    let m = members_size ms in
    let size = length-value_bytes t v.0 h.0 in
    let counted = serialize_field_size t v.0 (front ++ p) offset h.0 in
    let wrote : (serialize_field t (front ++ p) offset v.0).0 ≡ (front ++ b) ++ drop n p =
      ap (λ (s : List ℕ × ℕ). s.0)
        (serialize_field-Writes t v.0 h.0 front p offset e (omega (arith, size)))
      ∙ ap (λ k. (front ++ b) ++ drop k p) size in
    let inside : ltb (length (front ++ p)) (offset + n) ≡ false =
      ground (arith, length-append front p) in
    let rest =
      serialize_checked_room ms v.1 (front ++ b) (drop n p) (offset + n) h.1
        (omega (arith, length-append front b, size)) (omega (arith, length-drop n p)) in
    rw (counted, inside, wrote)
      (rest ∙ λ i. done (
        append_assoc front b (members_bytes ms v.1) i ++ drop-drop n m (n + m) p refl i,
        add_assoc offset n m i,
      ))

serialize_checked_short :
    (ms : Members) (v : Values ms) (front p : List ℕ) (offset : ℕ)
    → MembersFit ms v
    → offset ≡ length front
    → length p < members_size ms
    → serialize_checked ms (front ++ p) offset v ≡ out_of_bounds
unfolding serialize_checked
serialize_checked_short no_members v front p offset h e short = absurd (omega arith)
serialize_checked_short (member t ms) v front p offset h e short =
    let b = value_bytes t v.0 in
    let n = wire_size t in
    let size = length-value_bytes t v.0 h.0 in
    let counted = serialize_field_size t v.0 (front ++ p) offset h.0 in
    elim (Bool-cases (ltb (length (front ++ p)) (offset + n))) [
      | inl t' ↦ rw (counted, t') refl
      | inr t' ↦
          let room : n ≤ length p = ground (arith, t', length-append front p) in
          let wrote : (serialize_field t (front ++ p) offset v.0).0 ≡ (front ++ b) ++ drop n p =
            ap (λ (s : List ℕ × ℕ). s.0)
              (serialize_field-Writes t v.0 h.0 front p offset e (omega (arith, size, room)))
            ∙ ap (λ k. (front ++ b) ++ drop k p) size in
          rw (counted, t', wrote)
            (serialize_checked_short ms v.1 (front ++ b) (drop n p) (offset + n) h.1
              (omega (arith, length-append front b, size)) (omega (arith, length-drop n p)))
    ]

-- A value that fits its types is written at the front of a buffer with room for it, and the rest
-- is left as it was. In a shorter buffer the code writes behind its end: the error that it has for
-- this case always comes after such a write.
pub serialize_lem :
    (ms : Members) (buf : List ℕ) (v : Values ms)
    → MembersFit ms v
    → serialize ms buf v ≡ (
        if ltb (length buf) (members_size ms)
        then out_of_bounds
        else done (members_bytes ms v ++ drop (members_size ms) buf, members_size ms))
unfolding serialize
serialize_lem ms buf v h = elim (Bool-cases (ltb (length buf) (members_size ms))) [
  | inl t ↦ rw t (serialize_checked_short ms v [] buf 0 h refl (ground (arith, t)))
  | inr t ↦ rw t (
      serialize_checked_room ms v [] buf 0 h refl (ground (arith, t)) ∙ λ i.
      done (members_bytes ms v ++ drop (members_size ms) buf, zero-add (members_size ms) i))
]

-- What a read counts does not hang on the bytes.
mutual
  unfolding deserialize_field

  deserialize_field_size :
      (t : FieldType) (buf : List ℕ) (p : ℕ) → (deserialize_field t buf p).1 ≡ wire_size t
  deserialize_field_size bool buf p = refl
  deserialize_field_size u8 buf p = refl
  deserialize_field_size i8 buf p = refl
  deserialize_field_size u16 buf p = refl
  deserialize_field_size i16 buf p = refl
  deserialize_field_size u32 buf p = refl
  deserialize_field_size i32 buf p = refl
  deserialize_field_size u64 buf p = refl
  deserialize_field_size i64 buf p = refl
  deserialize_field_size f32 buf p = refl
  deserialize_field_size f64 buf p = refl
  deserialize_field_size (bytes n) buf p = refl
  deserialize_field_size (enum t) buf p = deserialize_field_size t buf p
  deserialize_field_size (aggregate ms) buf p =
      deserialize_members_size ms buf p 0 ∙ zero-add (members_size ms)

  deserialize_members_size :
      (ms : Members) (buf : List ℕ) (p offset : ℕ)
      → (deserialize_members ms buf p offset).1 ≡ offset + members_size ms
  deserialize_members_size no_members buf p offset = add-zero offset
  deserialize_members_size (member t ms) buf p offset =
      let n = (deserialize_field t buf (p + offset)).1 in
      deserialize_members_size ms buf p (offset + n)
      ∙ ap (λ k. offset + k + members_size ms) (deserialize_field_size t buf (p + offset))
      ∙ add_assoc offset (wire_size t) (members_size ms)

-- Each member takes a byte at least.
abbrev pub NonEmpty : Members → Type 0
NonEmpty no_members = Unit {0}
NonEmpty (member t ms) = (1 ≤ wire_size t) × NonEmpty ms

-- Whether a buffer of `n` bytes ends where a member begins.
abbrev pub ends_at_member : Members → (n : ℕ) → Bool
ends_at_member no_members n = false
ends_at_member (member t ms) n =
    let rest = ends_at_member ms (n - wire_size t) in
    if n == 0 then true else if ltb n (wire_size t) then false else rest

deserialize_checked_short :
    (ms : Members) (buf : List ℕ) (offset n : ℕ)
    → length buf ≡ offset + n
    → n < members_size ms
    → deserialize_checked ms buf offset
      ≡ (if ends_at_member ms n then buffer_too_small else out_of_bounds)
unfolding deserialize_checked
deserialize_checked_short no_members buf offset n e short = absurd (omega arith)
deserialize_checked_short (member t ms) buf offset n e short =
    let counted = deserialize_field_size t buf offset in
    let k = wire_size t in
    elim (Bool-cases (n == 0)) [
      | inl z ↦ let ended : leb (length buf) offset ≡ true = ground (arith, z) in rw (z, ended) refl
      | inr z ↦
          let before : leb (length buf) offset ≡ false = ground (arith, z) in
          elim (Bool-cases (ltb n k)) [
            | inl u ↦
                let over : ltb (length buf) (offset + k) ≡ true = ground (arith, u) in
                rw (z, u, before, counted, over) refl
            | inr u ↦
                let inside : ltb (length buf) (offset + k) ≡ false = ground (arith, u) in
                let rest =
                  deserialize_checked_short ms buf (offset + k) (n - k) (ground (arith, u))
                    (ground (arith, u)) in
                rw (z, u, before, counted, inside, rest)
                  (elim (Bool-cases (ends_at_member ms (n - k))) [ inl w ↦ rw w | inr w ↦ rw w ])
          ]
    ]

member_room : (a b c : ℕ) {n : ℕ} → a + (b + c) ≤ n → a + b + c ≤ n
member_room a b c h = omega arith

pub deserialize_checked_room :
    (ms : Members) (buf : List ℕ) (offset : ℕ)
    → NonEmpty ms
    → offset + members_size ms ≤ length buf
    → (v : Values ms) × (deserialize_checked ms buf offset ≡ done v)
unfolding deserialize_checked
deserialize_checked_room no_members buf offset ne room = (tt, refl)
deserialize_checked_room (member t ms) buf offset ne room =
    let k = wire_size t in
    let (vs, e) =
      deserialize_checked_room ms buf (offset + k) ne.1
        (member_room offset k (members_size ms) room) in
    let counted = deserialize_field_size t buf offset in
    let before : leb (length buf) offset ≡ false = ground (arith, ne.0) in
    let inside : ltb (length buf) (offset + k) ≡ false = ground arith in
    (((deserialize_field t buf offset).0, vs), rw (before, counted, inside, e) refl)

-- A buffer with room for members of a byte at least gives a value, whatever its bytes. A shorter one
-- gives the error for short buffers exactly when it ends where a member begins; else the member in
-- which it ends is read behind its end.
pub deserialize_bounds :
    (ms : Members) (buf : List ℕ)
    → NonEmpty ms
    → if ltb (length buf) (members_size ms)
      then (deserialize ms buf
          ≡ (if ends_at_member ms (length buf) then buffer_too_small else out_of_bounds))
      else ((v : Values ms) × (deserialize ms buf ≡ done v))
unfolding deserialize
deserialize_bounds ms buf ne = elim (Bool-cases (ltb (length buf) (members_size ms))) [
  | inl t ↦ rw t (deserialize_checked_short ms buf 0 (length buf) (omega arith) (ground (arith, t)))
  | inr t ↦ rw t (deserialize_checked_room ms buf 0 ne (ground (arith, t)))
]
