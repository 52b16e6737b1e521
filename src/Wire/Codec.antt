-- ===== src/Wire/Codec.antt =====
-- include/bsomeip/wire/codec.hpp: structs as big-endian bytes. The compiler lists the members of a
-- struct; here they are a value of `Members`. A float is its bit pattern.
pub mod Layout
pub mod RoundTrip
pub mod Checked
use bsomeip.Common.{
  ℕ, zero, suc, ◌+◌, ◌*◌, ◌/◌, ◌%◌, ◌^◌, bit_or, Bool, true, false, not, List, [], ◌∷◌, ◌++◌, set,
  length, take, drop, ltb, leb, ◌==◌, if◌then◌else◌,
}
use bsomeip.Common.Int.{ℤ}
use bsomeip.Wire.Bytes.{byte}
use bsomeip.Wire.Primitive.{
  serialize_u8, serialize_bool, serialize_i8, serialize_u16, serialize_i16, serialize_u32,
  serialize_i32, serialize_u64, serialize_i64, serialize_f32, serialize_f64, deserialize_u8,
  deserialize_bool, deserialize_i8, deserialize_u16, deserialize_i16, deserialize_u32,
  deserialize_i32, deserialize_u64, deserialize_i64, deserialize_f32, deserialize_f64,
}
use bsomeip.Wire.HeaderView.{header_size, set_payload_length}

-- `bytes n` is an array of `n` one-byte values; an enumeration has an underlying type.
mutual
  pub data FieldType : Type 0 where
    bool u8 i8 u16 i16 u32 i32 u64 i64 f32 f64 : FieldType
    bytes : ℕ → FieldType
    enum : FieldType → FieldType
    aggregate : Members → FieldType

  pub data Members : Type 0 where
    no_members : Members
    member : FieldType → Members → Members

abbrev mutual
  pub Value : FieldType → Type 0
  Value bool = Bool
  Value u8 = ℕ
  Value i8 = ℤ
  Value u16 = ℕ
  Value i16 = ℤ
  Value u32 = ℕ
  Value i32 = ℤ
  Value u64 = ℕ
  Value i64 = ℤ
  Value f32 = ℕ
  Value f64 = ℕ
  Value (bytes n) = List ℕ
  Value (enum t) = Value t
  Value (aggregate ms) = Values ms

  pub Values : Members → Type 0
  Values no_members = Unit {0}
  Values (member t ms) = Value t × Values ms

-- `memcpy` to and from a buffer.
unfoldable pub copy_to : List ℕ → (out : ℕ) → List ℕ → List ℕ
copy_to p out [] = p
copy_to p out (b ∷ bs) = copy_to (set p out b) (out + 1) bs

unfoldable pub copy_from : (n : ℕ) → List ℕ → (o : ℕ) → List ℕ
copy_from zero buf o = []
copy_from (suc n) buf o = byte buf o ∷ copy_from n buf (o + 1)

-- The buffer, and the bytes written.
unfoldable mutual
  unfolding serialize_u8 serialize_bool serialize_i8 serialize_u16 serialize_i16 serialize_u32
      serialize_i32 serialize_u64 serialize_i64 serialize_f32 serialize_f64 copy_to

  pub serialize_field : (t : FieldType) → List ℕ → (out : ℕ) → Value t → List ℕ × ℕ
  serialize_field bool p out v = serialize_bool p out v
  serialize_field u8 p out v = serialize_u8 p out v
  serialize_field i8 p out v = serialize_i8 p out v
  serialize_field u16 p out v = serialize_u16 p out v
  serialize_field i16 p out v = serialize_i16 p out v
  serialize_field u32 p out v = serialize_u32 p out v
  serialize_field i32 p out v = serialize_i32 p out v
  serialize_field u64 p out v = serialize_u64 p out v
  serialize_field i64 p out v = serialize_i64 p out v
  serialize_field f32 p out v = serialize_f32 p out v
  serialize_field f64 p out v = serialize_f64 p out v
  serialize_field (bytes n) p out v = (copy_to p out v, length v)
  serialize_field (enum t) p out v = serialize_field t p out v
  serialize_field (aggregate ms) p out v = serialize_members ms p out 0 v

  pub serialize_members : (ms : Members) → List ℕ → (out offset : ℕ) → Values ms → List ℕ × ℕ
  serialize_members no_members p out offset v = (p, offset)
  serialize_members (member t ms) p out offset v =
      let (p', n) = serialize_field t p (out + offset) v.0 in
      serialize_members ms p' out (offset + n) v.1

-- The value, and the bytes read.
unfoldable mutual
  unfolding deserialize_u8 deserialize_bool deserialize_i8 deserialize_u16 deserialize_i16
      deserialize_u32 deserialize_i32 deserialize_u64 deserialize_i64 deserialize_f32
      deserialize_f64 copy_from

  pub deserialize_field : (t : FieldType) → List ℕ → (p : ℕ) → Value t × ℕ
  deserialize_field bool buf p = (deserialize_bool buf p, 1)
  deserialize_field u8 buf p = (deserialize_u8 buf p, 1)
  deserialize_field i8 buf p = (deserialize_i8 buf p, 1)
  deserialize_field u16 buf p = (deserialize_u16 buf p, 2)
  deserialize_field i16 buf p = (deserialize_i16 buf p, 2)
  deserialize_field u32 buf p = (deserialize_u32 buf p, 4)
  deserialize_field i32 buf p = (deserialize_i32 buf p, 4)
  deserialize_field u64 buf p = (deserialize_u64 buf p, 8)
  deserialize_field i64 buf p = (deserialize_i64 buf p, 8)
  deserialize_field f32 buf p = (deserialize_f32 buf p, 4)
  deserialize_field f64 buf p = (deserialize_f64 buf p, 8)
  deserialize_field (bytes n) buf p = (copy_from n buf p, n)
  deserialize_field (enum t) buf p = deserialize_field t buf p
  deserialize_field (aggregate ms) buf p = deserialize_members ms buf p 0

  pub deserialize_members : (ms : Members) → List ℕ → (p offset : ℕ) → Values ms × ℕ
  deserialize_members no_members buf p offset = (tt, offset)
  deserialize_members (member t ms) buf p offset =
      let (v, n) = deserialize_field t buf (p + offset) in
      let (vs, total) = deserialize_members ms buf p (offset + n) in ((v, vs), total)

-- What a check of the buffer's bounds leaves: `out_of_bounds` is an access behind the buffer, which
-- the code makes before it looks.
pub data Coded (A : Type 0) : Type 0 where
  done : A → Coded A
  buffer_too_small out_of_bounds : Coded A

-- The buffer and the offset; a member is written first, and its end compared with the size behind.
unfoldable pub serialize_checked :
    (ms : Members) → List ℕ → (offset : ℕ) → Values ms → Coded (List ℕ × ℕ)
unfolding serialize_field
serialize_checked no_members buf offset v = done (buf, offset)
serialize_checked (member t ms) buf offset v =
    let (buf', n) = serialize_field t buf offset v.0 in
    let rest = serialize_checked ms buf' (offset + n) v.1 in
    if ltb (length buf) (offset + n) then out_of_bounds else rest

unfoldable pub serialize : (ms : Members) → List ℕ → Values ms → Coded (List ℕ × ℕ)
unfolding serialize_checked
serialize ms buf v = serialize_checked ms buf 0 v

infixl 5 ◌>>=◌
abbrev pub ◌>>=◌ : {A B : Type 0} → Coded A → (A → Coded B) → Coded B
done a >>= f = f a
buffer_too_small >>= f = buffer_too_small
out_of_bounds >>= f = out_of_bounds

-- Only the start of a member is compared with the size of the buffer.
unfoldable pub deserialize_checked : (ms : Members) → List ℕ → (offset : ℕ) → Coded (Values ms)
unfolding deserialize_field
deserialize_checked no_members buf offset = done tt
deserialize_checked (member t ms) buf offset =
    let (v, n) = deserialize_field t buf offset in
    let rest = deserialize_checked ms buf (offset + n) >>= λ vs. done (v, vs) in
    if leb (length buf) offset
    then buffer_too_small
    else if ltb (length buf) (offset + n)
    then out_of_bounds
    else rest

unfoldable pub deserialize : (ms : Members) → List ℕ → Coded (Values ms)
unfolding deserialize_checked
deserialize ms buf = deserialize_checked ms buf 0

unfoldable pub deserialize_payload : (ms : Members) → List ℕ → Coded (Values ms)
unfolding deserialize
deserialize_payload ms payload_buf = deserialize ms payload_buf

-- The bytes of the header, one after another.
unfoldable pub serialize_message :
    (ms : Members) → List ℕ → (hdr : List ℕ) → Values ms → Coded (List ℕ × ℕ)
unfolding copy_to serialize set_payload_length
serialize_message ms buf hdr v =
    let buf' = copy_to buf 0 (take header_size hdr) in
    let rest = serialize ms (drop header_size buf') v >>= λ (payload, n).
    done (set_payload_length (take header_size buf' ++ payload) (n % 2 ^ 32), header_size + n) in
    if ltb (length buf) header_size then buffer_too_small else rest
