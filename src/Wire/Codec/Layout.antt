-- ===== src/Wire/Codec/Layout.antt =====
-- Where the members of a struct stand: the bytes of a value, written and read anywhere in a buffer.
use bsomeip.Common.{
  IsByte, ℕ, zero, suc, ◌+◌, ◌^◌, ◌≤◌, ◌<◌, ◌≡◌, refl, sym, ap, ◌∙◌, if◌then◌else◌, List, [], ◌∷◌,
  ◌++◌, append-nil, append_assoc, length, length-append, length-drop, drop, drop-drop, arith,
}
use bsomeip.Common.Int.{to_unsigned, FitsSigned}
use bsomeip.Wire.Bytes.{byte}
use bsomeip.Wire.Bytes.Append.{set-append_byte, byte-append, u16_bytes, u32_bytes}
use bsomeip.Wire.Primitive.RoundTrip.{
  Writes, Reads, u64_bytes, bool-Codes, u8-Codes, i8-Codes, u16-Codes, i16-Codes, u32-Codes,
  i32-Codes, u64-Codes, i64-Codes, f32-Codes, f64-Codes,
}
use bsomeip.Wire.Codec.{
  FieldType, Members, bool, u8, i8, u16, i16, u32, i32, u64, i64, f32, f64, bytes, enum, aggregate,
  no_members, member, Value, Values, copy_to, copy_from, serialize_field, serialize_members,
  deserialize_field, deserialize_members,
}

-- A number is in the range of its type, an array has its length.
abbrev mutual
  pub FieldFits : (t : FieldType) → Value t → Type 0
  FieldFits bool v = Unit {0}
  FieldFits u8 v = IsByte v
  FieldFits i8 v = FitsSigned 8 v
  FieldFits u16 v = v < 2 ^ 16
  FieldFits i16 v = FitsSigned 16 v
  FieldFits u32 v = v < 2 ^ 32
  FieldFits i32 v = FitsSigned 32 v
  FieldFits u64 v = v < 2 ^ 64
  FieldFits i64 v = FitsSigned 64 v
  FieldFits f32 v = v < 2 ^ 32
  FieldFits f64 v = v < 2 ^ 64
  FieldFits (bytes n) v = length v ≡ n
  FieldFits (enum t) v = FieldFits t v
  FieldFits (aggregate ms) v = MembersFit ms v

  pub MembersFit : (ms : Members) → Values ms → Type 0
  MembersFit no_members v = Unit {0}
  MembersFit (member t ms) v = FieldFits t v.0 × MembersFit ms v.1

abbrev mutual
  pub wire_size : FieldType → ℕ
  wire_size bool = 1
  wire_size u8 = 1
  wire_size i8 = 1
  wire_size u16 = 2
  wire_size i16 = 2
  wire_size u32 = 4
  wire_size i32 = 4
  wire_size u64 = 8
  wire_size i64 = 8
  wire_size f32 = 4
  wire_size f64 = 8
  wire_size (bytes n) = n
  wire_size (enum t) = wire_size t
  wire_size (aggregate ms) = members_size ms

  pub members_size : Members → ℕ
  members_size no_members = 0
  members_size (member t ms) = wire_size t + members_size ms

unfoldable mutual
  unfolding u16_bytes u32_bytes u64_bytes

  pub value_bytes : (t : FieldType) → Value t → List ℕ
  value_bytes bool v = (if v then 1 else 0) ∷ []
  value_bytes u8 v = v ∷ []
  value_bytes i8 v = to_unsigned 8 v ∷ []
  value_bytes u16 v = u16_bytes v
  value_bytes i16 v = u16_bytes (to_unsigned 16 v)
  value_bytes u32 v = u32_bytes v
  value_bytes i32 v = u32_bytes (to_unsigned 32 v)
  value_bytes u64 v = u64_bytes v
  value_bytes i64 v = u64_bytes (to_unsigned 64 v)
  value_bytes f32 v = u32_bytes v
  value_bytes f64 v = u64_bytes v
  value_bytes (bytes n) v = v
  value_bytes (enum t) v = value_bytes t v
  value_bytes (aggregate ms) v = members_bytes ms v

  pub members_bytes : (ms : Members) → Values ms → List ℕ
  members_bytes no_members v = []
  members_bytes (member t ms) v = value_bytes t v.0 ++ members_bytes ms v.1

mutual
  unfolding value_bytes

  pub length-value_bytes :
      (t : FieldType) (v : Value t) → FieldFits t v → length (value_bytes t v) ≡ wire_size t
  length-value_bytes bool v h = refl
  length-value_bytes u8 v h = refl
  length-value_bytes i8 v h = refl
  length-value_bytes u16 v h = refl
  length-value_bytes i16 v h = refl
  length-value_bytes u32 v h = refl
  length-value_bytes i32 v h = refl
  length-value_bytes u64 v h = refl
  length-value_bytes i64 v h = refl
  length-value_bytes f32 v h = refl
  length-value_bytes f64 v h = refl
  length-value_bytes (bytes n) v h = h
  length-value_bytes (enum t) v h = length-value_bytes t v h
  length-value_bytes (aggregate ms) v h = length-members_bytes ms v h

  pub length-members_bytes :
      (ms : Members) (v : Values ms)
      → MembersFit ms v
      → length (members_bytes ms v) ≡ members_size ms
  length-members_bytes no_members v h = refl
  length-members_bytes (member t ms) v h = omega (
    arith,
    length-append (value_bytes t v.0) (members_bytes ms v.1),
    length-value_bytes t v.0 h.0,
    length-members_bytes ms v.1 h.1,
  )

copy_to-Writes : (v : List ℕ) → Writes (λ p o. (copy_to p o v, length v)) v
unfolding copy_to
copy_to-Writes [] front p off e h = λ i. (sym (append-nil front) i ++ p, 0)
copy_to-Writes (b ∷ bs) front p off e h =
    let first = ap (λ l. copy_to l (off + 1) bs) (set-append_byte front p off b e (omega arith)) in
    let rest =
      ap (λ (s : List ℕ × ℕ). s.0)
        (copy_to-Writes bs (front ++ b ∷ []) (drop 1 p) (off + 1)
          (omega (arith, length-append front (b ∷ []))) (omega (arith, length-drop 1 p))) in
    let both = first ∙ rest in
    λ i. (
      (both ∙ λ j.
            append_assoc front (b ∷ []) bs j
            ++ drop-drop 1 (length bs) (suc (length bs)) p (omega arith) j)
          i,
      suc (length bs),
    )

copy_from-Reads : (n : ℕ) (v : List ℕ) → length v ≡ n → Reads (λ p o. copy_from n p o) v v
unfolding copy_from
copy_from-Reads zero [] h front p off e = refl
copy_from-Reads zero (b ∷ bs) h front p off e = absurd (omega arith)
copy_from-Reads (suc n) [] h front p off e = absurd (omega arith)
copy_from-Reads (suc n) (b ∷ bs) h front p off e =
    let split = sym (append_assoc front (b ∷ []) bs) in
    let here : byte ((front ++ b ∷ bs) ++ p) off ≡ b =
      ap (λ l. byte l off)
        (append_assoc front (b ∷ bs) p ∙ sym (append_assoc front (b ∷ []) (bs ++ p)))
      ∙ byte-append front (bs ++ p) off b e in
    let later =
      ap (λ l. copy_from n (l ++ p) (off + 1)) split
      ∙ copy_from-Reads n bs (omega arith) (front ++ b ∷ []) p (off + 1)
          (omega (arith, length-append front (b ∷ []))) in
    λ i. here i ∷ later i

zero-add : (n : ℕ) → 0 + n ≡ n
zero-add n = omega arith

add-zero : (n : ℕ) → n + 0 ≡ n
add-zero n = omega arith

add_three : (a b c : ℕ) → a + b + c ≡ a + (b + c)
add_three a b c = omega arith

sum : (n : ℕ) (b bs : List ℕ) → n + length b + length bs ≡ n + length (b ++ bs)
sum n b bs = omega (arith, length-append b bs)

mutual
  unfolding serialize_field value_bytes

  pub serialize_field-Writes :
      (t : FieldType) (v : Value t)
      → FieldFits t v
      → Writes (λ p o. serialize_field t p o v) (value_bytes t v)
  serialize_field-Writes bool v h = (bool-Codes v).0
  serialize_field-Writes u8 v h = (u8-Codes v).0
  serialize_field-Writes i8 v h = (i8-Codes v h).0
  serialize_field-Writes u16 v h = (u16-Codes v h).0
  serialize_field-Writes i16 v h = (i16-Codes v h).0
  serialize_field-Writes u32 v h = (u32-Codes v h).0
  serialize_field-Writes i32 v h = (i32-Codes v h).0
  serialize_field-Writes u64 v h = (u64-Codes v h).0
  serialize_field-Writes i64 v h = (i64-Codes v h).0
  serialize_field-Writes f32 v h = (f32-Codes v h).0
  serialize_field-Writes f64 v h = (f64-Codes v h).0
  serialize_field-Writes (bytes n) v h = copy_to-Writes v
  serialize_field-Writes (enum t) v h = serialize_field-Writes t v h
  serialize_field-Writes (aggregate ms) v h = λ front p off e room.
      serialize_members-Writes ms v h front p off 0 (omega arith) room ∙ λ i. (
        (front ++ members_bytes ms v) ++ drop (length (members_bytes ms v)) p,
        zero-add (length (members_bytes ms v)) i,
      )

  pub serialize_members-Writes :
      (ms : Members) (v : Values ms)
      → MembersFit ms v
      → (front p : List ℕ) (out offset : ℕ) → out + offset ≡ length front
      → length (members_bytes ms v) ≤ length p
      → serialize_members ms (front ++ p) out offset v ≡ (
        (front ++ members_bytes ms v) ++ drop (length (members_bytes ms v)) p,
        offset + length (members_bytes ms v),
      )
  serialize_members-Writes no_members v h front p out offset e room =
      λ i. (sym (append-nil front) i ++ p, sym (add-zero offset) i)
  serialize_members-Writes (member t ms) v h front p out offset e room =
      let b = value_bytes t v.0 in
      let bs = members_bytes ms v.1 in
      let both = length-append b bs in
      let first = serialize_field-Writes t v.0 h.0 front p (out + offset) e (omega (arith, both)) in
      let rest =
        serialize_members-Writes ms v.1 h.1 (front ++ b) (drop (length b) p) out (offset + length b)
          (omega (arith, length-append front b)) (omega (arith, both, length-drop (length b) p)) in
      ap (λ (s : List ℕ × ℕ). serialize_members ms s.0 out (offset + s.1) v.1) first ∙ rest ∙ λ i. (
        append_assoc front b bs i ++ drop-drop (length b) (length bs) (length (b ++ bs)) p both i,
        sum offset b bs i,
      )

mutual
  unfolding deserialize_field value_bytes

  pub deserialize_field-Reads :
      (t : FieldType) (v : Value t)
      → FieldFits t v
      → Reads (λ p o. deserialize_field t p o) (value_bytes t v) (v, wire_size t)
  deserialize_field-Reads bool v h = λ front p off e i. ((bool-Codes v).1 front p off e i, 1)
  deserialize_field-Reads u8 v h = λ front p off e i. ((u8-Codes v).1 front p off e i, 1)
  deserialize_field-Reads i8 v h = λ front p off e i. ((i8-Codes v h).1 front p off e i, 1)
  deserialize_field-Reads u16 v h = λ front p off e i. ((u16-Codes v h).1 front p off e i, 2)
  deserialize_field-Reads i16 v h = λ front p off e i. ((i16-Codes v h).1 front p off e i, 2)
  deserialize_field-Reads u32 v h = λ front p off e i. ((u32-Codes v h).1 front p off e i, 4)
  deserialize_field-Reads i32 v h = λ front p off e i. ((i32-Codes v h).1 front p off e i, 4)
  deserialize_field-Reads u64 v h = λ front p off e i. ((u64-Codes v h).1 front p off e i, 8)
  deserialize_field-Reads i64 v h = λ front p off e i. ((i64-Codes v h).1 front p off e i, 8)
  deserialize_field-Reads f32 v h = λ front p off e i. ((f32-Codes v h).1 front p off e i, 4)
  deserialize_field-Reads f64 v h = λ front p off e i. ((f64-Codes v h).1 front p off e i, 8)
  deserialize_field-Reads (bytes n) v h =
      λ front p off e i. (copy_from-Reads n v h front p off e i, n)
  deserialize_field-Reads (enum t) v h = deserialize_field-Reads t v h
  deserialize_field-Reads (aggregate ms) v h = λ front p off e.
      deserialize_members-Reads ms v h front p off 0 (omega arith) ∙ λ i.
      (v, zero-add (members_size ms) i)

  pub deserialize_members-Reads :
      (ms : Members) (v : Values ms)
      → MembersFit ms v
      → (front p : List ℕ) (at offset : ℕ) → at + offset ≡ length front
      → deserialize_members ms ((front ++ members_bytes ms v) ++ p) at offset
        ≡ (v, offset + members_size ms)
  deserialize_members-Reads no_members v h front p at offset e = λ i. (v, sym (add-zero offset) i)
  deserialize_members-Reads (member t ms) v h front p at offset e =
      let b = value_bytes t v.0 in
      let bs = members_bytes ms v.1 in
      let size = length-value_bytes t v.0 h.0 in
      let own : (front ++ (b ++ bs)) ++ p ≡ (front ++ b) ++ (bs ++ p) =
        ap (λ l. l ++ p) (sym (append_assoc front b bs)) ∙ append_assoc (front ++ b) bs p in
      let rest_at : (front ++ (b ++ bs)) ++ p ≡ ((front ++ b) ++ bs) ++ p =
        ap (λ l. l ++ p) (sym (append_assoc front b bs)) in
      let first =
        ap (λ l. deserialize_field t l (at + offset)) own
        ∙ deserialize_field-Reads t v.0 h.0 front (bs ++ p) (at + offset) e in
      let rest =
        deserialize_members-Reads ms v.1 h.1 (front ++ b) p at (offset + wire_size t)
          (omega (arith, length-append front b, size)) in
      (λ i.
        let (w, n) = first i in
        let (ws, total) = deserialize_members ms (rest_at i) at (offset + n) in ((w, ws), total))
      ∙ (λ i. ((v.0, (rest i).0), (rest i).1))
      ∙ λ i. (v, add_three offset (wire_size t) (members_size ms) i)
