-- ===== src/Wire/Primitive/RoundTrip.antt =====
-- Numbers of fixed width survive the wire, wherever they stand in a buffer.
use bsomeip.Common.{
  ℕ, ◌+◌, ◌*◌, ◌/◌, ◌%◌, ◌^◌, ◌≤◌, ◌<◌, bit_or, ◌≡◌, refl, sym, ap, ◌∙◌, Bool, true, false, not,
  ◌==◌, if◌then◌else◌, List, [], ◌∷◌, ◌++◌, append_assoc, length, length-append, length-drop, drop,
  drop-drop, arith,
}
use bsomeip.Common.Bits.{or_disjoint}
use bsomeip.Common.Int.{
  ℤ, to_unsigned, to_signed, FitsSigned, to_signed-to_unsigned8, to_signed-to_unsigned16,
  to_signed-to_unsigned32, to_signed-to_unsigned64,
}
use bsomeip.Wire.Bytes.{read_u32_be, write_u32_be}
use bsomeip.Wire.Bytes.Append.{
  set-append_byte, byte-append, u16_bytes, write_u16_be-append, read_u16_be-append, u32_bytes,
  write_u32_be-append, read_u32_be-append,
}
use bsomeip.Wire.Primitive.{
  serialize_u8, serialize_bool, serialize_i8, serialize_u16, serialize_i16, serialize_u32,
  serialize_i32, serialize_u64, serialize_i64, serialize_f32, serialize_f64, deserialize_u8,
  deserialize_bool, deserialize_i8, deserialize_u16, deserialize_i16, deserialize_u32,
  deserialize_i32, deserialize_u64, deserialize_i64, deserialize_f32, deserialize_f64,
}

-- A writer puts these bytes where it is told, in place of as many.
abbrev pub Writes : (List ℕ → ℕ → List ℕ × ℕ) → List ℕ → Type 0
Writes write bs =
    (front p : List ℕ) (off : ℕ)
    → off ≡ length front
    → length bs ≤ length p
    → write (front ++ p) off ≡ ((front ++ bs) ++ drop (length bs) p, length bs)

-- A reader takes this value from these bytes, wherever they stand.
abbrev pub Reads : {A : Type 0} → (List ℕ → ℕ → A) → List ℕ → A → Type 0
Reads {A} read bs v =
    (front p : List ℕ) (off : ℕ) → off ≡ length front → read ((front ++ bs) ++ p) off ≡ v

-- Both, for values that are written and read as the same bytes.
abbrev pub Codes :
    {A : Type 0} → (A → List ℕ → ℕ → List ℕ × ℕ) → (List ℕ → ℕ → A) → (A → List ℕ) → A → Type 0
Codes write read bytes v = Writes (write v) (bytes v) × Reads read (bytes v) v

unfoldable pub u64_bytes : ℕ → List ℕ
u64_bytes v = u32_bytes (v / 2 ^ 32 % 2 ^ 32) ++ u32_bytes (v % 2 ^ 32)

pub bool-Codes :
    (v : Bool)
    → Codes (λ v p o. serialize_bool p o v) deserialize_bool (λ v. (if v then 1 else 0) ∷ []) v
unfolding serialize_bool deserialize_bool
bool-Codes v = (
  (λ front p off e h i. (set-append_byte front p off (if v then 1 else 0) e h i, 1)),
  (λ front p off e.
      ap (λ b. not (b == 0)) (byte-append front p off (if v then 1 else 0) e) ∙ bit_read v),
)
  where
    bit_read : (v : Bool) → not ((if v then 1 else 0) == 0) ≡ v
    bit_read true = refl
    bit_read false = refl

pub u8-Codes : (v : ℕ) → Codes (λ v p o. serialize_u8 p o v) deserialize_u8 (λ v. v ∷ []) v
unfolding serialize_u8 deserialize_u8
u8-Codes v = (
  (λ front p off e h i. (set-append_byte front p off v e h i, 1)),
  (λ front p off e. byte-append front p off v e),
)

pub u16-Codes :
    (v : ℕ) → v < 2 ^ 16 → Codes (λ v p o. serialize_u16 p o v) deserialize_u16 u16_bytes v
unfolding serialize_u16 deserialize_u16 u16_bytes
u16-Codes v small = (
  (λ front p off e h i. (write_u16_be-append front p off v e h i, 2)),
  (λ front p off e. read_u16_be-append front p off v e small),
)

pub u32-Codes :
    (v : ℕ) → v < 2 ^ 32 → Codes (λ v p o. serialize_u32 p o v) deserialize_u32 u32_bytes v
unfolding serialize_u32 deserialize_u32 u32_bytes
u32-Codes v small = (
  (λ front p off e h i. (write_u32_be-append front p off v e h i, 4)),
  (λ front p off e. read_u32_be-append front p off v e small),
)

pub u64-Codes :
    (v : ℕ) → v < 2 ^ 64 → Codes (λ v p o. serialize_u64 p o v) deserialize_u64 u64_bytes v
unfolding serialize_u64 deserialize_u64 u64_bytes u32_bytes
u64-Codes v small =
    let hi = v / 2 ^ 32 % 2 ^ 32 in
    let lo = v % 2 ^ 32 in
    (
      (λ front p off e h.
          let first = write_u32_be-append front p off hi e (omega arith) in
          let second =
            write_u32_be-append (front ++ u32_bytes hi) (drop 4 p) (off + 4) lo
              (omega (arith, length-append front (u32_bytes hi)))
              (omega (arith, length-drop 4 p)) in
          let both = ap (λ l. write_u32_be l (off + 4) lo) first ∙ second in
          λ i. (
            (both ∙ λ j.
                  append_assoc front (u32_bytes hi) (u32_bytes lo) j ++ drop-drop 4 4 8 p refl j)
                i,
            8,
          )),
      (λ front p off e.
          let two = sym (append_assoc front (u32_bytes hi) (u32_bytes lo)) in
          let one : (front ++ u64_bytes v) ++ p ≡ (front ++ u32_bytes hi) ++ (u32_bytes lo ++ p) =
            ap (λ l. l ++ p) two ∙ append_assoc (front ++ u32_bytes hi) (u32_bytes lo) p in
          let r_hi =
            ap (λ l. read_u32_be l off) one
            ∙ read_u32_be-append front (u32_bytes lo ++ p) off hi e (omega arith) in
          let r_lo =
            ap (λ l. read_u32_be (l ++ p) (off + 4)) two
            ∙ read_u32_be-append (front ++ u32_bytes hi) p (off + 4) lo
                (omega (arith, length-append front (u32_bytes hi))) (omega arith) in
          (λ i. bit_or (r_hi i * 2 ^ 32) (r_lo i))
          ∙ or_disjoint 32 (hi * 2 ^ 32) lo hi refl (omega arith)
          ∙ omega arith),
    )

to_unsigned16-lt : (z : ℤ) → to_unsigned 16 z < 2 ^ 16
to_unsigned16-lt (ℤ.pos n) = omega arith
to_unsigned16-lt (ℤ.negsuc n) = omega arith

to_unsigned32-lt : (z : ℤ) → to_unsigned 32 z < 2 ^ 32
to_unsigned32-lt (ℤ.pos n) = omega arith
to_unsigned32-lt (ℤ.negsuc n) = omega arith

to_unsigned64-lt : (z : ℤ) → to_unsigned 64 z < 2 ^ 64
to_unsigned64-lt (ℤ.pos n) = omega arith
to_unsigned64-lt (ℤ.negsuc n) = omega arith

pub i8-Codes :
    (v : ℤ)
    → FitsSigned 8 v
    → Codes (λ v p o. serialize_i8 p o v) deserialize_i8 (λ v. to_unsigned 8 v ∷ []) v
unfolding serialize_i8 deserialize_i8
i8-Codes v fits = (
  (λ front p off e h i. (set-append_byte front p off (to_unsigned 8 v) e h i, 1)),
  (λ front p off e.
      ap (to_signed 8) (byte-append front p off (to_unsigned 8 v) e)
      ∙ to_signed-to_unsigned8 v fits),
)

pub i16-Codes :
    (v : ℤ)
    → FitsSigned 16 v
    → Codes (λ v p o. serialize_i16 p o v) deserialize_i16 (λ v. u16_bytes (to_unsigned 16 v)) v
unfolding serialize_i16 deserialize_i16 serialize_u16 deserialize_u16
i16-Codes v fits =
    let (writes, reads) = u16-Codes (to_unsigned 16 v) (to_unsigned16-lt v) in
    (
      writes,
      (λ front p off e. ap (to_signed 16) (reads front p off e) ∙ to_signed-to_unsigned16 v fits),
    )

pub i32-Codes :
    (v : ℤ)
    → FitsSigned 32 v
    → Codes (λ v p o. serialize_i32 p o v) deserialize_i32 (λ v. u32_bytes (to_unsigned 32 v)) v
unfolding serialize_i32 deserialize_i32 serialize_u32 deserialize_u32
i32-Codes v fits =
    let (writes, reads) = u32-Codes (to_unsigned 32 v) (to_unsigned32-lt v) in
    (
      writes,
      (λ front p off e. ap (to_signed 32) (reads front p off e) ∙ to_signed-to_unsigned32 v fits),
    )

pub i64-Codes :
    (v : ℤ)
    → FitsSigned 64 v
    → Codes (λ v p o. serialize_i64 p o v) deserialize_i64 (λ v. u64_bytes (to_unsigned 64 v)) v
unfolding serialize_i64 deserialize_i64
i64-Codes v fits =
    let (writes, reads) = u64-Codes (to_unsigned 64 v) (to_unsigned64-lt v) in
    (
      writes,
      (λ front p off e. ap (to_signed 64) (reads front p off e) ∙ to_signed-to_unsigned64 v fits),
    )

pub f32-Codes :
    (bits : ℕ) → bits < 2 ^ 32 → Codes (λ v p o. serialize_f32 p o v) deserialize_f32 u32_bytes bits
unfolding serialize_f32 deserialize_f32 serialize_u32 deserialize_u32
f32-Codes bits small = u32-Codes bits small

pub f64-Codes :
    (bits : ℕ) → bits < 2 ^ 64 → Codes (λ v p o. serialize_f64 p o v) deserialize_f64 u64_bytes bits
unfolding serialize_f64 deserialize_f64
f64-Codes bits small = u64-Codes bits small
