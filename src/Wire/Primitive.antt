-- ===== src/Wire/Primitive.antt =====
-- include/bsomeip/wire/codec.hpp: numbers of fixed width as big-endian bytes. A float is its bit
-- pattern, which is all that the code copies of it.
pub mod RoundTrip
use bsomeip.Common.{ℕ, ◌+◌, ◌*◌, ◌/◌, ◌%◌, ◌^◌, bit_or, Bool, not, List, set, ◌==◌, if◌then◌else◌}
use bsomeip.Common.Int.{ℤ, to_unsigned, to_signed}
use bsomeip.Wire.Bytes.{byte, read_u16_be, read_u32_be, write_u16_be, write_u32_be}

-- The overloads of `serialize_primitive`: the buffer, and the bytes written.
unfoldable pub serialize_u8 : List ℕ → (out : ℕ) → ℕ → List ℕ × ℕ
serialize_u8 p out v = (set p out v, 1)

unfoldable pub serialize_bool : List ℕ → (out : ℕ) → Bool → List ℕ × ℕ
serialize_bool p out v = (set p out (if v then 1 else 0), 1)

unfoldable pub serialize_i8 : List ℕ → (out : ℕ) → ℤ → List ℕ × ℕ
serialize_i8 p out v = (set p out (to_unsigned 8 v), 1)

unfoldable pub serialize_u16 : List ℕ → (out : ℕ) → ℕ → List ℕ × ℕ
unfolding write_u16_be
serialize_u16 p out v = (write_u16_be p out v, 2)

unfoldable pub serialize_i16 : List ℕ → (out : ℕ) → ℤ → List ℕ × ℕ
unfolding write_u16_be
serialize_i16 p out v = (write_u16_be p out (to_unsigned 16 v), 2)

unfoldable pub serialize_u32 : List ℕ → (out : ℕ) → ℕ → List ℕ × ℕ
unfolding write_u32_be
serialize_u32 p out v = (write_u32_be p out v, 4)

unfoldable pub serialize_i32 : List ℕ → (out : ℕ) → ℤ → List ℕ × ℕ
unfolding write_u32_be
serialize_i32 p out v = (write_u32_be p out (to_unsigned 32 v), 4)

unfoldable pub serialize_u64 : List ℕ → (out : ℕ) → ℕ → List ℕ × ℕ
unfolding write_u32_be
serialize_u64 p out v =
    (write_u32_be (write_u32_be p out (v / 2 ^ 32 % 2 ^ 32)) (out + 4) (v % 2 ^ 32), 8)

unfoldable pub serialize_i64 : List ℕ → (out : ℕ) → ℤ → List ℕ × ℕ
unfolding serialize_u64
serialize_i64 p out v = serialize_u64 p out (to_unsigned 64 v)

unfoldable pub serialize_f32 : List ℕ → (out : ℕ) → (bits : ℕ) → List ℕ × ℕ
unfolding write_u32_be
serialize_f32 p out bits = (write_u32_be p out bits, 4)

unfoldable pub serialize_f64 : List ℕ → (out : ℕ) → (bits : ℕ) → List ℕ × ℕ
unfolding serialize_u64
serialize_f64 p out bits = serialize_u64 p out bits

unfoldable pub deserialize_u8 : List ℕ → (p : ℕ) → ℕ
deserialize_u8 buf p = byte buf p

unfoldable pub deserialize_i8 : List ℕ → (p : ℕ) → ℤ
deserialize_i8 buf p = to_signed 8 (byte buf p)

unfoldable pub deserialize_bool : List ℕ → (p : ℕ) → Bool
deserialize_bool buf p = not (byte buf p == 0)

unfoldable pub deserialize_u16 : List ℕ → (p : ℕ) → ℕ
unfolding read_u16_be
deserialize_u16 buf p = read_u16_be buf p

unfoldable pub deserialize_i16 : List ℕ → (p : ℕ) → ℤ
unfolding read_u16_be
deserialize_i16 buf p = to_signed 16 (read_u16_be buf p)

unfoldable pub deserialize_u32 : List ℕ → (p : ℕ) → ℕ
unfolding read_u32_be
deserialize_u32 buf p = read_u32_be buf p

unfoldable pub deserialize_i32 : List ℕ → (p : ℕ) → ℤ
unfolding read_u32_be
deserialize_i32 buf p = to_signed 32 (read_u32_be buf p)

unfoldable pub deserialize_u64 : List ℕ → (p : ℕ) → ℕ
unfolding read_u32_be
deserialize_u64 buf p = bit_or (read_u32_be buf p * 2 ^ 32) (read_u32_be buf (p + 4))

unfoldable pub deserialize_i64 : List ℕ → (p : ℕ) → ℤ
unfolding deserialize_u64
deserialize_i64 buf p = to_signed 64 (deserialize_u64 buf p)

unfoldable pub deserialize_f32 : List ℕ → (p : ℕ) → ℕ
unfolding read_u32_be
deserialize_f32 buf p = read_u32_be buf p

unfoldable pub deserialize_f64 : List ℕ → (p : ℕ) → ℕ
unfolding deserialize_u64
deserialize_f64 buf p = deserialize_u64 buf p
