-- ===== src/Wire/Bytes/Laws.antt =====
-- Big-endian reads after writes.
use bsomeip.Common.{
  drop, drop-set, set, ◌/◌, IsByte, ℕ, ◌+◌, ◌*◌, ◌/◌, ◌%◌, ◌^◌, ◌≤◌, ◌<◌, ◌≡◌, ◌⊎◌, refl, ◌∙◌,
  arith, List, length, set, length-set, get_or-set_self, get_or-set_ne,
}
use bsomeip.Common.Bits.{or_disjoint}
use bsomeip.Platform.ByteOrder.Reverse.{or_four}
use bsomeip.Wire.Bytes.{byte, read_u16_be, read_u32_be, write_u16_be, write_u32_be}

pub read_u16_be_lem :
    (p : List ℕ) (o : ℕ)
    → IsByte (byte p o)
    → IsByte (byte p (o + 1))
    → read_u16_be p o ≡ byte p o * 2 ^ 8 + byte p (o + 1)
unfolding read_u16_be
read_u16_be_lem p o h0 h1 =
    omega (arith, or_disjoint 8 (byte p o * 2 ^ 8) (byte p (o + 1)) (byte p o) refl h1)

pub read_u32_be_lem :
    (p : List ℕ) (o : ℕ)
    → IsByte (byte p (o + 1))
    → IsByte (byte p (o + 2))
    → IsByte (byte p (o + 3))
    → read_u32_be p o
      ≡ byte p o * 2 ^ 24 + byte p (o + 1) * 2 ^ 16 + byte p (o + 2) * 2 ^ 8 + byte p (o + 3)
unfolding read_u32_be
read_u32_be_lem p o h1 h2 h3 = or_four _ _ _ _ h1 h2 h3

pub length-write_u16_be : (p : List ℕ) (o v : ℕ) → length (write_u16_be p o v) ≡ length p
unfolding write_u16_be
length-write_u16_be p o v = length-set _ _ _ ∙ length-set _ _ _

pub length-write_u32_be : (p : List ℕ) (o v : ℕ) → length (write_u32_be p o v) ≡ length p
unfolding write_u32_be
length-write_u32_be p o v =
    length-set _ _ _ ∙ length-set _ _ _ ∙ length-set _ _ _ ∙ length-set _ _ _

-- A write leaves the bytes before and behind it.
pub byte-write_u16_be :
    (p : List ℕ) (o v j : ℕ) → (j < o) ⊎ (o + 2 ≤ j) → byte (write_u16_be p o v) j ≡ byte p j
unfolding write_u16_be
byte-write_u16_be p o v j h =
    get_or-set_ne _ (o + 1) j _ 0 (omega arith) ∙ get_or-set_ne _ o j _ 0 (omega arith)

pub byte-write_u32_be :
    (p : List ℕ) (o v j : ℕ) → (j < o) ⊎ (o + 4 ≤ j) → byte (write_u32_be p o v) j ≡ byte p j
unfolding write_u32_be
byte-write_u32_be p o v j h =
    get_or-set_ne _ (o + 3) j _ 0 (omega arith)
    ∙ get_or-set_ne _ (o + 2) j _ 0 (omega arith)
    ∙ get_or-set_ne _ (o + 1) j _ 0 (omega arith)
    ∙ get_or-set_ne _ o j _ 0 (omega arith)

pub write_u16_be_bytes :
    (p : List ℕ) (o v : ℕ)
    → o + 2 ≤ length p
    → (byte (write_u16_be p o v) o ≡ v / 2 ^ 8 % 2 ^ 8)
      × (byte (write_u16_be p o v) (o + 1) ≡ v % 2 ^ 8)
unfolding write_u16_be
write_u16_be_bytes p o v h = (
  get_or-set_ne _ (o + 1) o _ 0 (omega arith) ∙ get_or-set_self _ o _ 0 (omega arith),
  get_or-set_self _ (o + 1) _ 0 (omega (arith, length-set p o (v / 2 ^ 8 % 2 ^ 8))),
)

-- A 16-bit number is read back where it was written.
pub read-write_u16_be :
    (p : List ℕ) (o v : ℕ) → o + 2 ≤ length p → v < 2 ^ 16 → read_u16_be (write_u16_be p o v) o ≡ v
read-write_u16_be p o v h hv =
    let (b0, b1) = write_u16_be_bytes p o v h in
    omega (arith, read_u16_be_lem (write_u16_be p o v) o (omega arith) (omega arith))

pub write_u32_be_bytes :
    (p : List ℕ) (o v : ℕ)
    → o + 4 ≤ length p
    → (byte (write_u32_be p o v) o ≡ v / 2 ^ 24 % 2 ^ 8)
      × (byte (write_u32_be p o v) (o + 1) ≡ v / 2 ^ 16 % 2 ^ 8)
      × (byte (write_u32_be p o v) (o + 2) ≡ v / 2 ^ 8 % 2 ^ 8)
      × (byte (write_u32_be p o v) (o + 3) ≡ v % 2 ^ 8)
unfolding write_u32_be
write_u32_be_bytes p o v h =
    let p0 = set p o (v / 2 ^ 24 % 2 ^ 8) in
    let p1 = set p0 (o + 1) (v / 2 ^ 16 % 2 ^ 8) in
    let p2 = set p1 (o + 2) (v / 2 ^ 8 % 2 ^ 8) in
    let l0 = length-set p o (v / 2 ^ 24 % 2 ^ 8) in
    let l1 = length-set p0 (o + 1) (v / 2 ^ 16 % 2 ^ 8) in
    let l2 = length-set p1 (o + 2) (v / 2 ^ 8 % 2 ^ 8) in
    (
      get_or-set_ne p2 (o + 3) o _ 0 (omega arith)
          ∙ get_or-set_ne p1 (o + 2) o _ 0 (omega arith)
          ∙ get_or-set_ne p0 (o + 1) o _ 0 (omega arith)
          ∙ get_or-set_self p o _ 0 (omega arith),
      get_or-set_ne p2 (o + 3) (o + 1) _ 0 (omega arith)
          ∙ get_or-set_ne p1 (o + 2) (o + 1) _ 0 (omega arith)
          ∙ get_or-set_self p0 (o + 1) _ 0 (omega arith),
      get_or-set_ne p2 (o + 3) (o + 2) _ 0 (omega arith)
          ∙ get_or-set_self p1 (o + 2) _ 0 (omega arith),
      get_or-set_self p2 (o + 3) _ 0 (omega arith),
    )

-- A 32-bit number is read back where it was written.
pub read-write_u32_be :
    (p : List ℕ) (o v : ℕ) → o + 4 ≤ length p → v < 2 ^ 32 → read_u32_be (write_u32_be p o v) o ≡ v
read-write_u32_be p o v h hv =
    let (b0, b1, b2, b3) = write_u32_be_bytes p o v h in
    omega (arith, read_u32_be_lem (write_u32_be p o v) o (omega arith) (omega arith) (omega arith))

-- Nor does a write touch what is behind it.
pub drop-write_u32_be :
    (n : ℕ) (p : List ℕ) (o v : ℕ) → o + 4 ≤ n → drop n (write_u32_be p o v) ≡ drop n p
unfolding write_u32_be
drop-write_u32_be n p o v h =
    let p0 = set p o (v / 2 ^ 24 % 2 ^ 8) in
    let p1 = set p0 (o + 1) (v / 2 ^ 16 % 2 ^ 8) in
    let p2 = set p1 (o + 2) (v / 2 ^ 8 % 2 ^ 8) in
    drop-set n (o + 3) (v % 2 ^ 8) p2 (omega arith)
    ∙ drop-set n (o + 2) (v / 2 ^ 8 % 2 ^ 8) p1 (omega arith)
    ∙ drop-set n (o + 1) (v / 2 ^ 16 % 2 ^ 8) p0 (omega arith)
    ∙ drop-set n o (v / 2 ^ 24 % 2 ^ 8) p (omega arith)
