-- ===== src/Wire/Bytes/Append.antt =====
-- Big-endian writes and reads behind what is there.
use bsomeip.Common.{
  ℕ, ◌+◌, ◌*◌, ◌/◌, ◌%◌, ◌^◌, ◌≤◌, ◌<◌, bit_or, ◌≡◌, refl, sym, ap, ◌∙◌, List, [], ◌∷◌, ◌++◌,
  append_assoc, length, drop, get_or-append, set, set-append, arith,
}
use bsomeip.Wire.Bytes.{byte, read_u16_be, read_u32_be, write_u16_be, write_u32_be}
use bsomeip.Wire.Bytes.Laws.{read-write_u16_be, read-write_u32_be}

pub set-append_byte :
    (front p : List ℕ) (off b : ℕ)
    → off ≡ length front
    → 1 ≤ length p
    → set (front ++ p) off b ≡ (front ++ b ∷ []) ++ drop 1 p
set-append_byte front (a ∷ p) off b e h =
    set-append front (a ∷ p) off 0 b (omega arith) ∙ sym (append_assoc front (b ∷ []) p)
set-append_byte front [] off b e h = absurd (omega arith)

pub byte-append :
    (front p : List ℕ) (off b : ℕ) → off ≡ length front → byte ((front ++ b ∷ []) ++ p) off ≡ b
byte-append front p off b e =
    ap (λ l. byte l off) (append_assoc front (b ∷ []) p)
    ∙ get_or-append front (b ∷ p) off 0 0 (omega arith)

unfoldable pub u16_bytes : ℕ → List ℕ
u16_bytes v = (v / 2 ^ 8 % 2 ^ 8) ∷ (v % 2 ^ 8) ∷ []

pub write_u16_be-append :
    (front p : List ℕ) (off v : ℕ)
    → off ≡ length front
    → 2 ≤ length p
    → write_u16_be (front ++ p) off v ≡ (front ++ u16_bytes v) ++ drop 2 p
unfolding write_u16_be u16_bytes
write_u16_be-append front (a ∷ b ∷ p) off v e h =
    let v0 = v / 2 ^ 8 % 2 ^ 8 in
    ap (λ l. set l (off + 1) (v % 2 ^ 8)) (set-append front (a ∷ b ∷ p) off 0 v0 (omega arith))
    ∙ set-append front (v0 ∷ b ∷ p) (off + 1) 1 (v % 2 ^ 8) (omega arith)
    ∙ sym (append_assoc front (u16_bytes v) p)
write_u16_be-append front _ off v e h = absurd (omega arith)

read_u16_be-behind :
    (front p : List ℕ) (off : ℕ)
    → off ≡ length front
    → read_u16_be (front ++ p) off ≡ read_u16_be p 0
unfolding read_u16_be
read_u16_be-behind front p off e =
    let b0 = get_or-append front p off 0 0 (omega arith) in
    let b1 = get_or-append front p (off + 1) 1 0 (omega arith) in
    λ i. bit_or (b0 i * 2 ^ 8) (b1 i) % 2 ^ 16

u16_bytes-write : (v : ℕ) (p : List ℕ) → u16_bytes v ++ p ≡ write_u16_be (0 ∷ 0 ∷ p) 0 v
unfolding u16_bytes write_u16_be
u16_bytes-write v p = refl

pub read_u16_be-append :
    (front p : List ℕ) (off v : ℕ)
    → off ≡ length front
    → v < 2 ^ 16
    → read_u16_be ((front ++ u16_bytes v) ++ p) off ≡ v
read_u16_be-append front p off v e h =
    ap (λ l. read_u16_be l off) (append_assoc front (u16_bytes v) p)
    ∙ read_u16_be-behind front (u16_bytes v ++ p) off e
    ∙ ap (λ l. read_u16_be l 0) (u16_bytes-write v p)
    ∙ read-write_u16_be (0 ∷ 0 ∷ p) 0 v (omega arith) h

unfoldable pub u32_bytes : ℕ → List ℕ
u32_bytes v = (v / 2 ^ 24 % 2 ^ 8) ∷ (v / 2 ^ 16 % 2 ^ 8) ∷ (v / 2 ^ 8 % 2 ^ 8) ∷ (v % 2 ^ 8) ∷ []

-- A number written behind a front.
pub write_u32_be-append :
    (front p : List ℕ) (off v : ℕ)
    → off ≡ length front
    → 4 ≤ length p
    → write_u32_be (front ++ p) off v ≡ (front ++ u32_bytes v) ++ drop 4 p
unfolding write_u32_be u32_bytes
write_u32_be-append front (a ∷ b ∷ c ∷ d ∷ p) off v e h =
    let v0 = v / 2 ^ 24 % 2 ^ 8 in
    let v1 = v / 2 ^ 16 % 2 ^ 8 in
    let v2 = v / 2 ^ 8 % 2 ^ 8 in
    ap (λ l. set (set (set l (off + 1) v1) (off + 2) v2) (off + 3) (v % 2 ^ 8))
      (set-append front (a ∷ b ∷ c ∷ d ∷ p) off 0 v0 (omega arith))
    ∙ ap (λ l. set (set l (off + 2) v2) (off + 3) (v % 2 ^ 8))
        (set-append front (v0 ∷ b ∷ c ∷ d ∷ p) (off + 1) 1 v1 (omega arith))
    ∙ ap (λ l. set l (off + 3) (v % 2 ^ 8))
        (set-append front (v0 ∷ v1 ∷ c ∷ d ∷ p) (off + 2) 2 v2 (omega arith))
    ∙ set-append front (v0 ∷ v1 ∷ v2 ∷ d ∷ p) (off + 3) 3 (v % 2 ^ 8) (omega arith)
    ∙ sym (append_assoc front (u32_bytes v) p)
write_u32_be-append front _ off v e h = absurd (omega arith)

pub read_u32_be-behind :
    (front p : List ℕ) (off : ℕ)
    → off ≡ length front
    → read_u32_be (front ++ p) off ≡ read_u32_be p 0
unfolding read_u32_be
read_u32_be-behind front p off e =
    let b0 = get_or-append front p off 0 0 (omega arith) in
    let b1 = get_or-append front p (off + 1) 1 0 (omega arith) in
    let b2 = get_or-append front p (off + 2) 2 0 (omega arith) in
    let b3 = get_or-append front p (off + 3) 3 0 (omega arith) in
    λ i. bit_or (bit_or (bit_or (b0 i * 2 ^ 24) (b1 i * 2 ^ 16)) (b2 i * 2 ^ 8)) (b3 i)

u32_bytes-write : (v : ℕ) (p : List ℕ) → u32_bytes v ++ p ≡ write_u32_be (0 ∷ 0 ∷ 0 ∷ 0 ∷ p) 0 v
unfolding u32_bytes write_u32_be
u32_bytes-write v p = refl

-- And read there.
pub read_u32_be-append :
    (front p : List ℕ) (off v : ℕ)
    → off ≡ length front
    → v < 2 ^ 32
    → read_u32_be ((front ++ u32_bytes v) ++ p) off ≡ v
read_u32_be-append front p off v e h =
    ap (λ l. read_u32_be l off) (append_assoc front (u32_bytes v) p)
    ∙ read_u32_be-behind front (u32_bytes v ++ p) off e
    ∙ ap (λ l. read_u32_be l 0) (u32_bytes-write v p)
    ∙ read-write_u32_be (0 ∷ 0 ∷ 0 ∷ 0 ∷ p) 0 v (omega arith) h
