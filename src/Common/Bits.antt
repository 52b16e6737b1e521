-- ===== src/Common/Bits.antt =====
-- `&`, `|` and `^` on numbers of any width, from the recursion on binary digits that they mean.
mod Digits
use Digits.{or_step, and_step, xor_step}
use Prim.Native.Nat.{
  ℕ, zero, suc, ◌+◌, ◌*◌, ◌/◌, ◌%◌, ◌^◌, ◌≤◌, ◌<◌, min, max, bit_and, bit_or, bit_xor,
}
use mathlib.Core.Path.{◌≡◌, refl, ap, sym, ◌∙◌}
use native.Mathlib.Nat.{pow-suc, one-le-pow}
use native.Mathlib.Omega.{arith}

pub times_pow-suc : (q k : ℕ) → q * 2 ^ suc k ≡ q * 2 ^ k * 2
times_pow-suc q k = omega (arith, ap (λ (t : ℕ). q * t) (pow-suc 2 k))

-- An operation `g` that takes the digits one by one to `f` works on two fields of bits apart.
module _ (g f : ℕ → ℕ → ℕ) (step : (a b : ℕ) → g a b ≡ g (a / 2) (b / 2) * 2 + f (a % 2) (b % 2))
    (zeros : g 0 0 ≡ 0) (digit : (a b : ℕ) → a < 2 → b < 2 → f a b < 2) where
  bounded : (k a b : ℕ) → a < 2 ^ k → b < 2 ^ k → g a b < 2 ^ k
  bounded zero zero zero ha hb = omega (arith, zeros)
  bounded zero zero (suc b) ha hb = absurd (omega arith)
  bounded zero (suc a) b ha hb = absurd (omega arith)
  bounded (suc k) a b ha hb = omega (
    arith,
    pow-suc 2 k,
    step a b,
    digit (a % 2) (b % 2) (omega arith) (omega arith),
    bounded k (a / 2) (b / 2) (omega (arith, pow-suc 2 k)) (omega (arith, pow-suc 2 k)),
  )

  fields :
      (k q p r s : ℕ)
      → r < 2 ^ k
      → s < 2 ^ k
      → g (q * 2 ^ k + r) (p * 2 ^ k + s) ≡ g q p * 2 ^ k + g r s
  fields zero q p zero zero hr hs =
      let e : (n : ℕ) → n * 1 + 0 ≡ n = λ n. omega arith in rw (e q, e p) (omega (arith, zeros))
  fields zero q p zero (suc s) hr hs = absurd (omega arith)
  fields zero q p (suc r) s hr hs = absurd (omega arith)
  fields (suc k) q p r s hr hs =
      let u : (q * 2 ^ suc k + r) / 2 ≡ q * 2 ^ k + r / 2 = omega (arith, times_pow-suc q k) in
      let v : (p * 2 ^ suc k + s) / 2 ≡ p * 2 ^ k + s / 2 = omega (arith, times_pow-suc p k) in
      let m : (q * 2 ^ suc k + r) % 2 ≡ r % 2 = omega (arith, times_pow-suc q k) in
      let n : (p * 2 ^ suc k + s) % 2 ≡ s % 2 = omega (arith, times_pow-suc p k) in
      let ih : g (q * 2 ^ k + r / 2) (p * 2 ^ k + s / 2) ≡ g q p * 2 ^ k + g (r / 2) (s / 2) =
        fields k q p (r / 2) (s / 2) (omega (arith, pow-suc 2 k)) (omega (arith, pow-suc 2 k)) in
      step _ _ ∙ rw (u, v, m, n, ih) (omega (arith, step r s, times_pow-suc (g q p) k))

pub xor-lt : (k a b : ℕ) → a < 2 ^ k → b < 2 ^ k → bit_xor a b < 2 ^ k
xor-lt = bounded bit_xor (λ a b. (a + b) % 2) xor_step refl (λ a b p q. omega arith)

pub xor_fields :
    (k q p r s : ℕ)
    → r < 2 ^ k
    → s < 2 ^ k
    → bit_xor (q * 2 ^ k + r) (p * 2 ^ k + s) ≡ bit_xor q p * 2 ^ k + bit_xor r s
xor_fields = fields bit_xor (λ a b. (a + b) % 2) xor_step refl (λ a b p q. omega arith)

pub or-lt : (k a b : ℕ) → a < 2 ^ k → b < 2 ^ k → bit_or a b < 2 ^ k
or-lt = bounded bit_or max or_step refl (λ a b p q. omega arith)

or_two_fields :
    (k q p r s : ℕ)
    → r < 2 ^ k
    → s < 2 ^ k
    → bit_or (q * 2 ^ k + r) (p * 2 ^ k + s) ≡ bit_or q p * 2 ^ k + bit_or r s
or_two_fields = fields bit_or max or_step refl (λ a b p q. omega arith)

pub and_fields :
    (k q p r s : ℕ)
    → r < 2 ^ k
    → s < 2 ^ k
    → bit_and (q * 2 ^ k + r) (p * 2 ^ k + s) ≡ bit_and q p * 2 ^ k + bit_and r s
and_fields = fields bit_and min and_step refl (λ a b p q. omega arith)

-- The laws of one argument, by induction on a bound.
module _ (g h : ℕ → ℕ) (step : (a : ℕ) → g (a / 2) ≡ h (a / 2) → g a ≡ h a)
    (zeros : g 0 ≡ h 0) where
  by_halves : (n a : ℕ) → a ≤ n → g a ≡ h a
  by_halves n zero p = zeros
  by_halves zero (suc a) p = absurd (omega arith)
  by_halves (suc n) (suc a) p = step (suc a) (by_halves n (suc a / 2) (omega arith))

pub or-zero : (a : ℕ) → bit_or a 0 ≡ a
or-zero a =
    by_halves (λ a. bit_or a 0) (λ a. a) (λ a ih. omega (arith, or_step a 0, ih)) refl a a
      (omega arith)

zero-or : (a : ℕ) → bit_or 0 a ≡ a
zero-or a =
    by_halves (λ a. bit_or 0 a) (λ a. a) (λ a ih. omega (arith, or_step 0 a, ih)) refl a a
      (omega arith)

pub and-zero : (a : ℕ) → bit_and a 0 ≡ 0
and-zero a =
    by_halves (λ a. bit_and a 0) (λ a. 0) (λ a ih. omega (arith, and_step a 0, ih)) refl a a
      (omega arith)

pub xor-zero : (a : ℕ) → bit_xor a 0 ≡ a
xor-zero a =
    by_halves (λ a. bit_xor a 0) (λ a. a) (λ a ih. omega (arith, xor_step a 0, ih)) refl a a
      (omega arith)

pub zero-xor : (a : ℕ) → bit_xor 0 a ≡ a
zero-xor a =
    by_halves (λ a. bit_xor 0 a) (λ a. a) (λ a ih. omega (arith, xor_step 0 a, ih)) refl a a
      (omega arith)

pub xor_self : (a : ℕ) → bit_xor a a ≡ 0
xor_self a =
    by_halves (λ a. bit_xor a a) (λ a. 0) (λ a ih. omega (arith, xor_step a a, ih)) refl a a
      (omega arith)

-- `(q << k) | r` is a sum when `r` fits `k` bits.
pub or_fields : (k q r : ℕ) → r < 2 ^ k → bit_or (q * 2 ^ k) r ≡ q * 2 ^ k + r
or_fields k q r h =
    let e : q * 2 ^ k + 0 ≡ q * 2 ^ k = omega arith in
    let s : 0 * 2 ^ k + r ≡ r = omega arith in
    rw (← e) (
      ap (bit_or (q * 2 ^ k + 0)) (sym s)
      ∙ or_two_fields k q 0 0 r (omega arith) h
      ∙ rw (zero-or, or-zero) (omega arith))

pub xor-half : (a b : ℕ) → bit_xor a b / 2 ≡ bit_xor (a / 2) (b / 2)
xor-half a b = omega (arith, xor_step a b)

xor_comm_up_to : (n a b : ℕ) → a ≤ n → bit_xor a b ≡ bit_xor b a
xor_comm_up_to n zero b p = zero-xor b ∙ sym (xor-zero b)
xor_comm_up_to zero (suc a) b p = absurd (omega arith)
xor_comm_up_to (suc n) (suc a) b p = omega (
  arith,
  xor_step (suc a) b,
  xor_step b (suc a),
  xor_comm_up_to n (suc a / 2) (b / 2) (omega arith),
)

pub xor_comm : (a b : ℕ) → bit_xor a b ≡ bit_xor b a
xor_comm a b = xor_comm_up_to a a b (omega arith)

xor_assoc_up_to : (n a b c : ℕ) → a ≤ n → bit_xor (bit_xor a b) c ≡ bit_xor a (bit_xor b c)
xor_assoc_up_to n zero b c p = rw (zero-xor b) (sym (zero-xor _))
xor_assoc_up_to zero (suc a) b c p = absurd (omega arith)
xor_assoc_up_to (suc n) (suc a) b c p =
    xor_step _ c
    ∙ rw (xor-half (suc a) b, xor_assoc_up_to n (suc a / 2) (b / 2) (c / 2) (omega arith))
        (omega (
          arith,
          xor_step (suc a) b,
          xor_step b c,
          ap (bit_xor (suc a / 2)) (xor-half b c),
          xor_step (suc a) (bit_xor b c),
        ))

pub xor_assoc : (a b c : ℕ) → bit_xor (bit_xor a b) c ≡ bit_xor a (bit_xor b c)
xor_assoc a b c = xor_assoc_up_to a a b c (omega arith)

pub xor_left_comm : (a b c : ℕ) → bit_xor a (bit_xor b c) ≡ bit_xor b (bit_xor a c)
xor_left_comm a b c = sym (xor_assoc a b c) ∙ ap (λ t. bit_xor t c) (xor_comm a b) ∙ xor_assoc b a c

pub xor_cancel : (a b : ℕ) → bit_xor a (bit_xor a b) ≡ b
xor_cancel a b = sym (xor_assoc a a b) ∙ ap (λ t. bit_xor t b) (xor_self a) ∙ zero-xor b

pub xor_injective : (a b c : ℕ) → bit_xor a b ≡ bit_xor a c → b ≡ c
xor_injective a b c e = sym (xor_cancel a b) ∙ ap (bit_xor a) e ∙ xor_cancel a c

-- The middle two of four terms change places.
pub xor_swap :
    (a b c d : ℕ) → bit_xor (bit_xor a b) (bit_xor c d) ≡ bit_xor (bit_xor a c) (bit_xor b d)
xor_swap a b c d =
    xor_assoc a b (bit_xor c d)
    ∙ ap (bit_xor a) (xor_left_comm b c d)
    ∙ sym (xor_assoc a c (bit_xor b d))

pub and-one : (a : ℕ) → bit_and a 1 ≡ a % 2
and-one a = omega (arith, and_step a 1, and-zero (a / 2))

pub xor-mod2 : (a b : ℕ) → bit_xor a b % 2 ≡ (a % 2 + b % 2) % 2
xor-mod2 a b = omega (arith, xor_step a b)

-- Fields apart do not interact under `^`.
pub xor_parts : (k q r : ℕ) → r < 2 ^ k → bit_xor r (q * 2 ^ k) ≡ q * 2 ^ k + r
xor_parts k q r h =
    let e : r ≡ 0 * 2 ^ k + r = omega arith in
    let s : q * 2 ^ k ≡ q * 2 ^ k + 0 = omega arith in
    ap (λ t. bit_xor t (q * 2 ^ k)) e
    ∙ ap (bit_xor (0 * 2 ^ k + r)) s
    ∙ xor_fields k 0 q r 0 h (omega arith)
    ∙ rw (zero-xor, xor-zero)

pub xor_low_high : (a : ℕ) → a ≡ bit_xor (a % 2 ^ 8) (a / 2 ^ 8 * 2 ^ 8)
xor_low_high a = omega (arith, xor_parts 8 (a / 2 ^ 8) (a % 2 ^ 8) (omega arith))

-- `a ^ b` on the low byte only, when `b` is a byte.
pub xor-byte-high : (a b : ℕ) → b < 2 ^ 8 → bit_xor a b / 2 ^ 8 ≡ a / 2 ^ 8
xor-byte-high a b h =
    let e : a ≡ a / 2 ^ 8 * 2 ^ 8 + a % 2 ^ 8 = omega arith in
    let f : b ≡ 0 * 2 ^ 8 + b = omega arith in
    omega (
      arith,
      ap (λ t. bit_xor t b) e
          ∙ ap (bit_xor (a / 2 ^ 8 * 2 ^ 8 + a % 2 ^ 8)) f
          ∙ xor_fields 8 (a / 2 ^ 8) 0 (a % 2 ^ 8) b (omega arith) h,
      xor-zero (a / 2 ^ 8),
      xor-lt 8 (a % 2 ^ 8) b (omega arith) h,
    )

and-low : (a : ℕ) → a < 2 ^ 8 → bit_and a 0xFF ≡ a
and-low a h = omega (
  arith,
  and_step a 0xFF,
  and_step (a / 2) 0x7F,
  and_step (a / 2 / 2) 0x3F,
  and_step (a / 2 / 2 / 2) 0x1F,
  and_step (a / 2 / 2 / 2 / 2) 0xF,
  and_step (a / 2 / 2 / 2 / 2 / 2) 7,
  and_step (a / 2 / 2 / 2 / 2 / 2 / 2) 3,
  and-one (a / 2 / 2 / 2 / 2 / 2 / 2 / 2),
)

-- The mask of a byte.
pub and-byte : (a : ℕ) → bit_and a 0xFF ≡ a % 2 ^ 8
and-byte a =
    let e : a ≡ a / 2 ^ 8 * 2 ^ 8 + a % 2 ^ 8 = omega arith in
    ap (λ t. bit_and t (0 * 2 ^ 8 + 0xFF)) e
    ∙ and_fields 8 (a / 2 ^ 8) 0 (a % 2 ^ 8) 0xFF (omega arith) (omega arith)
    ∙ rw (and-zero (a / 2 ^ 8), and-low (a % 2 ^ 8) (omega arith)) (omega arith)

-- A mask in the middle takes out a field.
pub and_mask : (k m v : ℕ) → bit_and v (m * 2 ^ k) ≡ bit_and (v / 2 ^ k) m * 2 ^ k
and_mask k m v =
    let pos : 0 < 2 ^ k = one-le-pow k 2 (omega arith) in
    let e : v ≡ v / 2 ^ k * 2 ^ k + v % 2 ^ k = grind arith in
    let f : m * 2 ^ k ≡ m * 2 ^ k + 0 = omega arith in
    ap (λ t. bit_and t (m * 2 ^ k)) e
    ∙ ap (bit_and (v / 2 ^ k * 2 ^ k + v % 2 ^ k)) f
    ∙ and_fields k (v / 2 ^ k) m (v % 2 ^ k) 0 (grind arith) pos
    ∙ rw (and-zero (v % 2 ^ k)) (omega arith)

pub xor-twice : (a b : ℕ) → bit_xor (a * 2) (b * 2) ≡ bit_xor a b * 2
xor-twice a b =
    let e : a * 2 / 2 ≡ a = omega arith in
    let f : b * 2 / 2 ≡ b = omega arith in xor_step (a * 2) (b * 2) ∙ rw (e, f) (omega arith)

-- `x | r` is a sum when the low bits of `x` are zeros and `r` fits there.
pub or_disjoint : (k x r q : ℕ) → x ≡ q * 2 ^ k → r < 2 ^ k → bit_or x r ≡ x + r
or_disjoint k x r q e h = rw e (or_fields k q r h)

-- The low nibble.
pub and-nibble : (a : ℕ) → bit_and a 0xF ≡ a % 2 ^ 4
and-nibble a =
    omega
      (arith, and_step a 0xF, and_step (a / 2) 7, and_step (a / 2 / 2) 3, and-one (a / 2 / 2 / 2))
