-- ===== src/E2e/Feed/Laws.antt =====
-- Feeding byte by byte against the checksum of the whole, and what a changed byte does.
use bsomeip.Common.{
  IsByte, ℕ, zero, suc, ◌+◌, ◌<◌, bit_xor, ◌≡◌, ◌≢◌, refl, sym, ap, ◌∙◌, arith, List, [], ◌∷◌, ◌++◌,
  length, get_or, set, All, append-nil, append_assoc, ◌==◌, true, false, inl, inr, Bool-cases,
  ==_iff, if◌then◌else◌,
}
use bsomeip.Common.Bits.{xor_assoc, xor-zero, xor_comm, xor_injective, xor-lt}
use bsomeip.E2e.Crc8.{crc8_sae_j1850, crc8_bytes}
use bsomeip.E2e.Crc8.Detect.{
  crc8_next, crc8_next-IsByte, crc8_next-injective, crc8_next_byte_injective,
}
use bsomeip.E2e.Feed.{feed_byte, feed_except}

inverted_twice : (s : ℕ) → bit_xor (bit_xor s 0xFF) 0xFF ≡ s
inverted_twice s = xor_assoc s 0xFF 0xFF ∙ xor-zero s

-- One byte fed is one byte appended.
pub feed_byte-append :
    (front : List ℕ) (init b : ℕ)
    → feed_byte (crc8_sae_j1850 front init) b ≡ crc8_sae_j1850 (front ++ b ∷ []) init
unfolding feed_byte crc8_sae_j1850
feed_byte-append [] init b = ap (λ s. bit_xor (crc8_next s b) 0xFF) (inverted_twice init)
feed_byte-append (x ∷ front) init b = feed_byte-append front (crc8_next init x) b

-- The payload without the byte at `skip`.
unfoldable pub except : (skip i : ℕ) → List ℕ → List ℕ
except skip i [] = []
except skip i (b ∷ bytes) =
    if i == skip then except skip (i + 1) bytes else b ∷ except skip (i + 1) bytes

-- The loop computes the checksum of what came before it and of the payload without the one byte.
pub feed_except-append :
    (skip i : ℕ) (bytes front : List ℕ) (init : ℕ)
    → feed_except skip i bytes (crc8_sae_j1850 front init)
      ≡ crc8_sae_j1850 (front ++ except skip i bytes) init
unfolding feed_except except
feed_except-append skip i [] front init = ap (λ l. crc8_sae_j1850 l init) (sym (append-nil front))
feed_except-append skip i (b ∷ bytes) front init = elim (Bool-cases (i == skip)) [
  | inl e ↦ rw e (feed_except-append skip (i + 1) bytes front init)
  | inr e ↦
      rw (e, feed_byte-append front init b)
        (feed_except-append skip (i + 1) bytes (front ++ b ∷ []) init
          ∙ ap (λ l. crc8_sae_j1850 l init)
              (append_assoc front (b ∷ []) (except skip (i + 1) bytes)))
]

feed_except_skips :
    (skip i b : ℕ) (bytes : List ℕ) (crc : ℕ)
    → i ≡ skip
    → feed_except skip i (b ∷ bytes) crc ≡ feed_except skip (i + 1) bytes crc
unfolding feed_except
feed_except_skips skip i b bytes crc e = let t : (i == skip) ≡ true = (==_iff i skip).1 e in rw t

feed_except_feeds :
    (skip i b : ℕ) (bytes : List ℕ) (crc : ℕ)
    → i ≢ skip
    → feed_except skip i (b ∷ bytes) crc ≡ feed_except skip (i + 1) bytes (feed_byte crc b)
unfolding feed_except
feed_except_feeds skip i b bytes crc ne = let t : (i == skip) ≡ false = ground arith in rw t

-- The byte at `skip` does not count.
pub feed_except-set :
    (skip i j v : ℕ) (bytes : List ℕ) (crc : ℕ)
    → i + j ≡ skip
    → feed_except skip i (set bytes j v) crc ≡ feed_except skip i bytes crc
unfolding feed_except
feed_except-set skip i j v [] crc e = refl
feed_except-set skip i zero v (b ∷ bytes) crc e =
    let here : i ≡ skip = omega arith in
    feed_except_skips skip i v bytes crc here ∙ sym (feed_except_skips skip i b bytes crc here)
feed_except-set skip i (suc j) v (b ∷ bytes) crc e =
    feed_except-set skip (i + 1) j v bytes _ (omega arith)

pub feed_byte-IsByte : (crc b : ℕ) → IsByte crc → IsByte b → IsByte (feed_byte crc b)
unfolding feed_byte crc8_sae_j1850 crc8_bytes
feed_byte-IsByte crc b hc hb =
    let s = xor-lt 8 crc 0xFF hc (omega arith) in
    xor-lt 8 _ 0xFF (crc8_next-IsByte (bit_xor crc 0xFF) b s hb) (omega arith)

inverted_injective : (c d : ℕ) → bit_xor c 0xFF ≡ bit_xor d 0xFF → c ≡ d
inverted_injective c d e = xor_injective 0xFF c d (xor_comm 0xFF c ∙ e ∙ xor_comm d 0xFF)

feed_byte-injective :
    (c d b : ℕ) → IsByte c → IsByte d → IsByte b → feed_byte c b ≡ feed_byte d b → c ≡ d
unfolding feed_byte crc8_sae_j1850 crc8_bytes
feed_byte-injective c d b hc hd hb e = inverted_injective c d (
    crc8_next-injective _ _ b (xor-lt 8 c 0xFF hc (omega arith)) (xor-lt 8 d 0xFF hd (omega arith))
      hb (inverted_injective _ _ e))

feed_byte_byte_injective :
    (c a b : ℕ) → IsByte c → IsByte a → IsByte b → feed_byte c a ≡ feed_byte c b → a ≡ b
unfolding feed_byte crc8_sae_j1850 crc8_bytes
feed_byte_byte_injective c a b hc ha hb e =
    crc8_next_byte_injective _ a b (xor-lt 8 c 0xFF hc (omega arith)) ha hb
      (inverted_injective _ _ e)

pub feed_except-IsByte :
    (skip i : ℕ) (bytes : List ℕ) (crc : ℕ)
    → All IsByte bytes
    → IsByte crc
    → IsByte (feed_except skip i bytes crc)
unfolding feed_except
feed_except-IsByte skip i [] crc h hc = hc
feed_except-IsByte skip i (b ∷ bytes) crc h hc =
    feed_except-IsByte skip (i + 1) bytes _ h.1 (ground (arith, feed_byte-IsByte crc b hc h.0))

feed_except-injective :
    (skip i : ℕ) (bytes : List ℕ) (c d : ℕ)
    → All IsByte bytes
    → IsByte c
    → IsByte d
    → feed_except skip i bytes c ≡ feed_except skip i bytes d
    → c ≡ d
unfolding feed_except
feed_except-injective skip i [] c d h hc hd e = e
feed_except-injective skip i (b ∷ bytes) c d h hc hd e = elim (Bool-cases (i == skip)) [
  | inl t ↦ feed_except-injective skip (i + 1) bytes c d h.1 hc hd (rw t at e)
  | inr t ↦ feed_byte-injective c d b hc hd h.0 (
      feed_except-injective skip (i + 1) bytes (feed_byte c b) (feed_byte d b) h.1
        (feed_byte-IsByte c b hc h.0) (feed_byte-IsByte d b hd h.0) (rw t at e))
]

-- Another byte elsewhere changes the result.
pub feed_except_one_byte :
    (skip i j v : ℕ) (bytes : List ℕ) (crc : ℕ)
    → All IsByte bytes
    → IsByte crc
    → IsByte v
    → j < length bytes
    → i + j ≢ skip
    → feed_except skip i (set bytes j v) crc ≡ feed_except skip i bytes crc
    → v ≡ get_or bytes j 0
unfolding feed_except
feed_except_one_byte skip i j v [] crc h hc hv l ne e = absurd (omega arith)
feed_except_one_byte skip i zero v (b ∷ bytes) crc h hc hv l ne e =
    let away : i ≢ skip = omega arith in
    feed_byte_byte_injective crc v b hc hv h.0 (
      feed_except-injective skip (i + 1) bytes (feed_byte crc v) (feed_byte crc b) h.1
        (feed_byte-IsByte crc v hc hv) (feed_byte-IsByte crc b hc h.0)
        (sym (feed_except_feeds skip i v bytes crc away)
          ∙ e
          ∙ feed_except_feeds skip i b bytes crc away))
feed_except_one_byte skip i (suc j) v (b ∷ bytes) crc h hc hv l ne e =
    feed_except_one_byte skip (i + 1) j v bytes _ h.1
      (ground (arith, feed_byte-IsByte crc b hc h.0)) hv (omega arith) (omega arith) e
