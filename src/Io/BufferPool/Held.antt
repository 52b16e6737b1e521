-- ===== src/Io/BufferPool/Held.antt =====
-- The buffers that are held do not overlap.
use bsomeip.Common.{
  ℕ, ◌+◌, ◌*◌, ◌/◌, ◌%◌, ◌^◌, ◌≤◌, ◌<◌, ◌≡◌, ◌≢◌, ◌⊎◌, inl, inr, refl, sym, subst, Bool, true,
  false, Bool-cases, some, List, [], ◌∷◌, length, map, ltb, ◌==◌, All, arith,
}
use bsomeip.Io.BufferPool.{Buffer, BufferPool, create, pop, acquire, available}
use bsomeip.Io.BufferPool.Uses.{
  InUse, Use, use_all, one_if, occurrences, create-Sound, use_all-Sound, below, apart_lem,
}

abbrev pub Apart : List Buffer → Type 0
Apart [] = Unit
Apart (b ∷ bs) =
    All (λ (c : Buffer). (b.offset + b.size ≤ c.offset) ⊎ (c.offset + c.size ≤ b.offset)) bs
    × Apart bs

-- What `acquire` gives while the free list has an index.
some_left :
    (pool : BufferPool) (xs : List ℕ) → 1 ≤ length xs → (b : Buffer) × ((pop pool xs).1 ≡ some b)
some_left pool [] h = absurd (omega arith)
some_left pool (idx ∷ rest) h =
    (record { offset = idx * pool.buf_size % 2 ^ 64; size = pool.buf_size }, refl)

differ : (i j : ℕ) → j ≢ i → ltb i j ≡ false → j < i
differ i j ne t = ground arith

never : (x i n : ℕ) → one_if (x == i) + n ≡ 0 → x ≢ i
never x i n e eq = ground arith

once_more : (i n : ℕ) → one_if (i == i) + n ≤ 1 → n ≡ 0
once_more i n h = ground arith

one_if_le : (b : Bool) → one_if b ≤ 1
one_if_le true = omega arith
one_if_le false = omega arith

module _ (size : ℕ) where
  abbrev Shaped : List Buffer → Type 0
  Shaped bs = All (λ (b : Buffer). (b.offset ≡ b.offset / size * size) × (b.size ≡ size)) bs

  apart_two :
      (b c : Buffer)
      → (b.offset ≡ b.offset / size * size) × (b.size ≡ size)
      → (c.offset ≡ c.offset / size * size) × (c.size ≡ size)
      → c.offset / size ≢ b.offset / size
      → (b.offset + b.size ≤ c.offset) ⊎ (c.offset + c.size ≤ b.offset)
  apart_two b c (ob, sb) (oc, sc) ne =
      let i = b.offset / size in
      let j = c.offset / size in
      elim (Bool-cases (ltb i j)) [
        | inl t ↦
            let l : i < j = ground (arith, t) in
            inl (omega (arith, ob, sb, oc, apart_lem size i j l))
        | inr t ↦
            let l : j < i = differ i j ne t in inr (omega (arith, ob, oc, sc, apart_lem size j i l))
      ]

  absent :
      (b : Buffer) (bs : List Buffer)
      → (b.offset ≡ b.offset / size * size) × (b.size ≡ size)
      → Shaped bs
      → occurrences (b.offset / size) (map (λ (c : Buffer). c.offset / size) bs) ≡ 0
      → All (λ (c : Buffer). (b.offset + b.size ≤ c.offset) ⊎ (c.offset + c.size ≤ b.offset)) bs
  absent b [] sh shs e = tt
  absent b (c ∷ bs) sh (s, shs) e = (
    apart_two b c sh s (never (c.offset / size) (b.offset / size) _ e),
    absent b bs sh shs (omega (arith, e)),
  )

  apart :
      (bs : List Buffer)
      → Shaped bs
      → ((i : ℕ) → occurrences i (map (λ (c : Buffer). c.offset / size) bs) ≤ 1)
      → Apart bs
  apart [] sh f = tt
  apart (b ∷ bs) (s, sh) f = (
    absent b bs s sh (once_more (b.offset / size) _ (f (b.offset / size))),
    apart bs sh (λ i. omega (arith, f i)),
  )

  inside :
      (count : ℕ) (bs : List Buffer)
      → Shaped bs
      → All (λ (b : Buffer). b.offset / size < count) bs
      → All (λ (b : Buffer). (b.size ≡ size) × (b.offset + b.size ≤ count * size)) bs
  inside count [] sh lt = tt
  inside count (b ∷ bs) ((o, s), sh) (l, lt) =
      ((s, omega (arith, o, s, apart_lem size (b.offset / size) count l)), inside count bs sh lt)

-- However a pool's buffers are acquired and given back by those who hold them: as many are held as are
-- not available; each has the pool's buffer size and lies in its storage; no two overlap; and another
-- one is given out as long as not all are held. The buffers are not empty, their indices have 32
-- bits, and the size of the storage fits 64 bits.
pub use_all_lem :
    (count size : ℕ) (steps : List Use)
    → 0 < size
    → count ≤ 2 ^ 32
    → count * size < 2 ^ 64
    → let u = use_all (record { pool = create count size; held = [] }) steps in
      (length u.held + available u.pool ≡ count)
      × (u.pool.storage_size ≡ count * size)
      × All (λ (b : Buffer). (b.size ≡ size) × (b.offset + b.size ≤ u.pool.storage_size)) u.held
      × Apart u.held
      × (length u.held < count → (b : Buffer) × ((acquire u.pool).1 ≡ some b))
unfolding available acquire
use_all_lem count size steps positive small addressable =
    let start : InUse = record { pool = create count size; held = [] } in
    let u = use_all start steps in
    let h =
      use_all-Sound count size positive small addressable steps start
        (create-Sound count size positive small addressable) in
    (
      h.total,
      h.storage_is,
      subst (λ n. All (λ (b : Buffer). (b.size ≡ size) × (b.offset + b.size ≤ n)) u.held)
          (sym h.storage_is)
          (inside size count u.held h.shape
            (below count size positive small addressable u.held (λ i. omega (arith, h.once i)))),
      apart size u.held h.shape (λ i. omega (arith, h.once i, one_if_le (ltb i count))),
      (λ lt. some_left u.pool u.pool.free_list (omega (arith, h.total))),
    )
