-- ===== src/Io/BufferPool/Uses.antt =====
-- A pool and its users, who release only what they hold.
use bsomeip.Common.{
  ℕ, zero, suc, ◌+◌, ◌*◌, ◌/◌, ◌%◌, ◌^◌, ◌≤◌, ◌<◌, ◌≡◌, refl, sym, ap, ◌∙◌, Bool, Option, none,
  some, List, [], ◌∷◌, length, map, ltb, ◌==◌, if◌then◌else◌, All, arith,
}
use native.Mathlib.Nat.{mul-div_cancel, mul-le-mul_right, add-mul}
use bsomeip.Io.BufferPool.{Buffer, BufferPool, create, push_down, pop, acquire, release}

-- Buffers that are held, the latest first.
pub record InUse : Type 0 where
  pub pool : BufferPool
  pub held : List Buffer

-- A buffer is asked for, or the holder of one of those held gives it back.
pub data Use : Type 0 where
  acquires : Use
  releases : (nth : ℕ) → Use

abbrev pub hold : List Buffer → BufferPool × Option Buffer → InUse
hold held (pool, none) = record { pool = pool; held = held }
hold held (pool, some b) = record { pool = pool; held = b ∷ held }

unfoldable pub release_nth : BufferPool → List Buffer → (nth : ℕ) → InUse
unfolding release
release_nth pool [] n = record { pool = pool; held = [] }
release_nth pool (b ∷ bs) zero = record { pool = release pool b; held = bs }
release_nth pool (b ∷ bs) (suc n) =
    let u = release_nth pool bs n in record { pool = u.pool; held = b ∷ u.held }

unfoldable pub use_pool : InUse → Use → InUse
unfolding acquire release_nth
use_pool u acquires = hold u.held (acquire u.pool)
use_pool u (releases n) = release_nth u.pool u.held n

unfoldable pub use_all : InUse → List Use → InUse
unfolding use_pool
use_all u [] = u
use_all u (step ∷ steps) = use_all (use_pool u step) steps

abbrev pub one_if : Bool → ℕ
one_if b = if b then 1 else 0

-- How often an index occurs.
abbrev pub occurrences : ℕ → List ℕ → ℕ
occurrences i [] = 0
occurrences i (x ∷ xs) = one_if (x == i) + occurrences i xs

pub apart_lem : (size i j : ℕ) → i < j → i * size + size ≤ j * size
apart_lem size i j h =
    omega (arith, mul-le-mul_right {m = i + 1} {n = j} size (omega arith), add-mul i 1 size)

at_front : (i n : ℕ) → 1 ≤ one_if (i == i) + n
at_front i n = ground arith

counted : (i count : ℕ) → 1 ≤ one_if (ltb i count) → i < count
counted i count h = ground arith

module _ (count size : ℕ) (positive : 0 < size) (small : count ≤ 2 ^ 32)
    (addressable : count * size < 2 ^ 64) where
  abbrev pub index : Buffer → ℕ
  index b = b.offset / size

  -- Each index below the count is free or held, once.
  pub record Sound (u : InUse) : Type 0 where
    pub once :
        (i : ℕ)
        → occurrences i (map index u.held) + occurrences i u.pool.free_list ≡ one_if (ltb i count)
    pub total : length u.held + length u.pool.free_list ≡ count
    pub shape : All (λ (b : Buffer). (b.offset ≡ index b * size) × (b.size ≡ size)) u.held
    pub size_is : u.pool.buf_size ≡ size
    pub storage_is : u.pool.storage_size ≡ count * size

  index_of : (i : ℕ) → i * size / size ≡ i
  index_of i = mul-div_cancel i positive

  pop-Sound :
      (pool : BufferPool) (held : List Buffer) (xs : List ℕ)
      → pool.free_list ≡ xs
      → Sound (record { pool = pool; held = held })
      → Sound (hold held (pop pool xs))
  pop-Sound pool held [] e h = h
  pop-Sound pool held (idx ∷ rest) e h =
      let free = ap (occurrences idx) e in
      let listed : 1 ≤ occurrences idx (idx ∷ rest) = at_front idx (occurrences idx rest) in
      let there : idx < count = counted idx count (omega (arith, h.once idx, free, listed)) in
      let offset_is : idx * pool.buf_size % 2 ^ 64 ≡ idx * size =
        ap (λ n. idx * n % 2 ^ 64) h.size_is
        ∙ omega (arith, apart_lem size idx count there, addressable) in
      let is_index : idx * pool.buf_size % 2 ^ 64 / size ≡ idx =
        ap (λ n. n / size) offset_is ∙ index_of idx in
      record {
        once =
            λ i. omega (arith, h.once i, ap (occurrences i) e, ap (λ x. one_if (x == i)) is_index);
        total = omega (arith, h.total, ap {B = ℕ} length e);
        shape = ((offset_is ∙ ap (λ n. n * size) (sym is_index), h.size_is), h.shape);
        size_is = h.size_is;
        storage_is = h.storage_is;
      }

  -- The indices of held buffers are below the count.
  pub below :
      (bs : List Buffer)
      → ((i : ℕ) → occurrences i (map index bs) ≤ one_if (ltb i count))
      → All (λ b. index b < count) bs
  below [] f = tt
  below (b ∷ bs) f = (ground (arith, f (index b)), below bs (λ i. omega (arith, f i)))

  release_nth_lem :
      (pool : BufferPool) (bs : List Buffer) (n : ℕ)
      → pool.buf_size ≡ size
      → All (λ b. index b < count) bs
      → All (λ (b : Buffer). (b.offset ≡ index b * size) × (b.size ≡ size)) bs
      → let u = release_nth pool bs n in
        ((i : ℕ)
          → occurrences i (map index u.held) + occurrences i u.pool.free_list
            ≡ occurrences i (map index bs) + occurrences i pool.free_list)
        × (length u.held + length u.pool.free_list ≡ length bs + length pool.free_list)
        × All (λ (b : Buffer). (b.offset ≡ index b * size) × (b.size ≡ size)) u.held
        × (u.pool.buf_size ≡ size)
        × (u.pool.storage_size ≡ pool.storage_size)
  unfolding release_nth release
  release_nth_lem pool [] n e lt sh = ((λ i. refl), refl, tt, e, refl)
  release_nth_lem pool (b ∷ bs) zero e (l, lt) (s, sh) =
      let is_index : b.offset / pool.buf_size % 2 ^ 32 ≡ index b =
        ap (λ n. b.offset / n % 2 ^ 32) e ∙ omega arith in
      ((λ i. omega (arith, ap (λ x. one_if (x == i)) is_index)), omega arith, sh, e, refl)
  release_nth_lem pool (b ∷ bs) (suc n) e (l, lt) (s, sh) =
      let (o, t, sh', e', st) = release_nth_lem pool bs n e lt sh in
      ((λ i. omega (arith, o i)), omega (arith, t), (s, sh'), e', st)

  use_pool-Sound : (u : InUse) (step : Use) → Sound u → Sound (use_pool u step)
  unfolding use_pool acquire
  use_pool-Sound u acquires h = pop-Sound u.pool u.held u.pool.free_list refl h
  use_pool-Sound u (releases n) h =
      let (o, t, sh, e, st) =
        release_nth_lem u.pool u.held n h.size_is (below u.held (λ i. omega (arith, h.once i)))
          h.shape in
      record {
        once = λ i. o i ∙ h.once i;
        total = t ∙ h.total;
        shape = sh;
        size_is = e;
        storage_is = st ∙ h.storage_is;
      }

  pub use_all-Sound : (steps : List Use) (u : InUse) → Sound u → Sound (use_all u steps)
  unfolding use_all
  use_all-Sound [] u h = h
  use_all-Sound (s ∷ steps) u h = use_all-Sound steps (use_pool u s) (use_pool-Sound u s h)

  push_down_lem :
      (n : ℕ) (xs : List ℕ)
      → n ≤ 2 ^ 32
      → ((i : ℕ) → occurrences i (push_down n xs) ≡ one_if (ltb i n) + occurrences i xs)
        × (length (push_down n xs) ≡ n + length xs)
  push_down_lem zero xs h = ((λ i. ground arith), omega arith)
  push_down_lem (suc n) xs h =
      let (o, l) = push_down_lem n (n % 2 ^ 32 ∷ xs) (omega arith) in
      let same : n % 2 ^ 32 ≡ n = omega arith in
      ((λ i. ground (arith, o i, ap (λ x. one_if (x == i)) same)), omega (arith, l))

  pub create-Sound : Sound (record { pool = create count size; held = [] })
  unfolding create
  create-Sound =
      let (o, l) = push_down_lem count [] small in
      record {
        once = λ i. omega (arith, o i);
        total = omega (arith, l);
        shape = tt;
        size_is = refl;
        storage_is = omega (arith, addressable);
      }
