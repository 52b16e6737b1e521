-- ===== src/E2e/Slices.antt =====
-- include/bsomeip/e2e/crc.hpp: the loop over `k` that fills the slicing tables, for both widths.
use bsomeip.Common.{
  ℕ, zero, suc, ◌<◌, ◌≡◌, refl, ap, ◌∙◌, arith, iterate, List, [], ◌∷◌, map, length, get_or,
  get_or-map, length-map,
}

-- `result.t[k]` is made from `result.t[k-1]` entry by entry.
unfoldable pub slice_rows : ℕ → (ℕ → ℕ) → List ℕ → List (List ℕ)
slice_rows zero next row = []
slice_rows (suc n) next row = row ∷ slice_rows n next (map next row)

-- T[k][i]
abbrev pub entry : List (List ℕ) → ℕ → ℕ → ℕ
entry t k i = get_or (get_or t k []) i 0

pub entry-slice_rows :
    (next : ℕ → ℕ) (n k i : ℕ) (row : List ℕ)
    → k < n
    → i < length row
    → entry (slice_rows n next row) k i ≡ iterate k next (get_or row i 0)
unfolding slice_rows iterate
entry-slice_rows next zero k i row hk hi = absurd (omega arith)
entry-slice_rows next (suc n) zero i row hk hi = refl
entry-slice_rows next (suc n) (suc k) i row hk hi =
    entry-slice_rows next n k i (map next row) (omega arith) (omega (arith, length-map row next))
    ∙ ap (iterate k next) (get_or-map next row i 0 0 hi)

-- Two steps that agree where an invariant holds may be iterated for one another.
pub iterate_agree {ℓ} :
    (P : ℕ → Type ℓ) (f g : ℕ → ℕ)
    → ((x : ℕ) → P x → (f x ≡ g x) × P (g x))
    → (k x : ℕ) → P x
    → iterate k f x ≡ iterate k g x
unfolding iterate
iterate_agree P f g same zero x h = refl
iterate_agree P f g same (suc k) x h =
    ap (iterate k f) (same x h).0 ∙ iterate_agree P f g same k (g x) (same x h).1
