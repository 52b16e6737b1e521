-- ===== src/E2e/Result.antt =====
-- include/bsomeip/e2e/profile.hpp: the results of a check, and the counter comparison that ends
-- the check of every profile.
use bsomeip.Common.{
  ℕ, ◌+◌, ◌≤◌, ◌≡◌, ◌↔◌, arith, leb, ◌==◌, if◌then◌else◌, List, set, length, length-set, refl, ◌∙◌,
  zero, suc,
}

pub data E2eResult : Type 0 where
  ok wrong_crc wrong_sequence repeated no_new_data error : E2eResult

unfoldable pub counter_result : ℕ → ℕ → E2eResult
counter_result delta max_delta_counter =
    if delta == 0 then repeated else if leb delta max_delta_counter then ok else wrong_sequence

-- The counter is accepted when it moved, and by no more than the limit.
pub counter_result-ok : (delta m : ℕ) → (counter_result delta m ≡ ok) ↔ ((1 ≤ delta) × (delta ≤ m))
unfolding counter_result
counter_result-ok delta m = ground arith

-- `memset` with zeros.
unfoldable pub memset : List ℕ → ℕ → ℕ → List ℕ
memset p o zero = p
memset p o (suc n) = memset (set p o 0) (o + 1) n

pub length-memset : (p : List ℕ) (o n : ℕ) → length (memset p o n) ≡ length p
unfolding memset
length-memset p o zero = refl
length-memset p o (suc n) = length-memset (set p o 0) (o + 1) n ∙ length-set p o 0
