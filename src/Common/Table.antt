-- ===== src/Common/Table.antt =====
-- A property of the numbers below a bound, checked number by number.
use Prim.Native.Nat.{ℕ, zero, suc, ◌+◌, ◌≤◌, ◌<◌}
use mathlib.Core.Path.{◌≡◌}
use mathlib.Core.Bool.{Bool, true, ◌&&◌}
use native.Mathlib.Omega.{arith}

-- The test of `count` numbers from `i` on.
unfoldable holds_from : (count i : ℕ) → (ℕ → Bool) → Bool
holds_from zero i test = true
holds_from (suc count) i test = test i && holds_from count (i + 1) test

unfoldable pub all_below : ℕ → (ℕ → Bool) → Bool
unfolding holds_from
all_below bound test = holds_from bound 0 test

holds_from-all :
    (count i : ℕ) (test : ℕ → Bool)
    → holds_from count i test ≡ true
    → (x : ℕ) → i ≤ x
    → x < i + count
    → test x ≡ true
unfolding holds_from
holds_from-all zero i test h x above below = absurd (omega arith)
holds_from-all (suc count) i test h x above below =
    ground (arith, holds_from-all count (i + 1) test (ground arith) x)

pub all_below_sound :
    (bound : ℕ) (test : ℕ → Bool) (x : ℕ) → all_below bound test ≡ true → x < bound → test x ≡ true
unfolding all_below
all_below_sound bound test x h below = holds_from-all bound 0 test h x (omega arith) (omega arith)
