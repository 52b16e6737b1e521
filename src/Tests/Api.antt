-- ===== src/Tests/Api.antt =====
-- include/bsomeip/api at concrete inputs.
use bsomeip.Common.{ℕ, List, [], ◌∷◌}

abbrev req : List ℕ
req = 0x12 ∷ 0x34 ∷ 0 ∷ 1 ∷ 0 ∷ 0 ∷ 0 ∷ 8 ∷ 0 ∷ 0x10 ∷ 0 ∷ 5 ∷ 1 ∷ 2 ∷ 0 ∷ 0 ∷ []
