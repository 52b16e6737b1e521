-- ===== src/Tests/Codec.antt =====
-- include/bsomeip/wire/codec.hpp at concrete inputs.
use bsomeip.Common.{ℕ, ◌+◌, ◌^◌, ◌≡◌, refl, true, List, [], ◌∷◌, replicate, take, arith}
use bsomeip.Common.Int.{pos, negsuc}
use bsomeip.Wire.Codec.{
  Members, no_members, member, bool, u8, i16, u64, bytes, enum, aggregate, Values, done,
  buffer_too_small, out_of_bounds, serialize, deserialize,
}
use bsomeip.Wire.Codec.Layout.{MembersFit}
use bsomeip.Wire.Codec.Checked.{serialize_lem, deserialize_bounds}
use bsomeip.Wire.Codec.RoundTrip.{deserialize-serialize}

abbrev point : Members
point = member i16 (member i16 no_members)

abbrev sample : Members
sample =
    member bool
      (member (enum u8) (member (aggregate point) (member u64 (member (bytes 3) no_members))))

abbrev value : Values sample
value = (true, (7, ((pos 300, (negsuc 1, tt)), (2 ^ 40 + 5, (1 ∷ 2 ∷ 3 ∷ [], tt)))))

value-MembersFit : MembersFit sample value
value-MembersFit =
    (tt, (omega arith, ((omega arith, (omega arith, tt)), (omega arith, (refl, tt)))))

abbrev wire : List ℕ
wire = 1 ∷ 7 ∷ 1 ∷ 44 ∷ 255 ∷ 254 ∷ 0 ∷ 0 ∷ 1 ∷ 0 ∷ 0 ∷ 0 ∷ 0 ∷ 5 ∷ 1 ∷ 2 ∷ 3 ∷ []

serialize_test : serialize sample (replicate 17 0) value ≡ done (wire, 17)
unfolding serialize
serialize_test = refl

deserialize-serialize_example :
    (out : List ℕ) × (serialize sample (replicate 20 9) value ≡ done (out, 17))
    × (deserialize sample (take 17 out) ≡ done value)
    × (deserialize sample out ≡ done value)
deserialize-serialize_example =
    deserialize-serialize sample (replicate 20 9) value value-MembersFit (omega arith) (omega arith)

serialize_short_example : serialize sample (replicate 16 0) value ≡ out_of_bounds
serialize_short_example = serialize_lem sample (replicate 16 0) value value-MembersFit

deserialize_short_example : deserialize sample (replicate 7 0) ≡ out_of_bounds
deserialize_short_example = deserialize_bounds sample (replicate 7 0) (omega arith)

deserialize_boundary_test : deserialize sample (replicate 6 0) ≡ buffer_too_small
unfolding deserialize
deserialize_boundary_test = refl
