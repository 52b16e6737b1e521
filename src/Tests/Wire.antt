-- ===== src/Tests/Wire.antt =====
-- include/bsomeip/wire and platform at concrete inputs.
use bsomeip.Common.{ℕ, ◌≡◌, refl, true, false, List, [], ◌∷◌, lookup, none, arith}
use bsomeip.Wire.Tp.{
  segment, segment_message, tp_stream_key, key_of, complete, invalid_length, out_of_bounds,
}
use bsomeip.Wire.Tp.RoundTrip.{feed_all, feed_all-segment_message}

abbrev tp_hdr : List ℕ
tp_hdr = 0x12 ∷ 0x34 ∷ 0 ∷ 1 ∷ 0 ∷ 0 ∷ 0 ∷ 8 ∷ 0 ∷ 0x10 ∷ 0 ∷ 5 ∷ 1 ∷ 1 ∷ 0 ∷ 0 ∷ []

abbrev tp_payload : List ℕ
tp_payload = 1 ∷ 2 ∷ 3 ∷ 4 ∷ 5 ∷ []

segment_message_example :
    ((feed_all [] (segment_message tp_hdr tp_payload 2) invalid_length).1 ≡ complete tp_payload)
    × (lookup (key_of tp_hdr) (feed_all [] (segment_message tp_hdr tp_payload 2) invalid_length).0
        ≡ none)
unfolding lookup
segment_message_example =
    feed_all-segment_message tp_hdr tp_payload 2 [] refl (omega arith) (omega arith) (omega arith)
      refl

-- A last segment that ends where another, of the same length, begins.
out_of_bounds_test :
    (feed_all []
      (segment tp_hdr (1 ∷ 2 ∷ []) 2 true ∷ segment tp_hdr (3 ∷ 4 ∷ []) 0 false ∷ [])
      invalid_length).1
    ≡ out_of_bounds
unfolding segment feed_all
out_of_bounds_test = refl
