-- ===== src/Wire/Tp/Stream.antt =====
-- The stream of a message in the assembler, as its segments come.
use bsomeip.Common.{
  ℕ, ◌+◌, ◌*◌, ◌/◌, ◌%◌, ◌^◌, ◌≤◌, ◌<◌, bit_and, bit_or, ◌≡◌, refl, sym, ap, ◌∙◌, Bool, true, false,
  List, [], ◌∷◌, ◌++◌, append-nil, append_assoc, length, length-append, drop, All, ltb, ◌==◌,
  ==_iff, if◌then◌else◌, lookup, insert, erase, arith,
}
use bsomeip.Common.Bits.{or_disjoint, and-one}
use bsomeip.Wire.Bytes.{read_u32_be}
use bsomeip.Wire.Bytes.Laws.{read_u32_be_lem}
use bsomeip.Wire.HeaderView.{header_size}
use bsomeip.Wire.Tp.{
  read_tp_header, segment, TpStreamKey, key_of, StreamState, Assembler, complete, invalid_length,
  put_fragment, assemble, state_of, with_fragment, try_assemble, feed, tp_stream_key,
}

-- Fragments that follow one another from `start` on.
abbrev pub layout : (start : ℕ) → List (List ℕ) → List (ℕ × List ℕ)
layout start [] = []
layout start (c ∷ cs) = (start, c) ∷ layout (start + length c) cs

abbrev pub concat : List (List ℕ) → List ℕ
concat [] = []
concat (c ∷ cs) = c ++ concat cs

-- A new fragment at the end comes last.
put_fragment-layout :
    (start off : ℕ) (cs : List (List ℕ)) (c : List ℕ)
    → off ≡ start + length (concat cs)
    → All (λ f. 1 ≤ length f) cs
    → put_fragment off c (layout start cs) ≡ layout start (cs ++ c ∷ [])
unfolding put_fragment
put_fragment-layout start off [] c e h = let at : off ≡ start = omega arith in rw at
put_fragment-layout start off (f ∷ cs) c e h =
    let size = length-append f (concat cs) in
    let later : (off == start) ≡ false = ground (arith, h.0, size) in
    let behind : ltb off start ≡ false = ground (arith, h.0, size) in
    rw (later, behind)
      (ap (λ r. (start, f) ∷ r)
        (put_fragment-layout (start + length f) off cs c (omega (arith, size)) h.1))

-- Fragments that follow one another are put together.
assemble-layout :
    (start final : ℕ) (cs : List (List ℕ)) (result : List ℕ)
    → final < 2 ^ 32
    → start + length (concat cs) ≡ final
    → assemble final (layout start cs) start result ≡ complete (result ++ concat cs)
unfolding assemble
assemble-layout start final [] result small e =
    let done : (start == final) ≡ true = (==_iff start final).1 (omega arith) in
    rw done (ap complete (sym (append-nil result)))
assemble-layout start final (c ∷ cs) result small e =
    let size = length-append c (concat cs) in
    let here : (start == start) ≡ true = (==_iff start start).1 refl in
    let inside : ltb final (start + length c) ≡ false = ground (arith, size) in
    let wraps : (start + length c) % 2 ^ 32 ≡ start + length c = omega (arith, size) in
    rw (here, inside, wraps)
      (assemble-layout (start + length c) final cs (result ++ c) small (omega (arith, size))
        ∙ ap complete (append_assoc result c (concat cs)))

abbrev flag_bit : Bool → ℕ
flag_bit more = if more then 1 else 0

abbrev raw_of : ℕ → Bool → ℕ
raw_of offset more = bit_or (offset % 2 ^ 28 * 2 ^ 4 % 2 ^ 32) (bit_and (flag_bit more) 1)

raw_lem :
    (offset : ℕ) (more : Bool)
    → offset < 2 ^ 28
    → (raw_of offset more ≡ offset * 2 ^ 4 + flag_bit more) × (flag_bit more < 2)
raw_lem offset true h = (
  or_disjoint 4 (offset % 2 ^ 28 * 2 ^ 4 % 2 ^ 32) 1 offset (omega arith) (omega arith)
      ∙ omega arith,
  omega arith,
)
raw_lem offset false h = (
  or_disjoint 4 (offset % 2 ^ 28 * 2 ^ 4 % 2 ^ 32) 0 offset (omega arith) (omega arith)
      ∙ omega arith,
  omega arith,
)

-- What a segment says of itself.
segment_lem :
    (hdr chunk : List ℕ) (offset : ℕ) (more : Bool)
    → length hdr ≡ 16
    → offset < 2 ^ 28
    → (key_of (segment hdr chunk offset more) ≡ key_of hdr)
      × ((read_tp_header (segment hdr chunk offset more) header_size).offset ≡ offset)
      × ((read_tp_header (segment hdr chunk offset more) header_size).more_segments
          ≡ (if more then 1 else 0))
      × (drop 20 (segment hdr chunk offset more) ≡ chunk)
      × (20 ≤ length (segment hdr chunk offset more))
unfolding segment key_of read_tp_header
segment_lem
      (b0 ∷ b1 ∷ b2 ∷ b3 ∷ b4 ∷ b5 ∷ b6 ∷ b7 ∷ b8 ∷ b9 ∷ b10 ∷ b11 ∷ b12 ∷ b13 ∷ b14 ∷ b15 ∷ [])
      chunk offset more h small =
    let raw = raw_of offset more in
    let (raw_is, bit) = raw_lem offset more small in
    let seg =
      segment
        (b0 ∷ b1 ∷ b2 ∷ b3 ∷ b4 ∷ b5 ∷ b6 ∷ b7 ∷ b8 ∷ b9 ∷ b10 ∷ b11 ∷ b12 ∷ b13 ∷ b14 ∷ b15 ∷ [])
        chunk offset more in
    let read : read_u32_be seg 16 ≡ raw =
      read_u32_be_lem seg 16 (omega arith) (omega arith) (omega arith)
      ∙ omega (arith, raw_is, bit) in
    (
      refl,
      ap (λ r. r / 2 ^ 4) read ∙ omega (arith, raw_is, bit),
      ap (λ r. bit_and r 1) read ∙ and-one raw ∙ omega (arith, raw_is, bit),
      refl,
      omega arith,
    )
segment_lem _ chunk offset more h small = absurd (omega arith)

feed_lem :
    (streams : Assembler) (seg : List ℕ) (k : TpStreamKey) (s : StreamState) (off m : ℕ)
    (frag : List ℕ)
    → key_of seg ≡ k
    → (read_tp_header seg header_size).offset ≡ off
    → (read_tp_header seg header_size).more_segments ≡ m
    → drop 20 seg ≡ frag
    → 20 ≤ length seg
    → state_of (lookup k streams) ≡ s
    → feed streams seg seg
      ≡ try_assemble k (with_fragment s (record { offset = off; more_segments = m }) frag) streams
unfolding feed
feed_lem streams seg k s off m frag ek eo em ef long es =
    let size : ltb (length seg) 20 ≡ false = ground arith in
    let found : state_of (lookup (key_of seg) streams) ≡ s = rw ek es in
    rw size (λ i.
      try_assemble (ek i)
        (with_fragment (found i) (record { offset = eo i; more_segments = em i }) (ef i)) streams)

try_assemble_whole :
    (k : TpStreamKey) (s : StreamState) (streams : Assembler) (result : List ℕ)
    → (s.final_offset == 0) ≡ false
    → assemble s.final_offset s.fragments 0 [] ≡ complete result
    → try_assemble k s streams ≡ (erase k streams, complete result)
try_assemble_whole k s streams result known whole = rw (known, whole)

pub concat_last : (cs : List (List ℕ)) (c : List ℕ) → concat (cs ++ c ∷ []) ≡ concat cs ++ c
concat_last [] c = append-nil c
concat_last (f ∷ cs) c = ap (λ r. f ++ r) (concat_last cs c) ∙ sym (append_assoc f (concat cs) c)

pub All-last :
    (cs : List (List ℕ)) (c : List ℕ)
    → All (λ f. 1 ≤ length f) cs
    → 1 ≤ length c
    → All (λ f. 1 ≤ length f) (cs ++ c ∷ [])
All-last [] c h hc = (hc, tt)
All-last (f ∷ cs) c h hc = (h.0, All-last cs c h.1 hc)

-- The stream of a message of which these chunks came.
abbrev pub partial : List (List ℕ) → StreamState
partial cs = record { fragments = layout 0 cs; final_offset = 0 }

module _ (hdr : List ℕ) (hdr_size : length hdr ≡ 16) (cs : List (List ℕ)) (chunk : List ℕ)
    (streams : Assembler) (filled : All (λ f. 1 ≤ length f) cs) (some_bytes : 1 ≤ length chunk)
    (small : length (concat cs) + length chunk < 2 ^ 28)
    (state : state_of (lookup (key_of hdr) streams) ≡ partial cs) where
  pub feed-more :
      feed streams
        (segment hdr chunk (length (concat cs)) true)
        (segment hdr chunk (length (concat cs)) true)
      ≡ (insert (key_of hdr) (partial (cs ++ chunk ∷ [])) streams, invalid_length)
  feed-more =
      let (ek, eo, em, ef, long) =
        segment_lem hdr chunk (length (concat cs)) true hdr_size (omega arith) in
      let put = put_fragment-layout 0 (length (concat cs)) cs chunk (omega arith) filled in
      feed_lem streams _ (key_of hdr) (partial cs) _ 1 chunk ek eo em ef long state
      ∙ ap
          (λ fs. (
            insert (key_of hdr) (record { fragments = fs; final_offset = 0 }) streams,
            invalid_length,
          ))
          put

  pub feed-last :
      feed streams
        (segment hdr chunk (length (concat cs)) false)
        (segment hdr chunk (length (concat cs)) false)
      ≡ (erase (key_of hdr) streams, complete (concat (cs ++ chunk ∷ [])))
  feed-last =
      let (ek, eo, em, ef, long) =
        segment_lem hdr chunk (length (concat cs)) false hdr_size (omega arith) in
      let put = put_fragment-layout 0 (length (concat cs)) cs chunk (omega arith) filled in
      let size : length (concat (cs ++ chunk ∷ [])) ≡ length (concat cs) + length chunk =
        ap length (concat_last cs chunk) ∙ length-append (concat cs) chunk in
      let final = (length (concat cs) + length chunk) % 2 ^ 32 in
      let whole : assemble final (layout 0 (cs ++ chunk ∷ [])) 0 []
          ≡ complete (concat (cs ++ chunk ∷ [])) =
        assemble-layout 0 final (cs ++ chunk ∷ []) [] (omega arith) (omega (arith, size)) in
      let known : (final == 0) ≡ false = ground arith in
      feed_lem streams _ (key_of hdr) (partial cs) _ 0 chunk ek eo em ef long state
      ∙ try_assemble_whole (key_of hdr) _ streams _ known
          (ap (λ fs. assemble final fs 0 []) put ∙ whole)
