-- ===== src/Wire/Tp/RoundTrip.antt =====
-- What segmentation takes apart, the assembler puts together.
use bsomeip.Common.{
  ℕ, zero, suc, ◌+◌, ◌^◌, ◌≤◌, ◌<◌, ◌≡◌, refl, sym, ap, ◌∙◌, subst, Bool, true, false, none, List,
  [], ◌∷◌, ◌++◌, append_assoc, length, length-append, length-take, length-drop, take-append-drop,
  take, drop, All, ltb, ◌==◌, Bool-cases, inl, inr, lookup, insert, erase, lookup-insert_self,
  lookup-erase_self, arith,
}
use bsomeip.Wire.Tp.{
  segment, segments_from, segment_message, key_of, Assembler, Fed, complete, invalid_length,
  state_of, feed, tp_stream_key,
}
use bsomeip.Wire.Tp.Stream.{concat, concat_last, All-last, partial, feed-more, feed-last}

-- A receiver feeds the segments one after another; the result is that of the last.
unfoldable pub feed_all : Assembler → List (List ℕ) → Fed → Assembler × Fed
unfolding feed
feed_all streams [] last = (streams, last)
feed_all streams (seg ∷ segs) last =
    let (next, fed) = feed streams seg seg in feed_all next segs fed

feed_all-step :
    (streams next : Assembler) (seg : List ℕ) (segs : List (List ℕ)) (last fed : Fed)
    → feed streams seg seg ≡ (next, fed)
    → feed_all streams (seg ∷ segs) last ≡ feed_all next segs fed
unfolding feed_all
feed_all-step streams next seg segs last fed e =
    ap (λ (p : Assembler × Fed). feed_all p.0 segs p.1) e

segments_from-step :
    (fuel : ℕ) (hdr : List ℕ) (max offset : ℕ) (rest : List ℕ) (more : Bool)
    → (length rest == 0) ≡ false
    → ltb (length (take max rest)) (length rest) ≡ more
    → segments_from (suc fuel) hdr max offset rest
      ≡ segment hdr (take max rest) offset more
        ∷ segments_from fuel hdr max (offset + length (take max rest)) (drop max rest)
unfolding segments_from
segments_from-step fuel hdr max offset rest more some_left t = rw (some_left, t)

segments_from-nil :
    (fuel : ℕ) (hdr : List ℕ) (max offset : ℕ) → segments_from fuel hdr max offset [] ≡ []
unfolding segments_from
segments_from-nil zero hdr max offset = refl
segments_from-nil (suc fuel) hdr max offset = refl

take_whole : (n : ℕ) (xs : List ℕ) → length xs ≤ n → (take n xs ≡ xs) × (drop n xs ≡ [])
take_whole zero [] h = (refl, refl)
take_whole zero (x ∷ xs) h = absurd (omega arith)
take_whole (suc n) [] h = (refl, refl)
take_whole (suc n) (x ∷ xs) h =
    let (same, none_left) = take_whole n xs (omega arith) in (ap (λ l. x ∷ l) same, none_left)

-- How the feeding of a message ends.
abbrev Ended : List ℕ → List ℕ → Assembler × Fed → Type 0
Ended hdr payload end = (end.1 ≡ complete payload) × (lookup (key_of hdr) end.0 ≡ none)

ended :
    (hdr payload : List ℕ) (streams : Assembler) (result : List ℕ)
    → result ≡ payload
    → lookup (key_of hdr) streams ≡ none
    → Ended hdr payload (feed_all streams [] (complete result))
unfolding feed_all
ended hdr payload streams result e gone = (ap complete e, gone)

-- From any point of the loop on: what came before is in the stream, what is left follows.
feed_all-segments_from :
    (fuel : ℕ) (hdr : List ℕ) (max : ℕ) (cs : List (List ℕ)) (rest : List ℕ) (streams : Assembler)
    (last : Fed)
    → length hdr ≡ 16
    → 1 ≤ max
    → 1 ≤ length rest
    → length rest ≤ fuel
    → All (λ f. 1 ≤ length f) cs
    → length (concat cs) + length rest < 2 ^ 28
    → state_of (lookup (key_of hdr) streams) ≡ partial cs
    → Ended hdr
        (concat cs ++ rest)
        (feed_all streams (segments_from fuel hdr max (length (concat cs)) rest) last)
feed_all-segments_from zero hdr max cs rest streams last hh hm hr hf filled small state =
    absurd (omega arith)
feed_all-segments_from (suc fuel) hdr max cs rest streams last hh hm hr hf filled small state =
    let chunk = take max rest in
    let size = length-take max rest in
    let left = length-drop max rest in
    let some_left : (length rest == 0) ≡ false = ground arith in
    elim (Bool-cases (ltb (length chunk) (length rest))) [
      | inl t ↦
          let fed =
            feed-more hdr hh cs chunk streams filled (omega (arith, size)) (omega (arith, size))
              state in
          let all : concat (cs ++ chunk ∷ []) ++ drop max rest ≡ concat cs ++ rest =
            ap (λ l. l ++ drop max rest) (concat_last cs chunk)
            ∙ append_assoc (concat cs) chunk (drop max rest)
            ∙ ap (λ l. concat cs ++ l) (take-append-drop max rest) in
          let at : length (concat cs) + length chunk ≡ length (concat (cs ++ chunk ∷ [])) =
            sym (ap length (concat_last cs chunk) ∙ length-append (concat cs) chunk) in
          let later =
            feed_all-segments_from fuel hdr max (cs ++ chunk ∷ []) (drop max rest)
              (insert (key_of hdr) (partial (cs ++ chunk ∷ [])) streams) invalid_length hh hm
              (ground (arith, size, left, t)) (omega (arith, left))
              (All-last cs chunk filled (omega (arith, size))) (ground (arith, size, left, at, t))
              (ap state_of
                (lookup-insert_self (key_of hdr) (partial (cs ++ chunk ∷ [])) streams)) in
          let start =
            segments_from-step fuel hdr max (length (concat cs)) rest true some_left t
            ∙ ap
                (λ n.
                  segment hdr chunk (length (concat cs)) true
                  ∷ segments_from fuel hdr max n (drop max rest))
                at in
          let goes_on =
            ap (λ l. feed_all streams l last) start ∙ feed_all-step streams _ _ _ last _ fed in
          subst (Ended hdr (concat cs ++ rest)) (sym goes_on) (later.0 ∙ ap complete all, later.1)
      | inr t ↦
          let (whole, none_left) = take_whole max rest (ground (arith, size, t)) in
          let fed =
            feed-last hdr hh cs chunk streams filled (omega (arith, size)) (omega (arith, size))
              state in
          let start =
            segments_from-step fuel hdr max (length (concat cs)) rest false some_left t
            ∙ ap (λ l. segment hdr chunk (length (concat cs)) false ∷ l)
                (ap (segments_from fuel hdr max (length (concat cs) + length chunk)) none_left
                  ∙ segments_from-nil fuel hdr max _) in
          let all : concat (cs ++ chunk ∷ []) ≡ concat cs ++ rest =
            concat_last cs chunk ∙ ap (λ l. concat cs ++ l) whole in
          let ends =
            ap (λ l. feed_all streams l last) start ∙ feed_all-step streams _ _ [] last _ fed in
          subst (Ended hdr (concat cs ++ rest)) (sym ends) (
            ended hdr _ (erase (key_of hdr) streams) _ all (lookup-erase_self (key_of hdr) streams))
    ]

-- The segments of a message, fed in order to an assembler without a stream of its service, method,
-- client and session, give the payload with the last of them, and leave no stream behind. The
-- segments have one byte of payload at least, and the payload has one byte at least and fewer
-- than 2 ^ 28.
pub feed_all-segment_message :
    (hdr payload : List ℕ) (max_segment_payload : ℕ) (streams : Assembler)
    → length hdr ≡ 16
    → 1 ≤ max_segment_payload
    → 1 ≤ length payload
    → length payload < 2 ^ 28
    → lookup (key_of hdr) streams ≡ none
    → let (left, fed) =
        feed_all streams (segment_message hdr payload max_segment_payload) invalid_length in
      (fed ≡ complete payload) × (lookup (key_of hdr) left ≡ none)
unfolding segment_message
feed_all-segment_message hdr payload max streams hh hm hp small absent =
    feed_all-segments_from (length payload) hdr max [] payload streams invalid_length hh hm hp
      (omega arith) tt (omega arith) (ap state_of absent)
