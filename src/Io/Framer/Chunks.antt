-- ===== src/Io/Framer/Chunks.antt =====
-- The framer gives out the messages of the stream, however the stream comes in chunks.
use bsomeip.Common.{
  ℕ, zero, suc, ◌≤◌, ◌<◌, ◌≡◌, ◌⊎◌, inl, inr, refl, sym, ap, subst, Option, none, some,
  Option-cases, List, [], ◌∷◌, ◌++◌, append-nil, append_assoc, length, length-drop, take, drop,
  arith,
}
use bsomeip.Io.Framer.{
  Framer, empty, feed, Round, need_more, message, skip, round, given, scan, next_message, drain,
  receive,
}
use bsomeip.Io.Framer.Stream.{
  Stream, rest, found, skipped, round-bounds, Stream-append, Stream-unique,
}

-- The bytes that are not consumed yet.
abbrev pub pending : Framer → List ℕ
pending f = drop f.consumed f.buf

Round-cases :
    (r : Round) → (r ≡ need_more) ⊎ (((n : ℕ) × (r ≡ message n)) ⊎ ((n : ℕ) × (r ≡ skip n)))
Round-cases need_more = inl refl
Round-cases (message n) = inr (inl (n, refl))
Round-cases (skip n) = inr (inr (n, refl))

-- What the loop did, as a relation: skips, and then the end.
data Scanned : List ℕ → List ℕ → Option ℕ → Type 0 where
  waits : (buf : List ℕ) → round buf ≡ need_more → Scanned buf buf none
  finds : (buf : List ℕ) (n : ℕ) → round buf ≡ message n → Scanned buf buf (some n)
  skips :
      (buf buf2 : List ℕ) (n : ℕ) (r : Option ℕ)
      → round buf ≡ skip n
      → Scanned (drop n buf) buf2 r
      → Scanned buf buf2 r

pub empty_waits : round [] ≡ need_more
unfolding round
empty_waits = refl

-- With the size of the buffer as fuel the loop ends by itself.
scan-Scanned : (n : ℕ) (buf : List ℕ) → length buf ≤ n → Scanned buf (scan n buf).0 (scan n buf).1
unfolding scan
scan-Scanned zero [] h = waits [] empty_waits
scan-Scanned zero (x ∷ buf) h = absurd (omega arith)
scan-Scanned (suc n) buf h = elim (Round-cases (round buf)) [
  | inl e ↦ rw (e, scan) (waits buf e)
  | inr (inl (k, e)) ↦ rw (e, scan) (finds buf k e)
  | inr (inr (k, e)) ↦
      let shorter = (round-bounds buf k).1 e in
      rw (e, scan)
        (skips buf _ k _ e
          (scan-Scanned n (drop k buf) (omega (arith, length-drop k buf, shorter))))
]

-- How the loop ended.
abbrev Ends : List ℕ → Option ℕ → Type 0
Ends buf none = round buf ≡ need_more
Ends buf (some n) = round buf ≡ message n

scanned_lem :
    (buf buf2 : List ℕ) (r : Option ℕ)
    → Scanned buf buf2 r
    → (length buf2 ≤ length buf)
      × ((ms : List (List ℕ)) (left : List ℕ) → Stream buf2 ms left → Stream buf ms left)
      × Ends buf2 r
scanned_lem _ _ _ (waits buf e) = (omega arith, (λ ms left s. s), e)
scanned_lem _ _ _ (finds buf n e) = (omega arith, (λ ms left s. s), e)
scanned_lem _ _ _ (skips buf buf2 n r e s) =
    let (shorter, back, ends) = scanned_lem (drop n buf) buf2 r s in
    (
      omega (arith, shorter, length-drop n buf),
      (λ ms left t. skipped buf n ms left e (back ms left t)),
      ends,
    )

-- Nothing more can be taken out.
pub record Idle (f : Framer) : Type 0 where
  pub clean : f.consumed ≡ 0
  pub waiting : round f.buf ≡ need_more

next_message-none :
    (f : Framer) (buf : List ℕ)
    → scan (length (pending f)) (pending f) ≡ (buf, none)
    → next_message f ≡ (record { buf = buf; consumed = 0 }, none)
unfolding next_message
next_message-none f buf e = ap (λ (p : List ℕ × Option ℕ). given p.0 p.1) e

next_message-some :
    (f : Framer) (buf : List ℕ) (k : ℕ)
    → scan (length (pending f)) (pending f) ≡ (buf, some k)
    → next_message f ≡ (record { buf = buf; consumed = k }, some (take k buf))
unfolding next_message
next_message-some f buf k e = ap (λ (p : List ℕ × Option ℕ). given p.0 p.1) e

drain-none : (n : ℕ) (f g : Framer) → next_message f ≡ (g, none) → drain (suc n) f ≡ ([], g)
unfolding drain
drain-none n f g e =
    let none_found = ap (λ (p : Framer × Option (List ℕ)). p.1) e in
    let next = ap (λ (p : Framer × Option (List ℕ)). p.0) e in rw (drain, none_found, next)

drain-some :
    (n : ℕ) (f g : Framer) (m : List ℕ)
    → next_message f ≡ (g, some m)
    → drain (suc n) f ≡ (m ∷ (drain n g).0, (drain n g).1)
unfolding drain
drain-some n f g m e =
    let some_found = ap (λ (p : Framer × Option (List ℕ)). p.1) e in
    let next = ap (λ (p : Framer × Option (List ℕ)). p.0) e in rw (drain, some_found, next)

-- The caller's loop, on more fuel than there are bytes, gives out the messages of the stream and
-- leaves the framer with the rest.
pub drain-Stream :
    (n : ℕ) (f : Framer)
    → length (pending f) < n
    → Stream (pending f) (drain n f).0 (pending (drain n f).1) × Idle (drain n f).1
drain-Stream zero f h = absurd (omega arith)
drain-Stream (suc n) f h =
    let buf = pending f in
    let s = scan-Scanned (length buf) buf (omega arith) in
    let (shorter, back, ends) = scanned_lem buf _ _ s in
    elim (Option-cases (scan (length buf) buf).1) [
      | inl e ↦
          let waiting : round (scan (length buf) buf).0 ≡ need_more = subst (Ends _) e ends in
          let stopped =
            drain-none n f _ (next_message-none f _ (λ i. ((scan (length buf) buf).0, e i))) in
          rw stopped (back [] _ (rest _ waiting), record { clean = refl; waiting = waiting })
      | inr (k, e) ↦
          let buf2 = (scan (length buf) buf).0 in
          let g : Framer = record { buf = buf2; consumed = k } in
          let here : round buf2 ≡ message k = subst (Ends _) e ends in
          let (big, within) = (round-bounds buf2 k).0 here in
          let (later, idle) =
            drain-Stream n g (omega (arith, length-drop k buf2, big, within, shorter)) in
          let goes_on = drain-some n f g _ (next_message-some f buf2 k (λ i. (buf2, e i))) in
          rw goes_on (back _ _ (found buf2 k _ _ here later), idle)
    ]

pending-feed : (f : Framer) (b : List ℕ) → Idle f → pending (feed f b) ≡ f.buf ++ b
unfolding feed
pending-feed f b idle = rw (idle.clean)

abbrev pub concat : List (List ℕ) → List ℕ
concat [] = []
concat (c ∷ cs) = c ++ concat cs

-- Feeding and draining chunk by chunk gives out the messages of the whole stream.
pub receive-Stream :
    (chunks : List (List ℕ)) (f : Framer)
    → Idle f
    → Stream (f.buf ++ concat chunks) (receive chunks f).0 (receive chunks f).1.buf
      × Idle (receive chunks f).1
unfolding receive
receive-Stream [] f idle = (rw (append-nil f.buf) (rest f.buf (idle.waiting)), idle)
receive-Stream (chunk ∷ chunks) f idle =
    let g = feed f chunk in
    let enough : length (pending g) < suc (length g.buf) =
      omega (arith, length-drop g.consumed g.buf) in
    let (first, idle2) = drain-Stream (suc (length g.buf)) g enough in
    let (ms, h) = drain (suc (length g.buf)) g in
    let (later, idle3) = receive-Stream chunks h idle2 in
    let begun : Stream (f.buf ++ chunk) ms h.buf =
      subst (λ b. Stream b ms h.buf) (pending-feed f chunk idle)
        (subst (λ k. Stream (pending g) ms (drop k h.buf)) (idle2.clean) first) in
    (
      rw (sym (append_assoc f.buf chunk (concat chunks)))
          (Stream-append (f.buf ++ chunk) (concat chunks) ms _ h.buf _ begun later),
      idle3,
    )

pub empty-Idle : Idle empty
empty-Idle = record { clean = refl; waiting = empty_waits }

-- Two ways to cut the same bytes into chunks give the same messages.
pub receive_chunks :
    (chunks others : List (List ℕ))
    → concat chunks ≡ concat others
    → (receive chunks empty).0 ≡ (receive others empty).0
receive_chunks chunks others e =
    let (one, _) = receive-Stream chunks empty empty-Idle in
    let (other, _) = receive-Stream others empty empty-Idle in
    Stream-unique (concat others) _ _ _ _
      (subst (λ b. Stream b (receive chunks empty).0 (receive chunks empty).1.buf) e one) other
