-- ===== src/Io/Framer/Stream.antt =====
-- What a byte stream means to the framer, apart from its loops and its buffer.
use bsomeip.Common.{
  ℕ, zero, suc, ◌+◌, ◌≤◌, ◌<◌, ◌≡◌, refl, sym, ap, ◌∙◌, subst, Bool, Bool-cases, inl, inr, List, [],
  ◌∷◌, ◌++◌, length, length-append, take, drop, ltb, arith,
}
use bsomeip.Wire.HeaderView.{message_size, payload_length}
use bsomeip.Io.Framer.{need_more, message, skip, round_of, round, is_magic_cookie}

-- A stream, the messages in it, and the bytes that are left over.
pub data Stream : List ℕ → List (List ℕ) → List ℕ → Type 0 where
  rest : (buf : List ℕ) → round buf ≡ need_more → Stream buf [] buf
  found :
      (buf : List ℕ) (n : ℕ) (ms : List (List ℕ)) (left : List ℕ)
      → round buf ≡ message n
      → Stream (drop n buf) ms left
      → Stream buf (take n buf ∷ ms) left
  skipped :
      (buf : List ℕ) (n : ℕ) (ms : List (List ℕ)) (left : List ℕ)
      → round buf ≡ skip n
      → Stream (drop n buf) ms left
      → Stream buf ms left

-- The header decides alike whatever follows it.
pub header_append :
    (a b : List ℕ)
    → 16 ≤ length a
    → (is_magic_cookie (a ++ b) ≡ is_magic_cookie a) × (message_size (a ++ b) ≡ message_size a)
unfolding is_magic_cookie message_size
header_append
      (b0 ∷ b1 ∷ b2 ∷ b3 ∷ b4 ∷ b5 ∷ b6 ∷ b7 ∷ b8 ∷ b9 ∷ b10 ∷ b11 ∷ b12 ∷ b13 ∷ b14 ∷ b15 ∷ r) b
      h =
    (refl, refl)
header_append _ b h = absurd (omega arith)

round_of-bounds :
    (size n k : ℕ) (cookie : Bool)
    → (round_of size cookie (16 + k) ≡ message n → (16 ≤ n) × (n ≤ size))
      × (round_of size cookie (16 + k) ≡ skip n → (1 ≤ n) × (n ≤ size))
round_of-bounds size n k cookie = ground arith

round_of_more :
    (size more n k : ℕ) (cookie : Bool)
    → (round_of size cookie k ≡ message n → round_of (size + more) cookie k ≡ message n)
      × (round_of size cookie k ≡ skip n → round_of (size + more) cookie k ≡ skip n)
round_of_more size more n k cookie = ground arith

round_of_short : (size k : ℕ) (cookie : Bool) → size < 16 → round_of size cookie k ≡ need_more
round_of_short size k cookie h = ground arith

-- A message or a skip takes bytes that are there, a message at least its header.
pub round-bounds :
    (buf : List ℕ) (n : ℕ)
    → (round buf ≡ message n → (16 ≤ n) × (n ≤ length buf))
      × (round buf ≡ skip n → (1 ≤ n) × (n ≤ length buf))
unfolding round message_size
round-bounds buf n = round_of-bounds (length buf) n (payload_length buf) (is_magic_cookie buf)

-- And more bytes change neither.
pub round_append :
    (a b : List ℕ) (n : ℕ)
    → (round a ≡ message n → round (a ++ b) ≡ message n)
      × (round a ≡ skip n → round (a ++ b) ≡ skip n)
unfolding round
round_append a b n = elim (Bool-cases (ltb (length a) 16)) [
  | inl t ↦
      let waits : round a ≡ need_more =
        round_of_short (length a) (message_size a) (is_magic_cookie a) (ground (arith, t)) in
      (
        (λ e. let bad : need_more ≡ message n = sym waits ∙ e in ground (arith, bad)),
        (λ e. let bad : need_more ≡ skip n = sym waits ∙ e in ground (arith, bad)),
      )
  | inr t ↦
      let (cookie, size) = header_append a b (ground (arith, t)) in
      let whole : round (a ++ b)
          ≡ round_of (length a + length b) (is_magic_cookie a) (message_size a) =
        λ i. round_of (length-append a b i) (cookie i) (size i) in
      let same = round_of_more (length a) (length b) n (message_size a) (is_magic_cookie a) in
      ((λ e. whole ∙ same.0 e), (λ e. whole ∙ same.1 e))
]

pub drop_append_within : (n : ℕ) (a b : List ℕ) → n ≤ length a → drop n (a ++ b) ≡ drop n a ++ b
drop_append_within zero a b h = refl
drop_append_within (suc n) [] b h = absurd (omega arith)
drop_append_within (suc n) (x ∷ a) b h = drop_append_within n a b (omega arith)

pub take_append_within : (n : ℕ) (a b : List ℕ) → n ≤ length a → take n (a ++ b) ≡ take n a
take_append_within zero a b h = refl
take_append_within (suc n) [] b h = absurd (omega arith)
take_append_within (suc n) (x ∷ a) b h = ap (λ l. x ∷ l) (take_append_within n a b (omega arith))

-- The left-over bytes of a stream, continued by more, continue the stream.
pub Stream-append :
    (a b : List ℕ) (ms ns : List (List ℕ)) (left end : List ℕ)
    → Stream a ms left
    → Stream (left ++ b) ns end
    → Stream (a ++ b) (ms ++ ns) end
Stream-append _ b _ ns _ end (rest buf e) t = t
Stream-append _ b _ ns _ end (found buf n ms left e s) t =
    let within = ((round-bounds buf n).0 e).1 in
    let later : Stream (drop n (buf ++ b)) (ms ++ ns) end =
      rw (drop_append_within n buf b within) (Stream-append (drop n buf) b ms ns left end s t) in
    rw (sym (take_append_within n buf b within))
      (found (buf ++ b) n (ms ++ ns) end ((round_append buf b n).0 e) later)
Stream-append _ b _ ns _ end (skipped buf n ms left e s) t =
    let within = ((round-bounds buf n).1 e).1 in
    let later : Stream (drop n (buf ++ b)) (ms ++ ns) end =
      rw (drop_append_within n buf b within) (Stream-append (drop n buf) b ms ns left end s t) in
    skipped (buf ++ b) n (ms ++ ns) end ((round_append buf b n).1 e) later

-- What a stream means is unique.
pub Stream-unique :
    (buf : List ℕ) (ms ns : List (List ℕ)) (left end : List ℕ)
    → Stream buf ms left
    → Stream buf ns end
    → ms ≡ ns
Stream-unique _ _ _ _ _ (rest buf e) (rest _ f) = refl
Stream-unique _ _ _ _ _ (rest buf e) (found _ n ms left f t) =
    let bad : need_more ≡ message n = sym e ∙ f in ground (arith, bad)
Stream-unique _ _ _ _ _ (rest buf e) (skipped _ n ms left f t) =
    let bad : need_more ≡ skip n = sym e ∙ f in ground (arith, bad)
Stream-unique _ _ _ _ _ (found buf n ms left e s) (rest _ f) =
    let bad : need_more ≡ message n = sym f ∙ e in ground (arith, bad)
Stream-unique _ _ _ _ _ (found buf n ms left e s) (found _ m ns end f t) =
    let both : message n ≡ message m = sym e ∙ f in
    let same : m ≡ n = ground (arith, both) in
    let t : Stream (drop n buf) ns end = subst (λ k. Stream (drop k buf) ns end) same t in
    λ i. take (sym same i) buf ∷ Stream-unique (drop n buf) ms ns left end s t i
Stream-unique _ _ _ _ _ (found buf n ms left e s) (skipped _ m ns end f t) =
    let bad : message n ≡ skip m = sym e ∙ f in ground (arith, bad)
Stream-unique _ _ _ _ _ (skipped buf n ms left e s) (rest _ f) =
    let bad : need_more ≡ skip n = sym f ∙ e in ground (arith, bad)
Stream-unique _ _ _ _ _ (skipped buf n ms left e s) (found _ m ns end f t) =
    let bad : skip n ≡ message m = sym e ∙ f in ground (arith, bad)
Stream-unique _ _ _ _ _ (skipped buf n ms left e s) (skipped _ m ns end f t) =
    let both : skip n ≡ skip m = sym e ∙ f in
    let same : m ≡ n = ground (arith, both) in
    Stream-unique (drop n buf) ms ns left end s (subst (λ k. Stream (drop k buf) ns end) same t)
