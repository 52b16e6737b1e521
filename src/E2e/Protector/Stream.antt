-- ===== src/E2e/Protector/Stream.antt =====
-- The stream of messages from a `protect_sender` to a `check_sender`, over any profile.
use bsomeip.Common.{
  ℕ, zero, suc, replicate, ◌+◌, ◌-◌, ◌%◌, ◌^◌, ◌≤◌, ◌<◌, ◌≡◌, ◌⊎◌, inl, inr, refl, sym, ap, ◌∙◌,
  subst, arith, List, [], ◌∷◌, ◌++◌, map, length, length-append, length-take, length-drop, take,
  drop, drop-append, All, IsByte, ltb, leb, true, false, if◌then◌else◌,
}
use bsomeip.Wire.HeaderView.{header_size, set_payload_length}
use bsomeip.Wire.Bytes.Laws.{length-write_u32_be, drop-write_u32_be}
use bsomeip.E2e.Result.{E2eResult, ok, repeated, counter_result, counter_result-ok}
use bsomeip.E2e.Protector.{
  Profile, ProfileLaws, Completion, set_value, set_error, forwarded, protect_message, check_message,
}

-- All messages in order, through one sender.
unfoldable pub protect_all :
    {C : Type 0} (profile : Profile C) → C → List (List ℕ) → ℕ → List (List ℕ)
unfolding protect_message
protect_all profile config [] send_counter = []
protect_all profile config (msg ∷ msgs) send_counter =
    let (sent, next) = protect_message profile config msg send_counter in
    sent ∷ protect_all profile config msgs next

-- All messages in order, through one receiver.
unfoldable pub check_all :
    {C : Type 0} (profile : Profile C) → C → List (List ℕ) → ℕ → List Completion
unfolding check_message
check_all profile config [] recv_counter = []
check_all profile config (msg ∷ msgs) recv_counter =
    let (out, next) = check_message profile config msg recv_counter in
    out ∷ check_all profile config msgs next

drop-set_payload_length :
    (n : ℕ) (p : List ℕ) → drop header_size (set_payload_length p n) ≡ drop header_size p
unfolding set_payload_length
drop-set_payload_length n p = drop-write_u32_be header_size p 4 _ (omega arith)

length-set_payload_length : (n : ℕ) (p : List ℕ) → length (set_payload_length p n) ≡ length p
unfolding set_payload_length
length-set_payload_length n p = length-write_u32_be p 4 _

-- The arithmetic of the counters at a modulus.
abbrev Counters : ℕ → Type 0
Counters m =
    (counter last : ℕ)
    → counter < 2 ^ 32
    → last < 2 ^ 32
    → ((last + 1) % m ≡ counter % m → (counter + 2 ^ 32 - last) % m ≡ 1)
      × ((counter % m + 1) % m ≡ (counter + 1) % 2 ^ 32 % m)
      × ((counter + 2 ^ 32 - counter % m) % m ≡ 0)
      × (counter % m < 2 ^ 32)

counters : (m : ℕ) → (m ≡ 2 ^ 4) ⊎ ((m ≡ 2 ^ 16) ⊎ (m ≡ 2 ^ 32)) → Counters m
counters m (inl e) =
    subst Counters (sym e)
      (λ c l hc hl. ((λ h. omega arith), omega arith, omega arith, omega arith))
counters m (inr (inl e)) =
    subst Counters (sym e)
      (λ c l hc hl. ((λ h. omega arith), omega arith, omega arith, omega arith))
counters m (inr (inr e)) =
    subst Counters (sym e)
      (λ c l hc hl. ((λ h. omega arith), omega arith, omega arith, omega arith))

module _ {C : Type 0} (profile : Profile C) (laws : ProfileLaws profile) (config : C) where
  -- A message with a payload that fits the profile.
  abbrev pub Sendable : List ℕ → Type 0
  Sendable msg =
      (header_size < length msg)
      × All IsByte (drop header_size msg)
      × laws.Fits config (drop header_size msg)

  -- What a receiver makes of a counter.
  abbrev pub verdict : ℕ → ℕ → E2eResult
  verdict counter last =
      counter_result ((counter + 2 ^ 32 - last) % laws.modulus) (laws.max_delta config)

  sent_lem :
      (msg : List ℕ) (counter : ℕ)
      → Sendable msg
      → let sent = (protect_message profile config msg counter).0 in
        (header_size < length sent)
        × (drop header_size sent
            ≡ profile.protect (drop header_size msg) config (profile.narrow_send counter))
        × ((protect_message profile config msg counter).1 ≡ (counter + 1) % 2 ^ 32)
  unfolding protect_message
  sent_lem msg counter h =
      let payload = drop header_size msg in
      let protected = profile.protect payload config (profile.narrow_send counter) in
      let whole = take header_size msg ++ protected in
      let n = length payload in
      let long : ltb header_size (length msg) ≡ true = ground (arith, h.0) in
      let head : length (take header_size msg) ≡ 16 =
        omega (arith, length-take header_size msg, h.0) in
      let size : header_size < length whole = omega (
        arith,
        length-append (take header_size msg) protected,
        laws.length-protect payload config (profile.narrow_send counter),
        length-drop header_size msg,
        h.0,
      ) in
      rw (long) (
        omega (arith, length-set_payload_length n whole),
        drop-set_payload_length n whole
            ∙ drop-append header_size (take header_size msg) protected (sym head),
        refl,
      )

  -- A protected message arrives as the verdict on the two counters says, whatever its payload, and
  -- the receiver's counter becomes the sender's, modulo the range of the profile.
  pub check_message-protect_message :
      (msg : List ℕ) (counter last : ℕ)
      → Sendable msg
      → counter < 2 ^ 32
      → last < 2 ^ 32
      → let sent = (protect_message profile config msg counter).0 in
        check_message profile config sent last ≡ (
          (if forwarded (verdict counter last)
              then set_value sent
              else set_error (verdict counter last)),
          counter % laws.modulus,
        )
  unfolding check_message
  check_message-protect_message msg counter last h hc hl =
      let (size, payload, _) = sent_lem msg counter h in
      let long : leb (length (protect_message profile config msg counter).0) header_size ≡ false =
        ground (arith, size) in
      rw
        (long, payload, laws.check-protect (drop header_size msg) config counter last h.1 h.2 hc hl)

  -- In order and without loss every message is accepted, over any number of wraps of the counter,
  -- when the limit on the counter's step allows one and the receiver is one step behind the sender.
  pub check_all-protect_all :
      (msgs : List (List ℕ)) (counter last : ℕ)
      → 1 ≤ laws.max_delta config
      → All Sendable msgs
      → counter < 2 ^ 32
      → last < 2 ^ 32
      → (last + 1) % laws.modulus ≡ counter % laws.modulus
      → check_all profile config (protect_all profile config msgs counter) last
        ≡ map set_value (protect_all profile config msgs counter)
  unfolding check_all protect_all
  check_all-protect_all [] counter last hm h hc hl e = refl
  check_all-protect_all (msg ∷ msgs) counter last hm h hc hl e =
      let (step, next, _, small) = counters laws.modulus laws.modulus_cases counter last hc hl in
      let accepted : verdict counter last ≡ ok =
        rw (step e) ((counter_result-ok 1 _).1 (omega arith, hm)) in
      let arrives = check_message-protect_message msg counter last h.0 hc hl in
      let goes_on : (protect_message profile config msg counter).1 ≡ (counter + 1) % 2 ^ 32 =
        (sent_lem msg counter h.0).2 in
      rw (arrives, accepted, goes_on)
        (ap (λ rest. set_value (protect_message profile config msg counter).0 ∷ rest)
          (check_all-protect_all msgs ((counter + 1) % 2 ^ 32) (counter % laws.modulus) hm h.1
            (omega arith) small next))

  refused :
      (msg : List ℕ) (counter : ℕ)
      → Sendable msg
      → counter < 2 ^ 32
      → let sent = (protect_message profile config msg counter).0 in
        check_message profile config sent (counter % laws.modulus)
        ≡ (set_error repeated, counter % laws.modulus)
  unfolding counter_result
  refused msg counter h hc =
      let (_, _, none_lost, small) =
        counters laws.modulus laws.modulus_cases counter 0 hc (omega arith) in
      let again : verdict counter (counter % laws.modulus) ≡ repeated = rw none_lost in
      check_message-protect_message msg counter (counter % laws.modulus) h hc small ∙ rw again

  all_refused :
      (msg : List ℕ) (counter n : ℕ)
      → Sendable msg
      → counter < 2 ^ 32
      → let sent = (protect_message profile config msg counter).0 in
        check_all profile config (replicate n sent) (counter % laws.modulus)
        ≡ replicate n (set_error repeated)
  unfolding check_all
  all_refused msg counter zero h hc = refl
  all_refused msg counter (suc n) h hc =
      rw (refused msg counter h hc)
        (ap (λ outs. set_error repeated ∷ outs) (all_refused msg counter n h hc))

  -- A message that arrives in order is accepted, and each of any number of copies of it that arrive
  -- right behind it is refused as a repetition, by the counter that the receiver itself has stored.
  -- The limit on the counter's step allows one and the receiver is one step behind the sender.
  pub check_all_replay :
      (msg : List ℕ) (counter last n : ℕ)
      → 1 ≤ laws.max_delta config
      → Sendable msg
      → counter < 2 ^ 32
      → last < 2 ^ 32
      → (last + 1) % laws.modulus ≡ counter % laws.modulus
      → let sent = (protect_message profile config msg counter).0 in
        check_all profile config (sent ∷ replicate n sent) last
        ≡ set_value sent ∷ replicate n (set_error repeated)
  unfolding check_all
  check_all_replay msg counter last n hm h hc hl e =
      let (step, _, _, _) = counters laws.modulus laws.modulus_cases counter last hc hl in
      let accepted : verdict counter last ≡ ok =
        rw (step e) ((counter_result-ok 1 _).1 (omega arith, hm)) in
      rw (check_message-protect_message msg counter last h hc hl, accepted)
        (ap (λ outs. set_value (protect_message profile config msg counter).0 ∷ outs)
          (all_refused msg counter n h hc))
