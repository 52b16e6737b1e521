-- ===== src/Api/Application/Pending.antt =====
-- Pending responses are answered once.
use bsomeip.Common.{
  ℕ, suc, zero, ◌+◌, ◌-◌, ◌≤◌, ◌<◌, ◌≡◌, ◌≢◌, refl, ◌∙◌, true, false, Option, none, some, List, [],
  ◌∷◌, ◌++◌, length, length-append, length-replicate, take, drop, get_or, set, replicate,
  get_or-set_self, get_or-set_ne, ltb, leb, Bool-cases, inl, inr, arith,
}
use bsomeip.Wire.HeaderView.{payload_length, session, msg_type, ret_code}
use bsomeip.Wire.MessageType.{is_response}
use bsomeip.Api.Application.{
  App, answered, grown, register_pending, pending_at, dispatch_raw, route,
}

get_or-padded :
    {P : Type 0} (xs : List (Option P)) (n j : ℕ)
    → get_or (xs ++ replicate n none) j none ≡ get_or xs j none
get_or-padded [] zero j = refl
get_or-padded [] (suc n) zero = refl
get_or-padded [] (suc n) (suc j) = get_or-padded [] n j
get_or-padded (x ∷ xs) n zero = refl
get_or-padded (x ∷ xs) n (suc j) = get_or-padded xs n j

module _ {K : Type 0} {P : Type 0} (app : App K P) (idx : ℕ) where
  length-grown : idx < length (grown app.pending idx)
  length-grown = elim (Bool-cases (leb (length app.pending) idx)) [
    | inl t ↦
        let n = idx + 1 - length app.pending in
        let size = length-append app.pending (replicate n none) in
        let pad = length-replicate {A = Option P} n none in rw t (ground (arith, t, size, pad))
    | inr t ↦ rw t (ground (arith, t))
  ]

  get_or-grown : (j : ℕ) → get_or (grown app.pending idx) j none ≡ pending_at app j
  get_or-grown j = elim (Bool-cases (leb (length app.pending) idx)) [
    | inl t ↦ rw t (get_or-padded app.pending (idx + 1 - length app.pending) j)
    | inr t ↦ rw t refl
  ]

  pub pending_at-register_pending :
      (ctx : P)
      → (pending_at (register_pending app idx ctx) idx ≡ some ctx)
        × ((j : ℕ) → idx ≢ j → pending_at (register_pending app idx ctx) j ≡ pending_at app j)
  unfolding register_pending
  pending_at-register_pending ctx = (
    get_or-set_self (grown app.pending idx) idx (some ctx) none length-grown,
    (λ j ne. get_or-set_ne (grown app.pending idx) idx j (some ctx) none ne ∙ get_or-grown j),
  )

pub get_or-set-none :
    {P : Type 0} (xs : List (Option P)) (i : ℕ) → get_or (set xs i none) i none ≡ none
get_or-set-none [] i = refl
get_or-set-none (x ∷ xs) zero = refl
get_or-set-none (x ∷ xs) (suc i) = get_or-set-none xs i

-- What a response does to an application where its session is pending.
pub route_pending :
    {K P : Type 0} (app : App K P) (raw : List ℕ) (ctx : P)
    → 16 ≤ length raw
    → is_response (msg_type raw) ≡ true
    → pending_at app (session raw) ≡ some ctx
    → route app raw ≡ (
      record app { pending = set app.pending (session raw) none },
      answered ctx (take (payload_length raw) (drop 16 raw)) (ret_code raw),
    )
unfolding route
route_pending app raw ctx h t e =
    let big : ltb (length raw) 16 ≡ false = ground arith in rw (big, t, e) refl

-- And to one where it is not.
pub route_not_pending :
    {K P : Type 0} (app : App K P) (raw : List ℕ)
    → pending_at app (session raw) ≡ none
    → 16 ≤ length raw
    → route app raw ≡ dispatch_raw app raw
unfolding route
route_not_pending app raw e h =
    let big : ltb (length raw) 16 ≡ false = ground arith in
    elim (Bool-cases (is_response (msg_type raw))) [
      | inl t ↦ rw (big, t, e) refl
      | inr t ↦ rw (big, t) refl
    ]

-- A message that is no response goes the same way.
pub route_request :
    {K P : Type 0} (app : App K P) (raw : List ℕ)
    → is_response (msg_type raw) ≡ false
    → 16 ≤ length raw
    → route app raw ≡ dispatch_raw app raw
unfolding route
route_request app raw t h = let big : ltb (length raw) 16 ≡ false = ground arith in rw (big, t) refl

-- A response to a registered session is given to the context registered last for it, with the bytes
-- of its payload that the length field covers and its return code, and to no handler. The entry is
-- used up, so that the same response routed again goes to the handlers; the entries of other
-- sessions stay.
pub route-register_pending :
    {K P : Type 0} (app : App K P) (raw : List ℕ) (ctx : P)
    → 16 ≤ length raw
    → is_response (msg_type raw) ≡ true
    → let (after, r) = route (register_pending app (session raw) ctx) raw in
      (r ≡ answered ctx (take (payload_length raw) (drop 16 raw)) (ret_code raw))
      × (pending_at after (session raw) ≡ none)
      × (route after raw ≡ dispatch_raw after raw)
      × ((j : ℕ) → session raw ≢ j → pending_at after j ≡ pending_at app j)
route-register_pending app raw ctx h t =
    let n = session raw in
    let registered = register_pending app n ctx in
    let (here, others) = pending_at-register_pending app n ctx in
    let gone = get_or-set-none registered.pending n in
    rw (route_pending registered raw ctx h t here) (
      refl,
      gone,
      route_not_pending (record registered { pending = set registered.pending n none }) raw gone h,
      (λ j ne. get_or-set_ne registered.pending n j none none ne ∙ others j ne),
    )
