-- ===== src/Api/Application/Sessions.antt =====
-- The sessions that an application gives out.
use bsomeip.Common.{
  ℕ, zero, suc, ◌+◌, ◌%◌, ◌^◌, ◌≡◌, ◌⊎◌, inl, inr, refl, Bool-cases, ◌==◌, true, false,
  if◌then◌else◌, arith,
}
use bsomeip.Sd.Discovery.{SdConfig}
use bsomeip.Api.Application.{App, create, next_session}

counter_step :
    (n c d : ℕ)
    → d ≡ (if c == 0 then 2 else (c + 1) % 2 ^ 16)
    → (c ≡ n % 65535 + 1) ⊎ ((c ≡ 0) × (n % 65535 ≡ 0))
    → (d ≡ suc n % 65535 + 1) ⊎ ((d ≡ 0) × (suc n % 65535 ≡ 0))
counter_step n c d e (inl at) = elim (Bool-cases (n % 65535 == 65534)) [
  | inl t ↦ inr (ground (arith, t), ground (arith, t))
  | inr t ↦ inl (ground (arith, t))
]
counter_step n c d e (inr (at, m)) = inl (ground arith)

module _ {K P : Type 0} where
  -- After `n` calls.
  abbrev pub after_calls : (n : ℕ) → App K P → App K P
  after_calls zero app = app
  after_calls (suc n) app = (next_session (after_calls n app)).0

  next_counter :
      (app : App K P)
      → let c = app.session_counter in
        (next_session app).0.session_counter ≡ (if c == 0 then 2 else (c + 1) % 2 ^ 16)
  unfolding next_session
  next_counter app =
      let c = app.session_counter in
      elim (Bool-cases (c == 0)) [
        | inl t ↦ let zero_is : c ≡ 0 = ground (arith, t) in rw (t, zero_is) refl
        | inr t ↦ rw t refl
      ]

  counter_lem :
      (n : ℕ) (app : App K P)
      → app.session_counter ≡ 1
      → let c = (after_calls n app).session_counter in
        (c ≡ n % 65535 + 1) ⊎ ((c ≡ 0) × (n % 65535 ≡ 0))
  counter_lem zero app h = inl (omega arith)
  counter_lem (suc n) app h =
      counter_step n _ _ (next_counter (after_calls n app)) (counter_lem n app h)

-- The sessions of a new application run through 1 to 65535 and then begin again: the call after
-- `n` others gives `n % 65535 + 1`, never 0.
pub next_session_lem :
    (K P : Type 0) (n client : ℕ) (config : SdConfig)
    → (next_session (after_calls n (create {K = K} {P = P} client config))).1 ≡ n % 65535 + 1
unfolding next_session create
next_session_lem K P n client config =
    let app = create {K = K} {P = P} client config in
    let c = (after_calls n app).session_counter in
    elim (counter_lem n app refl) [
      | inl e ↦ let nonzero : (c == 0) ≡ false = ground (arith, e) in rw nonzero e
      | inr (e, m) ↦
          let iszero : (c == 0) ≡ true = ground (arith, e) in rw iszero (ground (arith, e, m))
    ]
