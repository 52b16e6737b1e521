-- ===== src/Sd/Discovery/Phases.antt =====
-- The phases that an offer and a find go through, however late their ticks come.
use bsomeip.Common.{
  ℕ, ◌+◌, ◌≤◌, ◌<◌, ◌≡◌, ◌⊎◌, inl, inr, refl, List, [], ◌∷◌, length, leb, Bool-cases, arith,
}
use bsomeip.Sd.Discovery.{
  down, repetition, main, SdConfig, Timer, first_wait, backoff, advance_phase, advance_find_phase,
}

-- The timer after it was due at these times.
unfoldable pub after : (SdConfig → Timer → ℕ → Timer) → SdConfig → Timer → (times : List ℕ) → Timer
after advance config s [] = s
after advance config s (now ∷ times) = after advance config (advance config s now) times

abbrev waiting : (next count : ℕ) → Timer
waiting next count = record { phase = repetition; next_send = next; repetition_count = count }

stays_main :
    (config : SdConfig) (times : List ℕ) (next count : ℕ)
    → (after advance_phase config
        (record { phase = main; next_send = next; repetition_count = count })
        times).phase
      ≡ main
unfolding after advance_phase
stays_main config [] next count = refl
stays_main config (now ∷ times) next count = stays_main config times _ count

stays_down :
    (config : SdConfig) (times : List ℕ) (next count : ℕ)
    → (after advance_find_phase config
        (record { phase = down; next_send = next; repetition_count = count })
        times).phase
      ≡ down
unfolding after advance_find_phase
stays_down config [] next count = refl
stays_down config (now ∷ times) next count = stays_down config times next count

offer_repeats :
    (config : SdConfig) (times : List ℕ) (next count : ℕ)
    → ((length times ≡ 0) ⊎ (count + length times < config.repetition_max)
        → (after advance_phase config (waiting next count) times).phase ≡ repetition)
      × (1 ≤ length times
          → config.repetition_max ≤ count + length times
          → (after advance_phase config (waiting next count) times).phase ≡ main)
unfolding after advance_phase
offer_repeats config [] next count = ((λ h. refl), (λ h g. absurd (omega arith)))
offer_repeats config (now ∷ times) next count =
    elim (Bool-cases (leb config.repetition_max (count + 1))) [
      | inl t ↦
          let last : config.repetition_max ≤ count + 1 = ground (arith, t) in
          rw (t, after) ((λ h. absurd (omega (arith, last))), (λ h g. stays_main config times _ _))
      | inr t ↦
          let more : count + 1 < config.repetition_max = ground (arith, t) in
          let (still, done) =
            offer_repeats config times (now + backoff config (count + 1)) (count + 1) in
          rw (t, after)
            ((λ h. still (ground arith)), (λ h g. done (omega (arith, more)) (omega arith)))
    ]

find_repeats :
    (config : SdConfig) (times : List ℕ) (next count : ℕ)
    → ((length times ≡ 0) ⊎ (count + length times < config.repetition_max)
        → (after advance_find_phase config (waiting next count) times).phase ≡ repetition)
      × (1 ≤ length times
          → config.repetition_max ≤ count + length times
          → (after advance_find_phase config (waiting next count) times).phase ≡ down)
unfolding after advance_find_phase
find_repeats config [] next count = ((λ h. refl), (λ h g. absurd (omega arith)))
find_repeats config (now ∷ times) next count =
    elim (Bool-cases (leb config.repetition_max (count + 1))) [
      | inl t ↦
          let last : config.repetition_max ≤ count + 1 = ground (arith, t) in
          rw (t, after) ((λ h. absurd (omega (arith, last))), (λ h g. stays_down config times _ _))
      | inr t ↦
          let more : count + 1 < config.repetition_max = ground (arith, t) in
          let (still, done) =
            find_repeats config times (now + backoff config (count + 1)) (count + 1) in
          rw (t, after)
            ((λ h. still (ground arith)), (λ h g. done (omega (arith, more)) (omega arith)))
    ]

-- An offer that was due for the first time is in its repetition phase, and stays in it as long as it
-- was due fewer times than `repetition_max`; from the second time on, once it was due that often, it
-- is in the main phase for good.
pub offer_phases :
    (config : SdConfig) (start first : ℕ) (times : List ℕ)
    → let t = after advance_phase config (first_wait config start) (first ∷ times) in
      ((length times ≡ 0) ⊎ (1 + length times < config.repetition_max) → t.phase ≡ repetition)
      × (1 ≤ length times → config.repetition_max ≤ 1 + length times → t.phase ≡ main)
unfolding after advance_phase
offer_phases config start first times =
    offer_repeats config times (first + config.repetition_base_delay) 1

-- A find goes the same way, but after its repetitions it is down for good.
pub find_phases :
    (config : SdConfig) (start first : ℕ) (times : List ℕ)
    → let t = after advance_find_phase config (first_wait config start) (first ∷ times) in
      ((length times ≡ 0) ⊎ (1 + length times < config.repetition_max) → t.phase ≡ repetition)
      × (1 ≤ length times → config.repetition_max ≤ 1 + length times → t.phase ≡ down)
unfolding after advance_find_phase
find_phases config start first times =
    find_repeats config times (first + config.repetition_base_delay) 1
