-- ===== src/Sd/Message/Bytes.antt =====
-- The bytes that a message is written as.
use bsomeip.Common.{
  ℕ, suc, ◌+◌, ◌*◌, ◌≤◌, ◌≡◌, refl, sym, ap, ◌∙◌, List, [], ◌∷◌, ◌++◌, append-nil, append_assoc,
  length, length-append, length-take, length-drop, replicate, take, drop, take-append, drop-append,
  drop-append_more, drop-drop, Bool-cases, inl, inr, arith,
}
use bsomeip.Sd.Entry.{SdEntry, is_service_entry, write_entry}
use bsomeip.Sd.Option.{SdOption, ipv4, ipv6, write_option}
use bsomeip.Sd.Option.RoundTrip.{option_bytes, option_size, length-option_bytes, write_option_lem}
use bsomeip.Sd.Message.{options_length, write_entry_at, write_entries, write_options}

unfoldable pub entry_bytes : SdEntry → List ℕ
unfolding write_entry
entry_bytes e = write_entry (replicate 16 0) e

-- The old bytes do not show.
write_entry_lem : (p : List ℕ) (e : SdEntry) → length p ≡ 16 → write_entry p e ≡ entry_bytes e
unfolding entry_bytes
write_entry_lem
      (p0 ∷ p1 ∷ p2 ∷ p3 ∷ p4 ∷ p5 ∷ p6 ∷ p7 ∷ p8 ∷ p9 ∷ p10 ∷ p11 ∷ p12 ∷ p13 ∷ p14 ∷ p15 ∷ []) e
      h =
    elim (Bool-cases (is_service_entry e.entry_type)) [ inl t ↦ rw t | inr t ↦ rw t ]
write_entry_lem _ e h = absurd (omega arith)

pub length-entry_bytes : (e : SdEntry) → length (entry_bytes e) ≡ 16
unfolding entry_bytes
length-entry_bytes e = elim (Bool-cases (is_service_entry e.entry_type)) [
  | inl t ↦ rw t
  | inr t ↦ rw t
]

abbrev pub entries_bytes : List SdEntry → List ℕ
entries_bytes [] = []
entries_bytes (e ∷ es) = entry_bytes e ++ entries_bytes es

abbrev pub options_bytes : List SdOption → List ℕ
options_bytes [] = []
options_bytes (o ∷ os) = option_bytes o ++ options_bytes os

pub length-entries_bytes : (es : List SdEntry) → length (entries_bytes es) ≡ length es * 16
length-entries_bytes [] = refl
length-entries_bytes (e ∷ es) = omega (
  arith,
  length-append (entry_bytes e) (entries_bytes es),
  length-entry_bytes e,
  length-entries_bytes es,
)

pub options_length-size :
    (o : SdOption) (os : List SdOption)
    → options_length (o ∷ os) ≡ option_size o + options_length os
options_length-size (ipv4 o) os = refl
options_length-size (ipv6 o) os = refl

pub length-options_bytes : (os : List SdOption) → length (options_bytes os) ≡ options_length os
length-options_bytes [] = refl
length-options_bytes (o ∷ os) = omega (
  arith,
  length-append (option_bytes o) (options_bytes os),
  length-option_bytes o,
  length-options_bytes os,
  options_length-size o os,
)

add-zero : (n : ℕ) → n + 0 ≡ n
add-zero n = omega arith

regroup : (off n : ℕ) → off + 16 + n * 16 ≡ off + suc n * 16
regroup off n = omega arith

-- One entry, where the buffer is written up to it.
write_entry_at-append :
    (front p : List ℕ) (off : ℕ) (e : SdEntry)
    → off ≡ length front
    → 16 ≤ length p
    → write_entry_at (front ++ p) off e ≡ (front ++ entry_bytes e) ++ drop 16 p
write_entry_at-append front p off e at h =
    let before = take-append off front p at in
    let here = drop-append off front p at in
    let behind = drop-append_more front p (off + 16) 16 (omega arith) in
    let size : length (take 16 p) ≡ 16 = omega (arith, length-take 16 p) in
    let bytes = ap (λ l. write_entry (take 16 l) e) here ∙ write_entry_lem (take 16 p) e size in
    λ i. before i ++ bytes i ++ behind i

pub write_entries-append :
    (front p : List ℕ) (off : ℕ) (es : List SdEntry)
    → off ≡ length front
    → length es * 16 ≤ length p
    → write_entries (front ++ p) off es
      ≡ ((front ++ entries_bytes es) ++ drop (length es * 16) p, off + length es * 16)
unfolding write_entries
write_entries-append front p off [] at h =
    λ i. (sym (append-nil front) i ++ p, sym (add-zero off) i)
write_entries-append front p off (e ∷ es) at h =
    let eb = entry_bytes e in
    let n = length es * 16 in
    let next = length-append front eb in
    let size = length-entry_bytes e in
    ap (λ l. write_entries l (off + 16) es) (write_entry_at-append front p off e at (omega arith))
    ∙ write_entries-append (front ++ eb) (drop 16 p) (off + 16) es (omega (arith, next, size))
        (omega (arith, length-drop 16 p))
    ∙ λ i. (
      append_assoc front eb (entries_bytes es) i
          ++ drop-drop 16 n (length (e ∷ es) * 16) p (omega arith) i,
      regroup off (length es) i,
    )

pub write_options-append :
    (front p : List ℕ) (off : ℕ) (os : List SdOption)
    → off ≡ length front
    → options_length os ≤ length p
    → write_options (front ++ p) off os ≡ (front ++ options_bytes os) ++ drop (options_length os) p
unfolding write_options
write_options-append front p off [] at h = λ i. sym (append-nil front) i ++ p
write_options-append front p off (o ∷ os) at h =
    let ob = option_bytes o in
    let n = option_size o in
    let here = drop-append off front p at in
    let head = options_length-size o os in
    let written = ap (λ l. write_option l o) here ∙ write_option_lem p o (omega (arith, head)) in
    let step : write_options (front ++ p) off (o ∷ os)
        ≡ write_options ((front ++ ob) ++ drop n p) (off + n) os =
      (λ i. write_options (take-append off front p at i ++ (written i).0) (off + (written i).1) os)
      ∙ ap (λ l. write_options l (off + n) os) (sym (append_assoc front ob (drop n p))) in
    step
    ∙ write_options-append (front ++ ob) (drop n p) (off + n) os
        (omega (arith, length-append front ob, length-option_bytes o))
        (omega (arith, length-drop n p, head))
    ∙ λ i.
        append_assoc front ob (options_bytes os) i
        ++ drop-drop n (options_length os) (options_length (o ∷ os)) p head i
