-- ===== src/Sd/Message/Parse.antt =====
-- Any payload is answered, and what is read from it is bounded by its size.
use bsomeip.Common.{
  IsByte, ℕ, zero, suc, ◌+◌, ◌*◌, ◌/◌, ◌%◌, ◌^◌, ◌≤◌, ◌<◌, ◌≡◌, ◌⊎◌, inl, inr, ◌∙◌, false, not,
  ◌||◌, List, [], ◌∷◌, ◌++◌, length, length-append, take, drop, All, ltb, ◌==◌, if◌then◌else◌,
  Bool-cases, arith,
}
use bsomeip.Wire.Bytes.{byte, read_u32_be}
use bsomeip.Wire.Bytes.Laws.{read_u32_be_lem}
use bsomeip.Sd.Entry.{SdEntry, read_entry}
use bsomeip.Sd.Option.{
  SdOption, ipv4, ipv6, read_option_size, peek_option_type, read_ipv4_option, read_ipv6_option,
}
use bsomeip.Sd.Discovery.{SdMessage}
use bsomeip.Sd.Message.{
  from_byte, SdError, buffer_too_small, invalid_entries_length, invalid_options_length,
  truncated_option, Parsed, ok, err, read_entries, read_option, read_options, read_all_options,
  deserialize_sd,
}

byte-IsByte : (p : List ℕ) (i : ℕ) → All IsByte p → IsByte (byte p i)
byte-IsByte [] i h = omega arith
byte-IsByte (x ∷ p) zero h = h.0
byte-IsByte (x ∷ p) (suc i) h = byte-IsByte p i h.1

read_u32_be-lt : (p : List ℕ) (o : ℕ) → All IsByte p → read_u32_be p o < 2 ^ 32
read_u32_be-lt p o h =
    let b0 = byte-IsByte p o h in
    let b1 = byte-IsByte p (o + 1) h in
    let b2 = byte-IsByte p (o + 2) h in
    let b3 = byte-IsByte p (o + 3) h in omega (arith, read_u32_be_lem p o b1 b2 b3)

-- The entries that the length announces are there.
read_entries_total :
    (n : ℕ) (payload : List ℕ) (off : ℕ) (acc : List SdEntry)
    → off + n * 16 ≤ length payload
    → (es : List SdEntry) × (read_entries n payload off acc ≡ ok (es, off + n * 16))
      × (length es ≡ length acc + n)
unfolding read_entries
read_entries_total zero payload off acc h =
    let at : off ≡ off + 0 * 16 = omega arith in (acc, (λ i. ok (acc, at i)), omega arith)
read_entries_total (suc n) payload off acc h =
    let entry = read_entry (take 16 (drop off payload)) in
    let (es, e, size) = read_entries_total n payload (off + 16) (acc ++ entry ∷ []) (omega arith) in
    let room : ltb (length payload) (off + 16) ≡ false = ground arith in
    let at : off + 16 + n * 16 ≡ off + suc n * 16 = omega arith in
    (es, rw room (e ∙ λ i. ok (es, at i)), omega (arith, size, length-append acc (entry ∷ [])))

-- What one option comes to: at most one more, and then of twelve bytes at least.
abbrev OneOption : (opt_size : ℕ) → Parsed (List SdOption) → Type 0
OneOption opt_size r =
    ((new : List SdOption) × (r ≡ ok new) × (length new * 12 ≤ opt_size))
    ⊎ (r ≡ err truncated_option)

of_family :
    (opt_size least : ℕ) (o : SdOption)
    → 12 ≤ least
    → OneOption opt_size (if ltb opt_size least then err truncated_option else ok (o ∷ []))
of_family opt_size least o h = elim (Bool-cases (ltb opt_size least)) [
  | inl t ↦ inr (rw t)
  | inr t ↦ inl (o ∷ [], rw t, ground (arith, t))
]

read_option_total :
    (otype opt_size : ℕ) (p : List ℕ) → OneOption opt_size (read_option otype opt_size p)
unfolding read_option
read_option_total otype opt_size p = elim (Bool-cases (otype == 0x04 || otype == 0x14)) [
  | inl t ↦ rw t (of_family opt_size 12 (ipv4 (read_ipv4_option (take 12 p))) (omega arith))
  | inr t ↦ elim (Bool-cases (otype == 0x06 || otype == 0x16)) [
    | inl u ↦ rw (t, u) (of_family opt_size 24 (ipv6 (read_ipv6_option (take 24 p))) (omega arith))
    | inr u ↦ inl ([], rw (t, u), omega arith)
  ]
]

-- What the loop over the options comes to.
abbrev Options : (off options_end : ℕ) → List SdOption → Parsed (List SdOption) → Type 0
Options off options_end acc r =
    ((os : List SdOption) × (r ≡ ok os) × (length os * 12 + off ≤ length acc * 12 + options_end))
    ⊎ (r ≡ err truncated_option)

read_option_size-ge : (p : List ℕ) → 3 ≤ read_option_size p
unfolding read_option_size
read_option_size-ge p = omega arith

read_options_total :
    (fuel : ℕ) (payload : List ℕ) (off options_end : ℕ) (acc : List SdOption)
    → options_end < off + fuel
    → off ≤ options_end
    → Options off options_end acc (read_options fuel payload off options_end acc)
unfolding read_options
read_options_total zero payload off options_end acc h le = absurd (omega arith)
read_options_total (suc fuel) payload off options_end acc h le =
    let p = drop off payload in
    let n = read_option_size p in
    let big = read_option_size-ge p in
    elim (Bool-cases (ltb off options_end)) [
      | inr t ↦ inl (acc, rw t, ground (arith, t))
      | inl t ↦ elim (Bool-cases (ltb options_end (off + 4))) [
        | inl u ↦ inr (rw (t, u))
        | inr u ↦ elim (Bool-cases (ltb options_end (off + n))) [
          | inl v ↦ inr (rw (t, u, v))
          | inr v ↦ elim (read_option_total (peek_option_type p) n p) [
            | inr e ↦ inr (rw (t, u, v, e))
            | inl (new, e, few) ↦
                let size = length-append acc new in
                let later =
                  read_options_total fuel payload (off + n) options_end (acc ++ new)
                    (omega (arith, big)) (ground (arith, v)) in
                rw (t, u, v, e)
                  (elim later [
                    | inl (os, r, bound) ↦ inl (os, r, omega (arith, few, size, bound))
                    | inr r ↦ inr r
                  ])
          ]
        ]
      ]
    ]

-- The errors that a payload can have.
pub data PayloadError : SdError → Type 0 where
  too_small : PayloadError buffer_too_small
  entries_length : PayloadError invalid_entries_length
  options_length : PayloadError invalid_options_length
  option : PayloadError truncated_option

-- `bound` is on the entries and options of a message that is read.
abbrev pub Answer : {A : Type 0} → (A → Type 0) → Parsed A → Type 0
Answer {A} bound r =
    ((a : A) × (r ≡ ok a) × bound a) ⊎ ((e : SdError) × (r ≡ err e) × PayloadError e)

read_all_options_total :
    (payload : List ℕ) (off : ℕ)
    → off ≤ length payload
    → Answer (λ os. off + 4 + length os * 12 ≤ length payload) (read_all_options payload off)
unfolding read_all_options
read_all_options_total payload off h =
    let len = read_u32_be payload off in
    elim (Bool-cases (ltb (length payload) (off + 4))) [
      | inl t ↦ inr (invalid_options_length, rw t, options_length)
      | inr t ↦ elim (Bool-cases (ltb (length payload) (off + 4 + len))) [
        | inl u ↦ inr (invalid_options_length, rw (t, u), options_length)
        | inr u ↦
            elim (read_options_total (suc len) payload (off + 4) (off + 4 + len) [] (omega arith)
              (omega arith)) [
                | inl (os, e, few) ↦ inl (os, rw (t, u) e, ground (arith, u, few))
                | inr e ↦ inr (truncated_option, rw (t, u) e, option)
              ]
      ]
    ]

-- Every payload of bytes gets an answer: the loops end within their fuel. It is a message whose
-- entries, at sixteen bytes, and options, at twelve, fit the payload beside its twelve bytes of
-- flags and lengths; or it is the error of a short buffer, of a wrong length of the entries or of
-- the options, or of a truncated option. The errors of a truncated entry and of an unknown type of
-- option never occur.
pub deserialize_sd_total :
    (payload : List ℕ)
    → All IsByte payload
    → Answer
        (λ (msg : SdMessage SdOption).
          12 + length msg.entries * 16 + length msg.options * 12 ≤ length payload)
        (deserialize_sd payload)
unfolding deserialize_sd
deserialize_sd_total payload h =
    let n = read_u32_be payload 4 in
    let small = read_u32_be-lt payload 4 h in
    elim (Bool-cases (ltb (length payload) 12)) [
      | inl t ↦ inr (buffer_too_small, rw t, too_small)
      | inr t ↦ elim (Bool-cases (ltb (length payload) ((8 + n + 4) % 2 ^ 32))) [
        | inl u ↦ inr (invalid_entries_length, rw (t, u), entries_length)
        | inr u ↦ elim (Bool-cases (not (n % 16 == 0))) [
          | inl v ↦ inr (invalid_entries_length, rw (t, u, v), entries_length)
          | inr v ↦
              let whole : n ≡ n / 16 * 16 = ground (arith, v) in
              let room : 12 + n ≤ length payload = ground (arith, u, v, whole, small) in
              let (es, e, size) =
                read_entries_total (n / 16) payload 8 [] (omega (arith, whole, room)) in
              let at : 8 + n / 16 * 16 ≤ length payload = omega (arith, whole, room) in
              elim (read_all_options_total payload (8 + n / 16 * 16) at) [
                | inl (os, r, few) ↦ inl (
                  record {
                    reboot = (from_byte (byte payload 0)).0;
                    unicast = (from_byte (byte payload 0)).1;
                    entries = es;
                    options = os;
                  },
                  rw (t, u, v, e, r),
                  omega (arith, size, few),
                )
                | inr (k, r, p) ↦ inr (k, rw (t, u, v, e, r), p)
              ]
        ]
      ]
    ]
