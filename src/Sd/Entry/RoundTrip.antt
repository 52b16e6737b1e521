-- ===== src/Sd/Entry/RoundTrip.antt =====
-- Entries survive the wire.
use bsomeip.Common.{
  IsByte, ℕ, ◌+◌, ◌*◌, ◌/◌, ◌%◌, ◌^◌, ◌≤◌, ◌<◌, bit_and, bit_or, ◌≡◌, refl, sym, ◌∙◌, true, false,
  List, [], ◌∷◌, length, All, Bool-cases, inl, inr, arith,
}
use bsomeip.Common.Bits.{and-nibble, and-byte, or_disjoint}
use bsomeip.Wire.Bytes.Laws.{read_u16_be_lem, read_u32_be_lem}
use bsomeip.Sd.Entry.{SdEntry, is_service_entry, read_entry, write_entry}

-- What fits on the wire: a service entry has no eventgroup, an eventgroup entry no minor version.
pub record Fits (e : SdEntry) : Type 0 where
  pub bytes : IsByte e.entry_type × IsByte e.index_1st × IsByte e.index_2nd × IsByte e.major_version
  pub counts : (e.num_options_1st < 2 ^ 4) × (e.num_options_2nd < 2 ^ 4)
  pub ids : (e.service < 2 ^ 16) × (e.instance_id < 2 ^ 16)
  pub ttl_24 : e.ttl < 2 ^ 24
  pub service_entry :
      is_service_entry e.entry_type ≡ true → (e.minor_version < 2 ^ 32) × (e.eventgroup ≡ 0)
  pub eventgroup_entry :
      is_service_entry e.entry_type ≡ false → (e.eventgroup < 2 ^ 16) × (e.minor_version ≡ 0)

options_byte :
    (m n : ℕ) → m < 2 ^ 4 → n < 2 ^ 4 → bit_or (m * 2 ^ 4) (bit_and n 0x0F) % 2 ^ 8 ≡ m * 2 ^ 4 + n
options_byte m n hm hn = omega (
  arith,
  and-nibble n,
  or_disjoint 4 (m * 2 ^ 4) (bit_and n 0x0F) m refl (omega (arith, and-nibble n)),
)

ttl_bytes :
    (t a b c : ℕ)
    → t < 2 ^ 24
    → a ≡ bit_and (t / 2 ^ 16) 0xFF
    → b ≡ bit_and (t / 2 ^ 8) 0xFF
    → c ≡ bit_and t 0xFF
    → bit_or (bit_or (a * 2 ^ 16) (b * 2 ^ 8)) c ≡ t
ttl_bytes t a b c h ea eb ec =
    let ha : a ≡ t / 2 ^ 16 % 2 ^ 8 = omega (arith, ea, and-byte (t / 2 ^ 16)) in
    let hb : b ≡ t / 2 ^ 8 % 2 ^ 8 = omega (arith, eb, and-byte (t / 2 ^ 8)) in
    let hc : c ≡ t % 2 ^ 8 = omega (arith, ec, and-byte t) in
    rw
      (
        or_disjoint 16 (a * 2 ^ 16) (b * 2 ^ 8) a refl (omega arith),
        or_disjoint 8 (a * 2 ^ 16 + b * 2 ^ 8) c (a * 2 ^ 8 + b) (omega arith) (omega arith),
      )
      (omega arith)

read_service :
    (b0 b1 b2 b3 b4 b5 b6 b7 b8 b9 b10 b11 b12 b13 b14 b15 : ℕ) (rest : List ℕ)
    → All IsByte
        (b0 ∷ b1 ∷ b2 ∷ b3 ∷ b4 ∷ b5 ∷ b6 ∷ b7 ∷ b8 ∷ b9 ∷ b10 ∷ b11 ∷ b12 ∷ b13 ∷ b14 ∷ b15 ∷ [])
    → is_service_entry b0 ≡ true
    → read_entry
        (b0 ∷ b1 ∷ b2 ∷ b3 ∷ b4 ∷ b5 ∷ b6 ∷ b7 ∷ b8 ∷ b9 ∷ b10 ∷ b11 ∷ b12 ∷ b13 ∷ b14 ∷ b15 ∷ rest)
      ≡ record {
        entry_type = b0;
        index_1st = b1;
        index_2nd = b2;
        num_options_1st = bit_and (b3 / 2 ^ 4) 0x0F;
        num_options_2nd = bit_and b3 0x0F;
        service = b4 * 2 ^ 8 + b5;
        instance_id = b6 * 2 ^ 8 + b7;
        major_version = b8;
        ttl = bit_or (bit_or (b9 * 2 ^ 16) (b10 * 2 ^ 8)) b11;
        minor_version = b12 * 2 ^ 24 + b13 * 2 ^ 16 + b14 * 2 ^ 8 + b15;
        eventgroup = 0;
      }
unfolding read_entry
read_service b0 b1 b2 b3 b4 b5 b6 b7 b8 b9 b10 b11 b12 b13 b14 b15 rest h t =
    let p =
      b0 ∷ b1 ∷ b2 ∷ b3 ∷ b4 ∷ b5 ∷ b6 ∷ b7 ∷ b8 ∷ b9 ∷ b10 ∷ b11 ∷ b12 ∷ b13 ∷ b14 ∷ b15 ∷ rest in
    rw t (λ i. record {
      entry_type = b0;
      index_1st = b1;
      index_2nd = b2;
      num_options_1st = bit_and (b3 / 2 ^ 4) 0x0F;
      num_options_2nd = bit_and b3 0x0F;
      service = read_u16_be_lem p 4 (omega arith) (omega arith) i;
      instance_id = read_u16_be_lem p 6 (omega arith) (omega arith) i;
      major_version = b8;
      ttl = bit_or (bit_or (b9 * 2 ^ 16) (b10 * 2 ^ 8)) b11;
      minor_version = read_u32_be_lem p 12 (omega arith) (omega arith) (omega arith) i;
      eventgroup = 0;
    })

read_eventgroup :
    (b0 b1 b2 b3 b4 b5 b6 b7 b8 b9 b10 b11 b12 b13 b14 b15 : ℕ) (rest : List ℕ)
    → All IsByte
        (b0 ∷ b1 ∷ b2 ∷ b3 ∷ b4 ∷ b5 ∷ b6 ∷ b7 ∷ b8 ∷ b9 ∷ b10 ∷ b11 ∷ b12 ∷ b13 ∷ b14 ∷ b15 ∷ [])
    → is_service_entry b0 ≡ false
    → read_entry
        (b0 ∷ b1 ∷ b2 ∷ b3 ∷ b4 ∷ b5 ∷ b6 ∷ b7 ∷ b8 ∷ b9 ∷ b10 ∷ b11 ∷ b12 ∷ b13 ∷ b14 ∷ b15 ∷ rest)
      ≡ record {
        entry_type = b0;
        index_1st = b1;
        index_2nd = b2;
        num_options_1st = bit_and (b3 / 2 ^ 4) 0x0F;
        num_options_2nd = bit_and b3 0x0F;
        service = b4 * 2 ^ 8 + b5;
        instance_id = b6 * 2 ^ 8 + b7;
        major_version = b8;
        ttl = bit_or (bit_or (b9 * 2 ^ 16) (b10 * 2 ^ 8)) b11;
        minor_version = 0;
        eventgroup = b14 * 2 ^ 8 + b15;
      }
unfolding read_entry
read_eventgroup b0 b1 b2 b3 b4 b5 b6 b7 b8 b9 b10 b11 b12 b13 b14 b15 rest h t =
    let p =
      b0 ∷ b1 ∷ b2 ∷ b3 ∷ b4 ∷ b5 ∷ b6 ∷ b7 ∷ b8 ∷ b9 ∷ b10 ∷ b11 ∷ b12 ∷ b13 ∷ b14 ∷ b15 ∷ rest in
    rw t (λ i. record {
      entry_type = b0;
      index_1st = b1;
      index_2nd = b2;
      num_options_1st = bit_and (b3 / 2 ^ 4) 0x0F;
      num_options_2nd = bit_and b3 0x0F;
      service = read_u16_be_lem p 4 (omega arith) (omega arith) i;
      instance_id = read_u16_be_lem p 6 (omega arith) (omega arith) i;
      major_version = b8;
      ttl = bit_or (bit_or (b9 * 2 ^ 16) (b10 * 2 ^ 8)) b11;
      minor_version = 0;
      eventgroup = read_u16_be_lem p 14 (omega arith) (omega arith) i;
    })

-- An entry that fits, written over any sixteen bytes, is read back as it was.
pub read_entry-write_entry :
    (p : List ℕ) (e : SdEntry) → 16 ≤ length p → Fits e → read_entry (write_entry p e) ≡ e
unfolding write_entry
read_entry-write_entry
      (p0 ∷ p1 ∷ p2 ∷ p3 ∷ p4 ∷ p5 ∷ p6 ∷ p7 ∷ p8 ∷ p9 ∷ p10 ∷ p11 ∷ p12 ∷ p13 ∷ p14 ∷ p15 ∷ rest) e
      h fits =
    let (m, n) = fits.counts in
    let b = bit_or (e.num_options_1st * 2 ^ 4) (bit_and e.num_options_2nd 0x0F) % 2 ^ 8 in
    let joined = options_byte e.num_options_1st e.num_options_2nd m n in
    let first : bit_and (b / 2 ^ 4) 0x0F ≡ e.num_options_1st =
      omega (arith, joined, and-nibble (b / 2 ^ 4)) in
    let second : bit_and b 0x0F ≡ e.num_options_2nd = omega (arith, joined, and-nibble b) in
    let (s, k) = fits.ids in
    let service_is : e.service / 2 ^ 8 % 2 ^ 8 * 2 ^ 8 + e.service % 2 ^ 8 ≡ e.service =
      omega arith in
    let instance_is : e.instance_id / 2 ^ 8 % 2 ^ 8 * 2 ^ 8 + e.instance_id % 2 ^ 8
        ≡ e.instance_id =
      omega arith in
    let ttl_is = ttl_bytes e.ttl _ _ _ (fits.ttl_24) refl refl refl in
    elim (Bool-cases (is_service_entry e.entry_type)) [
      | inl t ↦
          let (minor, none) = fits.service_entry t in
          let minor_is : e.minor_version / 2 ^ 24 % 2 ^ 8 * 2 ^ 24
                + e.minor_version / 2 ^ 16 % 2 ^ 8 * 2 ^ 16
                + e.minor_version / 2 ^ 8 % 2 ^ 8 * 2 ^ 8
                + e.minor_version % 2 ^ 8
              ≡ e.minor_version =
            omega arith in
          rw t (
            read_service _ _ _ _ _ _ _ _ _ _ _ _ _ _ _ _ rest
              (omega (
                arith,
                and-byte (e.ttl / 2 ^ 16),
                and-byte (e.ttl / 2 ^ 8),
                and-byte e.ttl,
                fits.bytes,
              ))
              t
            ∙ λ i. record {
              entry_type = e.entry_type;
              index_1st = e.index_1st;
              index_2nd = e.index_2nd;
              num_options_1st = first i;
              num_options_2nd = second i;
              service = service_is i;
              instance_id = instance_is i;
              major_version = e.major_version;
              ttl = ttl_is i;
              minor_version = minor_is i;
              eventgroup = sym none i;
            })
      | inr t ↦
          let (eg, none) = fits.eventgroup_entry t in
          let group_is : e.eventgroup / 2 ^ 8 % 2 ^ 8 * 2 ^ 8 + e.eventgroup % 2 ^ 8
              ≡ e.eventgroup =
            omega arith in
          rw t (
            read_eventgroup _ _ _ _ _ _ _ _ _ _ _ _ _ _ _ _ rest
              (omega (
                arith,
                and-byte (e.ttl / 2 ^ 16),
                and-byte (e.ttl / 2 ^ 8),
                and-byte e.ttl,
                fits.bytes,
              ))
              t
            ∙ λ i. record {
              entry_type = e.entry_type;
              index_1st = e.index_1st;
              index_2nd = e.index_2nd;
              num_options_1st = first i;
              num_options_2nd = second i;
              service = service_is i;
              instance_id = instance_is i;
              major_version = e.major_version;
              ttl = ttl_is i;
              minor_version = sym none i;
              eventgroup = group_is i;
            })
    ]
read_entry-write_entry _ e h fits = absurd (omega arith)
