-- ===== src/Sd/Option/RoundTrip.antt =====
-- Options survive the wire.
use bsomeip.Common.{
  IsByte, ℕ, ◌+◌, ◌*◌, ◌/◌, ◌%◌, ◌^◌, ◌≤◌, ◌<◌, ◌≡◌, ◌⊎◌, refl, ◌∙◌, List, [], ◌∷◌, ◌++◌, length,
  replicate, drop, arith,
}
use bsomeip.Wire.Bytes.Laws.{read_u16_be_lem}
use bsomeip.Sd.Option.{
  SdOption, Ipv4Option, Ipv6Option, ipv4, ipv6, write_option, read_ipv4_option, read_ipv6_option,
  ipv4_endpoint, ipv4_multicast, ipv6_endpoint, ipv6_multicast, peek_option_type, read_option_size,
}

-- What fits on the wire: the type is one of the family's, and the address has the family's length.
abbrev pub Fits4 : Ipv4Option → Type 0
Fits4 o =
    ((o.option_type ≡ ipv4_endpoint) ⊎ (o.option_type ≡ ipv4_multicast))
    × (length o.address ≡ 4)
    × IsByte o.protocol
    × (o.port < 2 ^ 16)

abbrev pub Fits6 : Ipv6Option → Type 0
Fits6 o =
    ((o.option_type ≡ ipv6_endpoint) ⊎ (o.option_type ≡ ipv6_multicast))
    × (length o.address ≡ 16)
    × IsByte o.protocol
    × (o.port < 2 ^ 16)

abbrev pub OptionFits : SdOption → Type 0
OptionFits (ipv4 o) = Fits4 o
OptionFits (ipv6 o) = Fits6 o

abbrev pub option_size : SdOption → ℕ
option_size (ipv4 o) = 12
option_size (ipv6 o) = 24

-- The bytes of an option.
unfoldable pub option_bytes : SdOption → List ℕ
unfolding write_option
option_bytes o = (write_option (replicate (option_size o) 0) o).0

pub length-option_bytes : (o : SdOption) → length (option_bytes o) ≡ option_size o
unfolding option_bytes
length-option_bytes (ipv4 o) = refl
length-option_bytes (ipv6 o) = refl

-- An option takes the place of as many bytes as it has.
pub write_option_lem :
    (p : List ℕ) (o : SdOption)
    → option_size o ≤ length p
    → write_option p o ≡ (option_bytes o ++ drop (option_size o) p, option_size o)
unfolding write_option option_bytes
write_option_lem (p0 ∷ p1 ∷ p2 ∷ p3 ∷ p4 ∷ p5 ∷ p6 ∷ p7 ∷ p8 ∷ p9 ∷ p10 ∷ p11 ∷ rest) (ipv4 o) h =
    refl
write_option_lem
      (p0 ∷ p1 ∷ p2 ∷ p3 ∷ p4 ∷ p5 ∷ p6 ∷ p7 ∷ p8 ∷ p9 ∷ p10 ∷ p11 ∷ p12 ∷ p13 ∷ p14 ∷ p15 ∷ p16
        ∷ p17 ∷ p18 ∷ p19 ∷ p20 ∷ p21 ∷ p22 ∷ p23 ∷ rest)
      (ipv6 o) h =
    refl
write_option_lem _ (ipv4 o) h = absurd (omega arith)
write_option_lem _ (ipv6 o) h = absurd (omega arith)

abbrev pub type_of : SdOption → ℕ
type_of (ipv4 o) = o.option_type
type_of (ipv6 o) = o.option_type

-- What a reader sees of an option before it knows the kind.
pub option_bytes-head :
    (o : SdOption) (rest : List ℕ)
    → (read_option_size (option_bytes o ++ rest) ≡ option_size o)
      × (peek_option_type (option_bytes o ++ rest) ≡ type_of o)
unfolding option_bytes read_option_size peek_option_type
option_bytes-head (ipv4 o) rest = (refl, refl)
option_bytes-head (ipv6 o) rest = (refl, refl)

port_is : (port : ℕ) → port < 2 ^ 16 → port / 2 ^ 8 % 2 ^ 8 * 2 ^ 8 + port % 2 ^ 8 ≡ port
port_is port h = omega arith

address4 :
    (t a b c d pr port : ℕ)
    → port < 2 ^ 16
    → let o : Ipv4Option = record {
      option_type = t;
      address = a ∷ b ∷ c ∷ d ∷ [];
      protocol = pr;
      port = port;
    } in
      read_ipv4_option (option_bytes (ipv4 o)) ≡ o
unfolding option_bytes read_ipv4_option
address4 t a b c d pr port h =
    let p = 0 ∷ 9 ∷ t ∷ 0 ∷ a ∷ b ∷ c ∷ d ∷ 0 ∷ pr ∷ (port / 2 ^ 8 % 2 ^ 8) ∷ (port % 2 ^ 8) ∷ [] in
    λ i. record {
      option_type = t;
      address = a ∷ b ∷ c ∷ d ∷ [];
      protocol = pr;
      port = (read_u16_be_lem p 10 (omega arith) (omega arith) ∙ port_is port h) i;
    }

address6 :
    (t a0 a1 a2 a3 a4 a5 a6 a7 a8 a9 a10 a11 a12 a13 a14 a15 pr port : ℕ)
    → port < 2 ^ 16
    → let o : Ipv6Option = record {
      option_type = t;
      address =
          a0 ∷ a1 ∷ a2 ∷ a3 ∷ a4 ∷ a5 ∷ a6 ∷ a7 ∷ a8 ∷ a9 ∷ a10 ∷ a11 ∷ a12 ∷ a13 ∷ a14 ∷ a15 ∷ [];
      protocol = pr;
      port = port;
    } in
      read_ipv6_option (option_bytes (ipv6 o)) ≡ o
unfolding option_bytes read_ipv6_option
address6 t a0 a1 a2 a3 a4 a5 a6 a7 a8 a9 a10 a11 a12 a13 a14 a15 pr port h =
    let hi = port / 2 ^ 8 % 2 ^ 8 in
    let lo = port % 2 ^ 8 in
    let p =
      0 ∷ 21 ∷ t ∷ 0 ∷ a0 ∷ a1 ∷ a2 ∷ a3 ∷ a4 ∷ a5 ∷ a6 ∷ a7 ∷ a8 ∷ a9 ∷ a10 ∷ a11 ∷ a12 ∷ a13 ∷ a14
      ∷ a15 ∷ 0 ∷ pr ∷ hi ∷ lo ∷ [] in
    λ i. record {
      option_type = t;
      address =
          a0 ∷ a1 ∷ a2 ∷ a3 ∷ a4 ∷ a5 ∷ a6 ∷ a7 ∷ a8 ∷ a9 ∷ a10 ∷ a11 ∷ a12 ∷ a13 ∷ a14 ∷ a15 ∷ [];
      protocol = pr;
      port = (read_u16_be_lem p 22 (omega arith) (omega arith) ∙ port_is port h) i;
    }

with_address4 :
    (t : ℕ) (address : List ℕ) (pr port : ℕ)
    → length address ≡ 4
    → port < 2 ^ 16
    → let o : Ipv4Option = record {
      option_type = t;
      address = address;
      protocol = pr;
      port = port;
    } in
      read_ipv4_option (option_bytes (ipv4 o)) ≡ o
with_address4 t (a ∷ b ∷ c ∷ d ∷ []) pr port l h = address4 t a b c d pr port h
with_address4 t _ pr port l h = absurd (omega arith)

with_address6 :
    (t : ℕ) (address : List ℕ) (pr port : ℕ)
    → length address ≡ 16
    → port < 2 ^ 16
    → let o : Ipv6Option = record {
      option_type = t;
      address = address;
      protocol = pr;
      port = port;
    } in
      read_ipv6_option (option_bytes (ipv6 o)) ≡ o
with_address6 t
      (a0 ∷ a1 ∷ a2 ∷ a3 ∷ a4 ∷ a5 ∷ a6 ∷ a7 ∷ a8 ∷ a9 ∷ a10 ∷ a11 ∷ a12 ∷ a13 ∷ a14 ∷ a15 ∷ []) pr
      port l h =
    address6 t a0 a1 a2 a3 a4 a5 a6 a7 a8 a9 a10 a11 a12 a13 a14 a15 pr port h
with_address6 t _ pr port l h = absurd (omega arith)

pub read-option_bytes4 : (o : Ipv4Option) → Fits4 o → read_ipv4_option (option_bytes (ipv4 o)) ≡ o
read-option_bytes4 o (t, l, pr, h) = with_address4 o.option_type o.address o.protocol o.port l h

pub read-option_bytes6 : (o : Ipv6Option) → Fits6 o → read_ipv6_option (option_bytes (ipv6 o)) ≡ o
read-option_bytes6 o (t, l, pr, h) = with_address6 o.option_type o.address o.protocol o.port l h
