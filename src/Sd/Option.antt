-- ===== src/Sd/Option.antt =====
-- include/bsomeip/sd/option.hpp: the endpoint options of service discovery. A type or a protocol is
-- its byte, as the cast from the wire lets any byte be one. A buffer begins at the option.
pub mod RoundTrip
use bsomeip.Common.{ℕ, zero, suc, ◌+◌, List, [], ◌∷◌, get_or, set}
use bsomeip.Wire.Bytes.{byte, read_u16_be, write_u16_be}

-- The members of `option_type` that the code reads or makes.
abbrev pub ipv4_endpoint : ℕ
ipv4_endpoint = 0x04

abbrev pub ipv6_endpoint : ℕ
ipv6_endpoint = 0x06

abbrev pub ipv4_multicast : ℕ
ipv4_multicast = 0x14

abbrev pub ipv6_multicast : ℕ
ipv6_multicast = 0x16

abbrev pub option_header_size : ℕ
option_header_size = 4

abbrev pub ipv4_option_size : ℕ
ipv4_option_size = 12

abbrev pub ipv6_option_size : ℕ
ipv6_option_size = 24

-- The address has four bytes.
pub record Ipv4Option : Type 0 where
  pub option_type : ℕ
  pub address : List ℕ
  pub protocol : ℕ
  pub port : ℕ

-- The address has sixteen bytes.
pub record Ipv6Option : Type 0 where
  pub option_type : ℕ
  pub address : List ℕ
  pub protocol : ℕ
  pub port : ℕ

pub data SdOption : Type 0 where
  ipv4 : Ipv4Option → SdOption
  ipv6 : Ipv6Option → SdOption

unfoldable pub peek_option_type : List ℕ → ℕ
peek_option_type p = byte p 2

unfoldable pub read_option_size : List ℕ → ℕ
unfolding read_u16_be
read_option_size p = read_u16_be p 0 + 3

unfoldable pub read_ipv4_option : List ℕ → Ipv4Option
unfolding read_u16_be
read_ipv4_option p = record {
  option_type = byte p 2;
  address = byte p 4 ∷ byte p 5 ∷ byte p 6 ∷ byte p 7 ∷ [];
  protocol = byte p 9;
  port = read_u16_be p 10;
}

-- The loop over the `n` bytes from `o` on.
abbrev pub read_address : (n : ℕ) → List ℕ → (o : ℕ) → List ℕ
read_address zero p o = []
read_address (suc n) p o = byte p o ∷ read_address n p (o + 1)

unfoldable pub read_ipv6_option : List ℕ → Ipv6Option
unfolding read_u16_be
read_ipv6_option p = record {
  option_type = byte p 2;
  address = read_address 16 p 4;
  protocol = byte p 21;
  port = read_u16_be p 22;
}

unfoldable pub write_ipv4_option : List ℕ → Ipv4Option → List ℕ
unfolding write_u16_be
write_ipv4_option p opt =
    let p = write_u16_be p 0 0x0009 in
    let p = set p 2 opt.option_type in
    let p = set p 3 0 in
    let p = set p 4 (get_or opt.address 0 0) in
    let p = set p 5 (get_or opt.address 1 0) in
    let p = set p 6 (get_or opt.address 2 0) in
    let p = set p 7 (get_or opt.address 3 0) in
    let p = set p 8 0 in let p = set p 9 opt.protocol in write_u16_be p 10 opt.port

-- The loop that writes `n` bytes of the address, from its byte `i` on, at `4 + i`.
abbrev pub write_address : (n i : ℕ) → List ℕ → (address : List ℕ) → List ℕ
write_address zero i p address = p
write_address (suc n) i p address =
    write_address n (i + 1) (set p (4 + i) (get_or address i 0)) address

unfoldable pub write_ipv6_option : List ℕ → Ipv6Option → List ℕ
unfolding write_u16_be
write_ipv6_option p opt =
    let p = write_u16_be p 0 0x0015 in
    let p = set p 2 opt.option_type in
    let p = set p 3 0 in
    let p = write_address 16 0 p opt.address in
    let p = set p 20 0 in let p = set p 21 opt.protocol in write_u16_be p 22 opt.port

-- The buffer, and the bytes written.
unfoldable pub write_option : List ℕ → SdOption → List ℕ × ℕ
unfolding write_ipv4_option write_ipv6_option
write_option p (ipv4 o) = (write_ipv4_option p o, ipv4_option_size)
write_option p (ipv6 o) = (write_ipv6_option p o, ipv6_option_size)

abbrev pub make_ipv4_endpoint : (a b c d proto port : ℕ) → Ipv4Option
make_ipv4_endpoint a b c d proto port = record {
  option_type = ipv4_endpoint;
  address = a ∷ b ∷ c ∷ d ∷ [];
  protocol = proto;
  port = port;
}

abbrev pub make_ipv4_multicast : (a b c d proto port : ℕ) → Ipv4Option
make_ipv4_multicast a b c d proto port = record {
  option_type = ipv4_multicast;
  address = a ∷ b ∷ c ∷ d ∷ [];
  protocol = proto;
  port = port;
}
