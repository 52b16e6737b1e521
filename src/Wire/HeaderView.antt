-- ===== src/Wire/HeaderView.antt =====
-- include/bsomeip/wire/header.hpp and constants.hpp: the view of a header over a buffer. A view is
-- the buffer that starts at its pointer; `const_header_view` has the same getters.
use bsomeip.Common.{ℕ, ◌+◌, ◌-◌, ◌%◌, ◌^◌, List, set, leb, if◌then◌else◌}
use bsomeip.Wire.Bytes.{byte, read_u16_be, read_u32_be, write_u16_be, write_u32_be}

abbrev pub protocol_version : ℕ
protocol_version = 0x01

abbrev pub header_size : ℕ
header_size = 16

abbrev pub someip_header_size : ℕ
someip_header_size = 8

unfoldable pub service : List ℕ → ℕ
unfolding read_u16_be
service p = read_u16_be p 0

unfoldable pub method : List ℕ → ℕ
unfolding read_u16_be
method p = read_u16_be p 2

unfoldable pub length : List ℕ → ℕ
unfolding read_u32_be
length p = read_u32_be p 4

unfoldable pub client : List ℕ → ℕ
unfolding read_u16_be
client p = read_u16_be p 8

unfoldable pub session : List ℕ → ℕ
unfolding read_u16_be
session p = read_u16_be p 10

unfoldable pub protocol_ver : List ℕ → ℕ
protocol_ver p = byte p 12

unfoldable pub interface_ver : List ℕ → ℕ
interface_ver p = byte p 13

unfoldable pub msg_type : List ℕ → ℕ
msg_type p = byte p 14

unfoldable pub ret_code : List ℕ → ℕ
ret_code p = byte p 15

unfoldable pub payload_length : List ℕ → ℕ
unfolding length
payload_length p =
    let l = length p in if leb someip_header_size l then l - someip_header_size else 0

unfoldable pub message_size : List ℕ → ℕ
unfolding payload_length
message_size p = header_size + payload_length p

unfoldable pub set_service : List ℕ → ℕ → List ℕ
unfolding write_u16_be
set_service p v = write_u16_be p 0 v

unfoldable pub set_method : List ℕ → ℕ → List ℕ
unfolding write_u16_be
set_method p v = write_u16_be p 2 v

unfoldable pub set_length : List ℕ → ℕ → List ℕ
unfolding write_u32_be
set_length p v = write_u32_be p 4 v

unfoldable pub set_client : List ℕ → ℕ → List ℕ
unfolding write_u16_be
set_client p v = write_u16_be p 8 v

unfoldable pub set_session : List ℕ → ℕ → List ℕ
unfolding write_u16_be
set_session p v = write_u16_be p 10 v

unfoldable pub set_protocol_ver : List ℕ → ℕ → List ℕ
set_protocol_ver p v = set p 12 v

unfoldable pub set_interface_ver : List ℕ → ℕ → List ℕ
set_interface_ver p v = set p 13 v

unfoldable pub set_msg_type : List ℕ → ℕ → List ℕ
set_msg_type p v = set p 14 v

unfoldable pub set_ret_code : List ℕ → ℕ → List ℕ
set_ret_code p v = set p 15 v

-- `payload_len + someip_header_size`, cast to 32 bits by the parameter of `set_length`.
unfoldable pub set_payload_length : List ℕ → ℕ → List ℕ
unfolding set_length
set_payload_length p payload_len = set_length p ((payload_len + someip_header_size) % 2 ^ 32)
