-- ===== src/Sd/Message.antt =====
-- include/bsomeip/sd/message.hpp: the payload of service discovery, and the message around it. The
-- loop over the options runs on one fuel more than their bytes, and is shown to end by itself.
pub mod Parse
pub mod Bytes
pub mod Serialize
pub mod RoundTrip
pub mod Build
pub mod Announced
use bsomeip.Common.{
  ℕ, zero, suc, ◌+◌, ◌*◌, ◌/◌, ◌%◌, ◌^◌, bit_and, bit_or, Bool, true, false, ◌&&◌, ◌||◌, not, List,
  [], ◌∷◌, ◌++◌, length, take, drop, set, ltb, ◌==◌, if◌then◌else◌,
}
use bsomeip.Wire.Bytes.{byte, read_u32_be, write_u32_be}
use bsomeip.Wire.HeaderView.{
  header_size, protocol_version, set_service, set_method, set_payload_length, set_client,
  set_session, set_protocol_ver, set_interface_ver, set_msg_type, set_ret_code,
}
use bsomeip.Wire.MessageType.{notification}
use bsomeip.Route.Manager.{sd_service, sd_method}
use bsomeip.Sd.Entry.{SdEntry, entry_size, read_entry, write_entry}
use bsomeip.Sd.Option.{
  SdOption, ipv4, ipv6, ipv4_endpoint, ipv4_multicast, ipv6_endpoint, ipv6_multicast,
  option_header_size, ipv4_option_size, ipv6_option_size, read_option_size, peek_option_type,
  read_ipv4_option, read_ipv6_option, write_option,
}
use bsomeip.Sd.Discovery.{SdMessage}

unfoldable pub to_byte : (reboot unicast : Bool) → ℕ
to_byte reboot unicast = bit_or (if reboot then 0x80 else 0) (if unicast then 0x40 else 0)

-- `reboot` and `unicast`
unfoldable pub from_byte : ℕ → Bool × Bool
from_byte b = (not (bit_and b 0x80 == 0), not (bit_and b 0x40 == 0))

abbrev pub sd_min_payload_size : ℕ
sd_min_payload_size = 12

abbrev pub sd_client : ℕ
sd_client = 0x0000

-- `sd_error` without its `ok`.
pub data SdError : Type 0 where
  buffer_too_small invalid_entries_length invalid_options_length : SdError
  truncated_entry truncated_option unknown_option_type : SdError

-- `out_of_fuel` is no result of the code.
pub data Parsed (A : Type 0) : Type 0 where
  ok : A → Parsed A
  err : SdError → Parsed A
  out_of_fuel : Parsed A

infixl 5 ◌>>=◌
abbrev pub ◌>>=◌ : {A B : Type 0} → Parsed A → (A → Parsed B) → Parsed B
ok a >>= f = f a
err e >>= f = err e
out_of_fuel >>= f = out_of_fuel

-- The loop over the entries from `off` on, and where it ends.
unfoldable pub read_entries :
    (num_entries : ℕ) → (payload : List ℕ) → (off : ℕ) → List SdEntry → Parsed (List SdEntry × ℕ)
unfolding read_entry
read_entries zero payload off entries = ok (entries, off)
read_entries (suc n) payload off entries =
    let entry = read_entry (take entry_size (drop off payload)) in
    let rest = read_entries n payload (off + entry_size) (entries ++ entry ∷ []) in
    if ltb (length payload) (off + entry_size) then err truncated_entry else rest

-- The `switch` on the type of an option: what it adds to the options.
unfoldable pub read_option : (otype opt_size : ℕ) → List ℕ → Parsed (List SdOption)
unfolding read_ipv4_option read_ipv6_option
read_option otype opt_size p =
    if otype == ipv4_endpoint || otype == ipv4_multicast
    then (if ltb opt_size ipv4_option_size
        then err truncated_option
        else ok (ipv4 (read_ipv4_option (take ipv4_option_size p)) ∷ []))
    else if otype == ipv6_endpoint || otype == ipv6_multicast
    then (if ltb opt_size ipv6_option_size
        then err truncated_option
        else ok (ipv6 (read_ipv6_option (take ipv6_option_size p)) ∷ []))
    else ok []

unfoldable pub read_options :
    (fuel : ℕ) → (payload : List ℕ) → (off options_end : ℕ) → List SdOption → Parsed (List SdOption)
unfolding read_option_size peek_option_type read_option
read_options zero payload off options_end options = out_of_fuel
read_options (suc fuel) payload off options_end options =
    let p = drop off payload in
    let opt_size = read_option_size p in
    let rest = read_option (peek_option_type p) opt_size p >>= λ new.
    read_options fuel payload (off + opt_size) options_end (options ++ new) in
    if not (ltb off options_end)
    then ok options
    else if ltb options_end (off + option_header_size)
    then err truncated_option
    else if ltb options_end (off + opt_size)
    then err truncated_option
    else rest

-- From the length of the options on.
unfoldable pub read_all_options : (payload : List ℕ) → (off : ℕ) → Parsed (List SdOption)
unfolding read_u32_be read_options
read_all_options payload off =
    let options_len = read_u32_be payload off in
    let off' = off + 4 in
    if ltb (length payload) (off + 4)
    then err invalid_options_length
    else if ltb (length payload) (off' + options_len)
    then err invalid_options_length
    else read_options (suc options_len) payload off' (off' + options_len) []

-- The sum with the length of the entries is taken in 32 bits.
unfoldable pub deserialize_sd : List ℕ → Parsed (SdMessage SdOption)
unfolding from_byte read_u32_be read_entries read_all_options
deserialize_sd payload =
    let (reboot, unicast) = from_byte (byte payload 0) in
    let entries_len = read_u32_be payload 4 in
    if ltb (length payload) sd_min_payload_size
    then err buffer_too_small
    else if ltb (length payload) ((8 + entries_len + 4) % 2 ^ 32)
    then err invalid_entries_length
    else if not (entries_len % entry_size == 0)
    then err invalid_entries_length
    else read_entries (entries_len / entry_size) payload 8 [] >>= λ (entries, off).
        read_all_options payload off >>= λ options.
        ok (record { reboot = reboot; unicast = unicast; entries = entries; options = options })

abbrev pub options_length : List SdOption → ℕ
options_length [] = 0
options_length (ipv4 o ∷ options) = ipv4_option_size + options_length options
options_length (ipv6 o ∷ options) = ipv6_option_size + options_length options

-- `write_entry(buf.subspan(off, entry_size), e)`
abbrev pub write_entry_at : List ℕ → (off : ℕ) → SdEntry → List ℕ
write_entry_at buf off e =
    take off buf ++ write_entry (take entry_size (drop off buf)) e ++ drop (off + entry_size) buf

-- The buffer, and where the entries end.
unfoldable pub write_entries : List ℕ → (off : ℕ) → List SdEntry → List ℕ × ℕ
unfolding write_entry
write_entries buf off [] = (buf, off)
write_entries buf off (e ∷ entries) =
    write_entries (write_entry_at buf off e) (off + entry_size) entries

unfoldable pub write_options : List ℕ → (off : ℕ) → List SdOption → List ℕ
unfolding write_option
write_options buf off [] = buf
write_options buf off (o ∷ options) =
    let (p, n) = write_option (drop off buf) o in
    write_options (take off buf ++ p) (off + n) options

-- The buffer, and the bytes written or 0.
unfoldable pub serialize_sd : List ℕ → SdMessage SdOption → List ℕ × ℕ
unfolding to_byte write_u32_be write_entries write_options
serialize_sd buf msg =
    let entries_len = length msg.entries * entry_size in
    let options_len = options_length msg.options in
    let total = sd_min_payload_size + entries_len + options_len in
    let p = set buf 0 (to_byte msg.reboot msg.unicast) in
    let p = set (set (set p 1 0) 2 0) 3 0 in
    let p = write_u32_be p 4 (entries_len % 2 ^ 32) in
    let (p, off) = write_entries p 8 msg.entries in
    let p = write_u32_be p off (options_len % 2 ^ 32) in
    let p = write_options p (off + 4) msg.options in
    if ltb (length buf) total then (buf, 0) else (p, total)

-- The header over the buffer.
unfoldable pub sd_header : List ℕ → (payload_len session : ℕ) → List ℕ
unfolding set_service set_method set_payload_length set_client set_session set_protocol_ver
    set_interface_ver set_msg_type set_ret_code
sd_header buf payload_len session =
    let hdr = set_service buf sd_service in
    let hdr = set_method hdr sd_method in
    let hdr = set_payload_length hdr (payload_len % 2 ^ 32) in
    let hdr = set_client hdr sd_client in
    let hdr = set_session hdr session in
    let hdr = set_protocol_ver hdr protocol_version in
    let hdr = set_interface_ver hdr 0x01 in
    let hdr = set_msg_type hdr notification in set_ret_code hdr 0

abbrev pub is_empty : List SdEntry → Bool
is_empty [] = true
is_empty (e ∷ entries) = false

-- The payload behind the header; an empty message that had no room is tried a second time.
unfoldable pub build_sd_message : List ℕ → SdMessage SdOption → (session : ℕ) → List ℕ × ℕ
unfolding serialize_sd sd_header
build_sd_message buf msg session =
    let front = take header_size buf in
    let (p, n) = serialize_sd (drop header_size buf) msg in
    let (p', n') = serialize_sd p msg in
    if ltb (length buf) header_size
    then (buf, 0)
    else if n == 0 && not (is_empty msg.entries)
    then (front ++ p, 0)
    else if n == 0
    then (sd_header (front ++ p') n' session, header_size + n')
    else (sd_header (front ++ p) n session, header_size + n)
