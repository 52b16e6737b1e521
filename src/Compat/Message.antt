-- ===== src/Compat/Message.antt =====
-- include/bsomeip/compat/vsomeip.hpp, `payload` and `message`. A payload is the list of its bytes; a
-- shared pointer to a payload is an option of it.
pub mod Contents
pub mod Setters
pub mod Operations
pub mod Response
use bsomeip.Common.{
  ℕ, ◌+◌, ◌-◌, ◌%◌, ◌^◌, Bool, Option, none, some, List, [], ◌++◌, length, replicate, take, ltb,
  if◌then◌else◌,
}
use bsomeip.Wire.HeaderView
use bsomeip.Wire.HeaderView.{header_size, set_payload_length}
use bsomeip.Wire.MessageType.{request, notification, response, e_ok}
use bsomeip.Api.Message.{create, payload}

-- `resize` with zeros.
abbrev pub resize : List ℕ → (size : ℕ) → List ℕ
resize xs size = take size xs ++ replicate (size - length xs) 0

-- `get_length`, of 32 bits
unfoldable pub get_length : (buf : List ℕ) → ℕ
get_length buf = length buf % 2 ^ 32

-- `create_payload(data, len)` and `set_data`
unfoldable pub create_payload : (buf : List ℕ) → (len : ℕ) → List ℕ
create_payload buf len = take len buf

pub record Message : Type 0 where
  pub inner : List ℕ
  pub instance_id : ℕ

unfoldable pub new_message : Message
unfolding create
new_message = record { inner = create 0; instance_id = 0x0001 }

unfoldable pub get_service : Message → ℕ
unfolding HeaderView.service
get_service m = HeaderView.service m.inner

unfoldable pub get_instance : Message → ℕ
get_instance m = m.instance_id

unfoldable pub get_method : Message → ℕ
unfolding HeaderView.method
get_method m = HeaderView.method m.inner

unfoldable pub get_client : Message → ℕ
unfolding HeaderView.client
get_client m = HeaderView.client m.inner

unfoldable pub get_session : Message → ℕ
unfolding HeaderView.session
get_session m = HeaderView.session m.inner

unfoldable pub get_message_type : Message → ℕ
unfolding HeaderView.msg_type
get_message_type m = HeaderView.msg_type m.inner

unfoldable pub get_return_code : Message → ℕ
unfolding HeaderView.ret_code
get_return_code m = HeaderView.ret_code m.inner

unfoldable pub get_interface_version : Message → ℕ
unfolding HeaderView.interface_ver
get_interface_version m = HeaderView.interface_ver m.inner

abbrev pub ensure_header : List ℕ → List ℕ
ensure_header buf = if ltb (length buf) header_size then resize buf header_size else buf

-- A setter of the header, on a buffer that has one.
abbrev pub with_header : Message → (List ℕ → List ℕ) → Message
with_header m set = record m { inner = set (ensure_header m.inner) }

unfoldable pub set_service : Message → ℕ → Message
unfolding HeaderView.set_service
set_service m s = with_header m (λ buf. HeaderView.set_service buf s)

unfoldable pub set_instance : Message → ℕ → Message
set_instance m i = record m { instance_id = i }

unfoldable pub set_method : Message → ℕ → Message
unfolding HeaderView.set_method
set_method m method = with_header m (λ buf. HeaderView.set_method buf method)

unfoldable pub set_client : Message → ℕ → Message
unfolding HeaderView.set_client
set_client m c = with_header m (λ buf. HeaderView.set_client buf c)

unfoldable pub set_session : Message → ℕ → Message
unfolding HeaderView.set_session
set_session m s = with_header m (λ buf. HeaderView.set_session buf s)

unfoldable pub set_message_type : Message → ℕ → Message
unfolding HeaderView.set_msg_type
set_message_type m t = with_header m (λ buf. HeaderView.set_msg_type buf t)

unfoldable pub set_return_code : Message → ℕ → Message
unfolding HeaderView.set_ret_code
set_return_code m rc = with_header m (λ buf. HeaderView.set_ret_code buf rc)

unfoldable pub set_interface_version : Message → ℕ → Message
unfolding HeaderView.set_interface_ver
set_interface_version m v = with_header m (λ buf. HeaderView.set_interface_ver buf v)

unfoldable pub get_payload : Message → List ℕ
unfolding payload
get_payload m = let span = payload m.inner in take (length span % 2 ^ 32) span

-- As many bytes are copied as the length says.
unfoldable pub set_payload : Message → Option (List ℕ) → Message
unfolding get_length set_payload_length
set_payload m none = m
set_payload m (some p) =
    let n = get_length p in
    let buf = resize m.inner (header_size + n) in
    record m { inner = set_payload_length (take header_size buf ++ take n p) n }

unfoldable pub create_message : (is_request : Bool) → Message
unfolding new_message set_message_type
create_message is_request = set_message_type new_message (if is_request then request else response)

unfoldable pub create_response : (req : Message) → Message
unfolding new_message set_service set_instance set_method set_client set_session
    set_interface_version set_message_type set_return_code get_service get_instance get_method
    get_client get_session get_interface_version
create_response req =
    let resp = set_service new_message (get_service req) in
    let resp = set_instance resp (get_instance req) in
    let resp = set_method resp (get_method req) in
    let resp = set_client resp (get_client req) in
    let resp = set_session resp (get_session req) in
    let resp = set_interface_version resp (get_interface_version req) in
    let resp = set_message_type resp response in set_return_code resp e_ok

unfoldable pub create_notification : Message
unfolding new_message set_message_type
create_notification = set_message_type new_message notification
