-- ===== src/Api/Message.antt =====
-- include/bsomeip/api/application.hpp, `message`: the owning buffer, which is a list of bytes here.
pub mod Create
use bsomeip.Common.{ℕ, ◌+◌, List, [], length, replicate, drop, leb, if◌then◌else◌}
use bsomeip.Wire.MessageType.{request, response, notification}
use bsomeip.Wire.HeaderView
use bsomeip.Wire.HeaderView.{
  header_size, protocol_version, set_protocol_ver, set_payload_length, set_service, set_method,
  set_client, set_session, set_interface_ver, set_msg_type, set_ret_code,
}

-- `return_code::e_ok`
abbrev pub e_ok : ℕ
e_ok = 0

unfoldable pub payload : List ℕ → List ℕ
payload bytes = if leb (length bytes) header_size then [] else drop header_size bytes

unfoldable pub create : ℕ → List ℕ
unfolding set_protocol_ver set_payload_length
create payload_size =
    let m = replicate (header_size + payload_size) 0 in
    let m = set_protocol_ver m protocol_version in set_payload_length m payload_size

unfoldable pub create_response : (req : List ℕ) → ℕ → List ℕ
unfolding create set_service set_method set_client set_session set_interface_ver set_msg_type
    set_ret_code HeaderView.service HeaderView.method HeaderView.client HeaderView.session
    HeaderView.interface_ver
create_response req payload_size =
    let m = create payload_size in
    let m = set_service m (HeaderView.service req) in
    let m = set_method m (HeaderView.method req) in
    let m = set_client m (HeaderView.client req) in
    let m = set_session m (HeaderView.session req) in
    let m = set_interface_ver m (HeaderView.interface_ver req) in
    let m = set_msg_type m response in set_ret_code m e_ok

unfoldable pub create_notification : (service event payload_size : ℕ) → List ℕ
unfolding create set_service set_method set_msg_type set_ret_code
create_notification s e payload_size =
    let m = create payload_size in
    let m = set_service m s in
    let m = set_method m e in let m = set_msg_type m notification in set_ret_code m e_ok

unfoldable pub create_request : (service method client session payload_size : ℕ) → List ℕ
unfolding create set_service set_method set_client set_session set_msg_type set_ret_code
create_request s m c n payload_size =
    let msg = create payload_size in
    let msg = set_service msg s in
    let msg = set_method msg m in
    let msg = set_client msg c in
    let msg = set_session msg n in let msg = set_msg_type msg request in set_ret_code msg e_ok
