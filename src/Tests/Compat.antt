-- ===== src/Tests/Compat.antt =====
-- include/bsomeip/compat/vsomeip.hpp at concrete inputs.
use bsomeip.Common.{ℕ, ◌≡◌, inl, refl, some, none, List, [], ◌∷◌, length, arith}
use bsomeip.Wire.HeaderView.{payload_length, message_size}
use bsomeip.Wire.MessageType.{notification, is_response}
use bsomeip.Compat.Message.{
  Message, new_message, get_payload, get_instance, get_service, get_method, get_message_type,
  set_instance,
}
use bsomeip.Compat.Message.Contents.{
  Setter, message_type, payload, apply_all, intended_all, empty_contents, got,
}
use bsomeip.Compat.Message.Contents
use bsomeip.Compat.Message.Operations.{apply_all_lem}
use bsomeip.Sd.Discovery.{SdConfig}
use bsomeip.Compat.Application.{
  VsomeipApp, create, register_message_handler, send, notify, received,
}
use bsomeip.Compat.Application.Sent.{send-apply_all, notify-register_message_handler}

-- A request with two bytes, the first payload replaced by a second one.
abbrev setters : List Setter
setters =
    Contents.service 0x1234
    ∷ payload (some (1 ∷ 2 ∷ 3 ∷ []))
    ∷ Contents.method 0x0421
    ∷ Contents.instance_id 7
    ∷ Contents.session 5
    ∷ payload none
    ∷ payload (some (8 ∷ 9 ∷ []))
    ∷ []

apply_all_example :
    let m = apply_all new_message setters in
    let c = intended_all empty_contents setters in
    (got m ≡ c.header)
    × (get_payload m ≡ c.payload)
    × (get_instance m ≡ c.instance_id)
    × (payload_length m.inner ≡ length c.payload)
    × (length m.inner ≡ message_size m.inner)
apply_all_example = apply_all_lem setters (omega arith)

abbrev config : SdConfig
config = record {
  initial_delay_min = 0;
  initial_delay_max = 3000;
  repetition_base_delay = 10;
  repetition_max = 3;
  cyclic_offer_delay = 1000;
  offer_ttl = 3;
  find_ttl = 3;
}

abbrev app : VsomeipApp ℕ ℕ
app = create [] config

send-apply_all_example :
    let m = apply_all new_message setters in
    let registered = register_message_handler app (get_service m) 7 (get_method m) 42 in
    send registered (some m) ≡ (registered, received 42 (set_instance m 1) ∷ [])
unfolding get_service get_message_type apply_all is_response new_message
send-apply_all_example =
    send-apply_all app setters 7 42 (omega arith) (inl (λ e. absurd (omega arith))) (inl refl)

notify_vsomeip_example :
    let registered = register_message_handler app 0x1234 1 0x8001 42 in
    (m : Message) × (notify registered 0x1234 1 0x8001 (some (7 ∷ []))
      ≡ (registered, received 42 m ∷ []))
    × (get_message_type m ≡ notification)
    × (get_payload m ≡ 7 ∷ [])
notify_vsomeip_example =
    notify-register_message_handler app 0x1234 1 1 0x8001 42 (7 ∷ []) (omega arith)
      (inl (λ e. absurd (omega arith)))
