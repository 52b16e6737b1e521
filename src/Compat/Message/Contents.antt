-- ===== src/Compat/Message/Contents.antt =====
-- Sequences of setters, and what they are to make of a message's contents.
use bsomeip.Common.{
  IsByte, ℕ, ◌+◌, ◌^◌, ◌<◌, ◌≡◌, none, some, Option, List, [], ◌∷◌, length, take, drop, All,
}
use bsomeip.Wire.HeaderView
use bsomeip.Wire.Header.{Fields, fields}
use bsomeip.Compat.Message.{
  Message, set_service, set_instance, set_method, set_client, set_session, set_message_type,
  set_return_code, set_interface_version, set_payload, get_service, get_method, get_client,
  get_session, get_message_type, get_return_code, get_interface_version,
}

-- A call of a setter.
pub data Setter : Type 0 where
  service instance_id method client session message_type return_code interface_version : ℕ → Setter
  payload : Option (List ℕ) → Setter

unfoldable pub apply_setter : Message → Setter → Message
unfolding set_service set_instance set_method set_client set_session set_message_type
    set_return_code set_interface_version set_payload
apply_setter m (service s) = set_service m s
apply_setter m (instance_id i) = set_instance m i
apply_setter m (method mid) = set_method m mid
apply_setter m (client c) = set_client m c
apply_setter m (session s) = set_session m s
apply_setter m (message_type t) = set_message_type m t
apply_setter m (return_code rc) = set_return_code m rc
apply_setter m (interface_version v) = set_interface_version m v
apply_setter m (payload p) = set_payload m p

unfoldable pub apply_all : Message → List Setter → Message
unfolding apply_setter
apply_all m [] = m
apply_all m (c ∷ cs) = apply_all (apply_setter m c) cs

-- What a message holds, apart from its bytes.
pub record Contents : Type 0 where
  pub header : Fields
  pub payload : List ℕ
  pub instance_id : ℕ

abbrev pub with_fields : Contents → Fields → Contents
with_fields c f = record c { header = f }

unfoldable pub intended : Contents → Setter → Contents
intended c (service s) = with_fields c (record c.header { service = s })
intended c (instance_id i) = record c { instance_id = i }
intended c (method mid) = with_fields c (record c.header { method = mid })
intended c (client n) = with_fields c (record c.header { client = n })
intended c (session s) = with_fields c (record c.header { session = s })
intended c (message_type t) = with_fields c (record c.header { msg_type = t })
intended c (return_code rc) = with_fields c (record c.header { ret_code = rc })
intended c (interface_version v) = with_fields c (record c.header { interface_ver = v })
intended c (payload none) = c
intended c (payload (some p)) = record c {
  header = record c.header { length_field = length p + 8 };
  payload = p;
}

unfoldable pub intended_all : Contents → List Setter → Contents
unfolding intended
intended_all c [] = c
intended_all c (op ∷ ops) = intended_all (intended c op) ops

-- The argument is a number of the setter's type, or a payload that a message can hold.
abbrev pub Fits : Setter → Type 0
Fits (service s) = s < 2 ^ 16
Fits (instance_id i) = i < 2 ^ 16
Fits (method mid) = mid < 2 ^ 16
Fits (client c) = c < 2 ^ 16
Fits (session s) = s < 2 ^ 16
Fits (message_type t) = IsByte t
Fits (return_code rc) = IsByte rc
Fits (interface_version v) = IsByte v
Fits (payload none) = Unit
Fits (payload (some p)) = length p + 8 < 2 ^ 32

-- The contents of `message()`.
abbrev pub empty_contents : Contents
empty_contents = record {
  header = record {
    service = 0;
    method = 0;
    length_field = 8;
    client = 0;
    session = 0;
    protocol_ver = 1;
    interface_ver = 0;
    msg_type = 0;
    ret_code = 0;
  };
  payload = [];
  instance_id = 1;
}

-- A message with these contents.
pub record Holds (m : Message) (c : Contents) : Type 0 where
  pub header_is : fields m.inner ≡ c.header
  pub payload_is : drop 16 m.inner ≡ c.payload
  pub size_is : length m.inner ≡ 16 + length c.payload
  pub bytes : All IsByte (take 16 m.inner)
  pub instance_is : m.instance_id ≡ c.instance_id
  pub length_is : c.header.length_field ≡ length c.payload + 8
  pub small : length c.payload + 8 < 2 ^ 32

-- What the getters of a message say, with the length field and the protocol version.
unfoldable pub got : Message → Fields
unfolding get_service get_method get_client get_session get_message_type get_return_code
    get_interface_version HeaderView.length HeaderView.protocol_ver
got m = record {
  service = get_service m;
  method = get_method m;
  length_field = HeaderView.length m.inner;
  client = get_client m;
  session = get_session m;
  protocol_ver = HeaderView.protocol_ver m.inner;
  interface_ver = get_interface_version m;
  msg_type = get_message_type m;
  ret_code = get_return_code m;
}
