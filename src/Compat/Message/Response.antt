-- ===== src/Compat/Message/Response.antt =====
-- The response to a request.
use bsomeip.Common.{
  IsByte, ◌+◌, ◌^◌, ◌<◌, ◌≡◌, refl, ap, ◌∙◌, subst, List, [], ◌∷◌, length, All, arith,
}
use bsomeip.Wire.MessageType.{response, e_ok}
use bsomeip.Wire.HeaderView.{message_size, payload_length}
use bsomeip.Compat.Message.{
  Message, new_message, create_response, get_payload, get_instance, get_service, get_method,
  get_client, get_session, get_interface_version,
}
use bsomeip.Compat.Message.Contents.{
  Setter, service, instance_id, method, client, session, message_type, return_code,
  interface_version, apply_setter, apply_all, intended, intended_all, empty_contents, got,
}
use bsomeip.Compat.Message.Operations.{apply_all_lem}

-- What is copied from the request, and set.
abbrev copied : Message → List Setter
copied req =
    service (get_service req)
    ∷ instance_id (get_instance req)
    ∷ method (get_method req)
    ∷ client (get_client req)
    ∷ session (get_session req)
    ∷ interface_version (get_interface_version req)
    ∷ message_type response
    ∷ return_code e_ok
    ∷ []

copied_lem : (req : Message) → apply_all new_message (copied req) ≡ create_response req
unfolding apply_all apply_setter create_response
copied_lem req = refl

-- A response to a request has its service, method, client, session, interface version and instance,
-- the type and the code of a good response, and no payload. The request is any message whose fields
-- and instance are numbers of their types.
pub create_response_lem :
    (req : Message)
    → All
        (λ x. x < 2 ^ 16)
        (get_service req
          ∷ get_method req
          ∷ get_client req
          ∷ get_session req
          ∷ get_instance req
          ∷ [])
    → IsByte (get_interface_version req)
    → let resp = create_response req in
      (got resp ≡ record {
        service = get_service req;
        method = get_method req;
        length_field = 8;
        client = get_client req;
        session = get_session req;
        protocol_ver = 1;
        interface_ver = get_interface_version req;
        msg_type = response;
        ret_code = e_ok;
      })
      × (get_payload resp ≡ [])
      × (get_instance resp ≡ get_instance req)
      × (length resp.inner ≡ 16)
unfolding intended intended_all message_size payload_length
create_response_lem req ids v =
    subst
      (λ m.
        (got m ≡ (intended_all empty_contents (copied req)).header)
        × (get_payload m ≡ [])
        × (get_instance m ≡ get_instance req)
        × (length m.inner ≡ 16))
      (copied_lem req)
      (let (g, p, i, n, size) = apply_all_lem (copied req) (omega arith) in
        (g, p, i, size ∙ ap (λ k. 16 + k) n))
