-- ===== src/Api/Rpc/Filled.antt =====
-- Requests and responses whose payload is filled in.
use bsomeip.Common.{IsByte, ℕ, ◌+◌, ◌^◌, ◌≤◌, ◌<◌, ◌≡◌, ap, subst, List, [], ◌∷◌, All, arith}
use bsomeip.Wire.HeaderView
use bsomeip.Wire.HeaderView.{service, method, session, msg_type, ret_code}
use bsomeip.Wire.Header.{Fields, fields}
use bsomeip.Wire.MessageType.{request, response}
use bsomeip.Wire.Codec.{Members, Values, done}
use bsomeip.Wire.Codec.Layout.{MembersFit, members_size, members_bytes}
use bsomeip.Api.Message.{create_request, create_response}
use bsomeip.Api.Message.Create.{
  create_request-fields, create_response-fields, create_request-IsByte, create_response-IsByte,
}
use bsomeip.Api.Rpc.{fill}
use bsomeip.Api.Rpc.Handled.{Carries, fill_lem}

-- What the getters say of a message with these fields.
pub getters :
    (msg : List ℕ) (f : Fields)
    → fields msg ≡ f
    → (service msg ≡ f.service)
      × (method msg ≡ f.method)
      × (HeaderView.client msg ≡ f.client)
      × (session msg ≡ f.session)
      × (HeaderView.interface_ver msg ≡ f.interface_ver)
      × (msg_type msg ≡ f.msg_type)
      × (ret_code msg ≡ f.ret_code)
getters msg f e = (
  ap (λ (g : Fields). g.service) e,
  ap (λ (g : Fields). g.method) e,
  ap (λ (g : Fields). g.client) e,
  ap (λ (g : Fields). g.session) e,
  ap (λ (g : Fields). g.interface_ver) e,
  ap (λ (g : Fields). g.msg_type) e,
  ap (λ (g : Fields). g.ret_code) e,
)

abbrev pub request_fields : (service method client session size : ℕ) → Fields
request_fields s mid client n size = record {
  service = s;
  method = mid;
  length_field = size + 8;
  client = client;
  session = n;
  protocol_ver = 1;
  interface_ver = 0;
  msg_type = request;
  ret_code = 0;
}

module _ (size_of : Members → ℕ) (big : (ms : Members) → members_size ms ≤ size_of ms) where
  pub request_lem :
      (s mid client n : ℕ) (ms : Members) (v : Values ms)
      → All (λ x. x < 2 ^ 16) (s ∷ mid ∷ client ∷ n ∷ [])
      → size_of ms + 8 < 2 ^ 32
      → MembersFit ms v
      → (msg : List ℕ) × (fill (create_request s mid client n (size_of ms)) ms v ≡ done msg)
        × Carries msg (request_fields s mid client n (size_of ms)) (members_bytes ms v)
  request_lem s mid client n ms v ids small fits =
      let (f, _, room) = create_request-fields s mid client n (size_of ms) ids small in
      let enough = big ms in
      let (msg, e, c) =
        fill_lem (create_request s mid client n (size_of ms)) ms v fits (omega arith)
          (create_request-IsByte s mid client n (size_of ms)) (omega arith) in
      (msg, e, subst (λ g. Carries msg g (members_bytes ms v)) f c)

  pub response_lem :
      (req : List ℕ) (ms : Members) (v : Values ms)
      → All (λ x. x < 2 ^ 16) (service req ∷ method req ∷ HeaderView.client req ∷ session req ∷ [])
      → IsByte (HeaderView.interface_ver req)
      → size_of ms + 8 < 2 ^ 32
      → MembersFit ms v
      → (msg : List ℕ) × (fill (create_response req (size_of ms)) ms v ≡ done msg)
        × Carries msg
            (record {
              service = service req;
              method = method req;
              length_field = size_of ms + 8;
              client = HeaderView.client req;
              session = session req;
              protocol_ver = 1;
              interface_ver = HeaderView.interface_ver req;
              msg_type = response;
              ret_code = 0;
            })
            (members_bytes ms v)
  response_lem req ms v ids iface small fits =
      let (f, room) = create_response-fields req (size_of ms) ids iface small in
      let enough = big ms in
      let (msg, e, c) =
        fill_lem (create_response req (size_of ms)) ms v fits (omega arith)
          (create_response-IsByte req (size_of ms) iface) (omega arith) in
      (msg, e, subst (λ g. Carries msg g (members_bytes ms v)) f c)
