-- ===== src/Api/Message/Create.antt =====
-- What the header of a created message says.
use bsomeip.Common.{
  IsByte, ℕ, ◌+◌, ◌/◌, ◌%◌, ◌^◌, ◌<◌, ◌≡◌, ap, List, [], ◌∷◌, length, replicate, length-replicate,
  replicate-add, take, All, arith,
}
use bsomeip.Wire.MessageType.{request, response, notification}
use bsomeip.Wire.HeaderView
use bsomeip.Wire.Header.{Fields, fields, fields_of_bytes}
use bsomeip.Api.Message.{create, create_response, create_request, create_notification}

-- The bytes of a created message.
create_bytes :
    (n : ℕ)
    → create n
      ≡ 0
        ∷ 0
        ∷ 0
        ∷ 0
        ∷ ((n + 8) % 2 ^ 32 / 2 ^ 24 % 2 ^ 8)
        ∷ ((n + 8) % 2 ^ 32 / 2 ^ 16 % 2 ^ 8)
        ∷ ((n + 8) % 2 ^ 32 / 2 ^ 8 % 2 ^ 8)
        ∷ ((n + 8) % 2 ^ 32 % 2 ^ 8)
        ∷ 0
        ∷ 0
        ∷ 0
        ∷ 0
        ∷ 1
        ∷ 0
        ∷ 0
        ∷ 0
        ∷ replicate n 0
unfolding create
create_bytes n = rw (replicate-add {A = ℕ} 16 n 0)

-- A created request has the identifiers asked for, the type and code of a request, the protocol
-- version, and a length field that covers the payload.
pub create_request-fields :
    (s m c n size : ℕ)
    → All (λ x. x < 2 ^ 16) (s ∷ m ∷ c ∷ n ∷ [])
    → size + 8 < 2 ^ 32
    → (fields (create_request s m c n size) ≡ record {
      service = s;
      method = m;
      length_field = size + 8;
      client = c;
      session = n;
      protocol_ver = 1;
      interface_ver = 0;
      msg_type = request;
      ret_code = 0;
    })
      × (HeaderView.payload_length (create_request s m c n size) ≡ size)
      × (length (create_request s m c n size) ≡ 16 + size)
unfolding create_request HeaderView.payload_length
create_request-fields s m c n size h hs =
    let l = (size + 8) % 2 ^ 32 in
    let e =
      fields_of_bytes (s / 2 ^ 8 % 2 ^ 8) (s % 2 ^ 8) (m / 2 ^ 8 % 2 ^ 8) (m % 2 ^ 8)
        (l / 2 ^ 24 % 2 ^ 8) (l / 2 ^ 16 % 2 ^ 8) (l / 2 ^ 8 % 2 ^ 8) (l % 2 ^ 8)
        (c / 2 ^ 8 % 2 ^ 8) (c % 2 ^ 8) (n / 2 ^ 8 % 2 ^ 8) (n % 2 ^ 8) 1 0 request 0
        (replicate size 0) (omega arith) in
    rw (create_bytes size) (
      ground (arith, e),
      ground (arith, ap (λ (f : Fields). f.length_field) e),
      omega (arith, length-replicate {A = ℕ} size 0),
    )

-- A created response has the identifiers and the interface version of its request, the type and
-- code of a good response, and a length field that covers its payload.
pub create_response-fields :
    (req : List ℕ) (size : ℕ)
    → All
        (λ x. x < 2 ^ 16)
        (HeaderView.service req
          ∷ HeaderView.method req
          ∷ HeaderView.client req
          ∷ HeaderView.session req
          ∷ [])
    → IsByte (HeaderView.interface_ver req)
    → size + 8 < 2 ^ 32
    → (fields (create_response req size) ≡ record {
      service = HeaderView.service req;
      method = HeaderView.method req;
      length_field = size + 8;
      client = HeaderView.client req;
      session = HeaderView.session req;
      protocol_ver = 1;
      interface_ver = HeaderView.interface_ver req;
      msg_type = response;
      ret_code = 0;
    })
      × (length (create_response req size) ≡ 16 + size)
unfolding create_response
create_response-fields req size h hi hs =
    let s = HeaderView.service req in
    let m = HeaderView.method req in
    let c = HeaderView.client req in
    let n = HeaderView.session req in
    let l = (size + 8) % 2 ^ 32 in
    let e =
      fields_of_bytes (s / 2 ^ 8 % 2 ^ 8) (s % 2 ^ 8) (m / 2 ^ 8 % 2 ^ 8) (m % 2 ^ 8)
        (l / 2 ^ 24 % 2 ^ 8) (l / 2 ^ 16 % 2 ^ 8) (l / 2 ^ 8 % 2 ^ 8) (l % 2 ^ 8)
        (c / 2 ^ 8 % 2 ^ 8) (c % 2 ^ 8) (n / 2 ^ 8 % 2 ^ 8) (n % 2 ^ 8) 1
        (HeaderView.interface_ver req) response 0 (replicate size 0) (omega arith) in
    rw (create_bytes size) (ground (arith, e), omega (arith, length-replicate {A = ℕ} size 0))

-- The sixteen bytes of a created header are bytes.
pub create_request-IsByte : (s m c n size : ℕ) → All IsByte (take 16 (create_request s m c n size))
unfolding create_request
create_request-IsByte s m c n size = rw (create_bytes size) (omega arith)

pub create_response-IsByte :
    (req : List ℕ) (size : ℕ)
    → IsByte (HeaderView.interface_ver req)
    → All IsByte (take 16 (create_response req size))
unfolding create_response
create_response-IsByte req size h = rw (create_bytes size) (omega arith)

-- A created notification has the identifiers asked for, the type and code of a notification, and a
-- length field that covers the payload.
pub create_notification-fields :
    (s e size : ℕ)
    → (s < 2 ^ 16) × (e < 2 ^ 16)
    → size + 8 < 2 ^ 32
    → (fields (create_notification s e size) ≡ record {
      service = s;
      method = e;
      length_field = size + 8;
      client = 0;
      session = 0;
      protocol_ver = 1;
      interface_ver = 0;
      msg_type = notification;
      ret_code = 0;
    })
      × (length (create_notification s e size) ≡ 16 + size)
      × All IsByte (take 16 (create_notification s e size))
unfolding create_notification
create_notification-fields s e size h hs =
    let l = (size + 8) % 2 ^ 32 in
    let f =
      fields_of_bytes (s / 2 ^ 8 % 2 ^ 8) (s % 2 ^ 8) (e / 2 ^ 8 % 2 ^ 8) (e % 2 ^ 8)
        (l / 2 ^ 24 % 2 ^ 8) (l / 2 ^ 16 % 2 ^ 8) (l / 2 ^ 8 % 2 ^ 8) (l % 2 ^ 8) 0 0 0 0 1 0
        notification 0 (replicate size 0) (omega arith) in
    rw (create_bytes size)
      (ground (arith, f), omega (arith, length-replicate {A = ℕ} size 0), omega arith)
