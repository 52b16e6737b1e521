-- ===== src/Wire/Header.antt =====
-- include/bsomeip/wire/header.hpp: the owning header.
use bsomeip.Common.{
  IsByte, ℕ, ◌+◌, ◌*◌, ◌/◌, ◌%◌, ◌^◌, ◌<◌, ◌≡◌, refl, ap, ◌∙◌, arith, List, [], ◌∷◌, ◌++◌, length,
  replicate, All,
}
use bsomeip.Wire.Bytes.Laws.{read_u16_be_lem, read_u32_be_lem}
use bsomeip.Wire.HeaderView
use bsomeip.Wire.HeaderView.{
  header_size, someip_header_size, protocol_version, set_service, set_method, set_client,
  set_session, set_protocol_ver, set_interface_ver, set_msg_type, set_ret_code, set_length,
}

-- The setters of `header::make` in its order, on any buffer.
unfoldable pub make : (service method client session iface_ver msg_type ret_code : ℕ) → List ℕ
unfolding set_service set_method set_client set_session set_protocol_ver set_interface_ver
    set_msg_type set_ret_code set_length
make service method client session iface_ver msg_type ret_code =
    let h = replicate header_size 0 in
    let h = set_service h service in
    let h = set_method h method in
    let h = set_client h client in
    let h = set_session h session in
    let h = set_protocol_ver h protocol_version in
    let h = set_interface_ver h iface_ver in
    let h = set_msg_type h msg_type in
    let h = set_ret_code h ret_code in set_length h someip_header_size

-- All that the getters of a view say.
pub record Fields : Type 0 where
  pub service : ℕ
  pub method : ℕ
  pub length_field : ℕ
  pub client : ℕ
  pub session : ℕ
  pub protocol_ver : ℕ
  pub interface_ver : ℕ
  pub msg_type : ℕ
  pub ret_code : ℕ

abbrev pub fields : List ℕ → Fields
fields p = record {
  service = HeaderView.service p;
  method = HeaderView.method p;
  length_field = HeaderView.length p;
  client = HeaderView.client p;
  session = HeaderView.session p;
  protocol_ver = HeaderView.protocol_ver p;
  interface_ver = HeaderView.interface_ver p;
  msg_type = HeaderView.msg_type p;
  ret_code = HeaderView.ret_code p;
}

-- What the getters read from sixteen bytes, whatever follows them.
pub fields_of_bytes :
    (b0 b1 b2 b3 b4 b5 b6 b7 b8 b9 b10 b11 b12 b13 b14 b15 : ℕ) (rest : List ℕ)
    → All IsByte
        (b0 ∷ b1 ∷ b2 ∷ b3 ∷ b4 ∷ b5 ∷ b6 ∷ b7 ∷ b8 ∷ b9 ∷ b10 ∷ b11 ∷ b12 ∷ b13 ∷ b14 ∷ b15 ∷ [])
    → fields
        (b0 ∷ b1 ∷ b2 ∷ b3 ∷ b4 ∷ b5 ∷ b6 ∷ b7 ∷ b8 ∷ b9 ∷ b10 ∷ b11 ∷ b12 ∷ b13 ∷ b14 ∷ b15 ∷ rest)
      ≡ record {
        service = b0 * 2 ^ 8 + b1;
        method = b2 * 2 ^ 8 + b3;
        length_field = b4 * 2 ^ 24 + b5 * 2 ^ 16 + b6 * 2 ^ 8 + b7;
        client = b8 * 2 ^ 8 + b9;
        session = b10 * 2 ^ 8 + b11;
        protocol_ver = b12;
        interface_ver = b13;
        msg_type = b14;
        ret_code = b15;
      }
unfolding HeaderView.service HeaderView.method HeaderView.length HeaderView.client
    HeaderView.session HeaderView.protocol_ver HeaderView.interface_ver HeaderView.msg_type
    HeaderView.ret_code
fields_of_bytes b0 b1 b2 b3 b4 b5 b6 b7 b8 b9 b10 b11 b12 b13 b14 b15 rest h =
    let p =
      b0 ∷ b1 ∷ b2 ∷ b3 ∷ b4 ∷ b5 ∷ b6 ∷ b7 ∷ b8 ∷ b9 ∷ b10 ∷ b11 ∷ b12 ∷ b13 ∷ b14 ∷ b15 ∷ rest in
    λ i. record {
      service = read_u16_be_lem p 0 (omega arith) (omega arith) i;
      method = read_u16_be_lem p 2 (omega arith) (omega arith) i;
      length_field = read_u32_be_lem p 4 (omega arith) (omega arith) (omega arith) i;
      client = read_u16_be_lem p 8 (omega arith) (omega arith) i;
      session = read_u16_be_lem p 10 (omega arith) (omega arith) i;
      protocol_ver = b12;
      interface_ver = b13;
      msg_type = b14;
      ret_code = b15;
    }

-- The getters read back the arguments of `make`, the protocol version 1 and the length 8, for
-- 16-bit identifiers and byte-sized version, type and code; and the payload length is 0.
pub make-fields :
    (s m c n i t r : ℕ)
    → All (λ x. x < 2 ^ 16) (s ∷ m ∷ c ∷ n ∷ [])
    → All IsByte (i ∷ t ∷ r ∷ [])
    → (fields (make s m c n i t r) ≡ record {
      service = s;
      method = m;
      length_field = 8;
      client = c;
      session = n;
      protocol_ver = 1;
      interface_ver = i;
      msg_type = t;
      ret_code = r;
    })
      × (HeaderView.payload_length (make s m c n i t r) ≡ 0)
unfolding make HeaderView.payload_length
make-fields s m c n i t r h hb =
    let e =
      fields_of_bytes (s / 2 ^ 8 % 2 ^ 8) (s % 2 ^ 8) (m / 2 ^ 8 % 2 ^ 8) (m % 2 ^ 8) 0 0 0 8
        (c / 2 ^ 8 % 2 ^ 8) (c % 2 ^ 8) (n / 2 ^ 8 % 2 ^ 8) (n % 2 ^ 8) 1 i t r [] (omega arith) in
    (ground (arith, e), ground (arith, ap (λ (f : Fields). f.length_field) e))

-- The identifiers, in a made header before any payload.
pub make-ids :
    (s m c n i t r : ℕ) (payload : List ℕ)
    → All (λ x. x < 2 ^ 16) (s ∷ m ∷ c ∷ n ∷ [])
    → All IsByte (i ∷ t ∷ r ∷ [])
    → let msg = make s m c n i t r ++ payload in
      (HeaderView.service msg ≡ s)
      × (HeaderView.method msg ≡ m)
      × (HeaderView.client msg ≡ c)
      × (HeaderView.session msg ≡ n)
unfolding make
make-ids s m c n i t r payload h hb =
    let e =
      fields_of_bytes (s / 2 ^ 8 % 2 ^ 8) (s % 2 ^ 8) (m / 2 ^ 8 % 2 ^ 8) (m % 2 ^ 8) 0 0 0 8
        (c / 2 ^ 8 % 2 ^ 8) (c % 2 ^ 8) (n / 2 ^ 8 % 2 ^ 8) (n % 2 ^ 8) 1 i t r payload
        (omega arith) in
    (
      ap (λ (f : Fields). f.service) e ∙ omega arith,
      ap (λ (f : Fields). f.method) e ∙ omega arith,
      ap (λ (f : Fields). f.client) e ∙ omega arith,
      ap (λ (f : Fields). f.session) e ∙ omega arith,
    )

pub length-make : (s m c n i t r : ℕ) → length (make s m c n i t r) ≡ 16
unfolding make
length-make s m c n i t r = refl
