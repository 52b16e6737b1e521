-- ===== src/Compat/Message/Operations.antt =====
-- What a message holds after any sequence of its setters.
use bsomeip.Common.{
  ℕ, ◌+◌, ◌%◌, ◌^◌, ◌≤◌, ◌<◌, ◌≡◌, refl, sym, ap, ◌∙◌, subst, false, none, some, List, [], ◌∷◌,
  ◌++◌, length, length-take, take, take-append_front, take-take, take_all, All, ltb, arith,
}
use bsomeip.Wire.HeaderView
use bsomeip.Wire.HeaderView.{payload_length, message_size}
use bsomeip.Wire.Header.{Fields, fields, fields_of_bytes}
use bsomeip.Api.Rpc.Handled.{payload_lem, payload_length_of}
use bsomeip.Compat.Message.{
  Message, new_message, resize, ensure_header, with_header, get_length, get_payload, get_instance,
  get_service, get_method, get_client, get_session, get_message_type, get_return_code,
  get_interface_version, set_service, set_instance, set_method, set_client, set_session,
  set_message_type, set_return_code, set_interface_version, set_payload,
}
use bsomeip.Compat.Message.Contents.{
  Setter, service, instance_id, method, client, session, message_type, return_code,
  interface_version, payload, apply_setter, apply_all, Contents, with_fields, intended,
  intended_all, Fits, empty_contents, Holds, got,
}
use bsomeip.Compat.Message.Setters.{Written, setters_lem, another_payload}

ensure_header_lem : (buf : List ℕ) → 16 ≤ length buf → ensure_header buf ≡ buf
ensure_header_lem buf h = let long : ltb (length buf) 16 ≡ false = ground arith in rw long refl

-- A setter of the header, which changes the fields by `u`.
header_step :
    (m : Message) (c : Contents) (set : List ℕ → List ℕ) (u : Fields → Fields)
    → Holds m c
    → (u c.header).length_field ≡ c.header.length_field
    → Written (set m.inner) m.inner (u (fields m.inner))
    → Holds (with_header m set) (with_fields c (u c.header))
header_step m c set u h e (w, d, l, b) =
    let same = ensure_header_lem m.inner (omega (arith, h.size_is)) in
    subst (λ buf. Holds (record m { inner = set buf }) (with_fields c (u c.header))) (sym same)
      record {
        header_is = w ∙ ap u h.header_is;
        payload_is = d ∙ h.payload_is;
        size_is = l ∙ h.size_is;
        bytes = b;
        instance_is = h.instance_is;
        length_is = e ∙ h.length_is;
        small = h.small;
      }

new_message-Holds : Holds new_message empty_contents
unfolding new_message
new_message-Holds = record {
  header_is = fields_of_bytes 0 0 0 0 0 0 0 8 0 0 0 0 1 0 0 0 [] (omega arith);
  payload_is = refl;
  size_is = refl;
  bytes = omega arith;
  instance_is = refl;
  length_is = refl;
  small = omega arith;
}

payload_step :
    (m : Message) (c : Contents) (p : List ℕ)
    → Holds m c
    → length p + 8 < 2 ^ 32
    → Holds (set_payload m (some p)) (intended c (payload (some p)))
unfolding set_payload get_length intended
payload_step m c p h fits =
    let n : length p % 2 ^ 32 ≡ length p = omega arith in
    let long : 16 ≤ length m.inner = omega (arith, h.size_is) in
    let front : take 16 (resize m.inner (16 + length p)) ≡ take 16 m.inner =
      take-append_front 16 (take (16 + length p) m.inner) _
        (omega (arith, length-take (16 + length p) m.inner))
      ∙ take-take 16 (16 + length p) m.inner (omega arith) in
    let (f, d, l, b) = another_payload m.inner p long h.bytes in
    let (_, _, _, _, _, _, _, (w, e, k, bs)) =
      setters_lem (take 16 m.inner ++ p) 0 0 0 0 0 0 0 (length p) (omega (arith, l)) b (omega arith)
        (omega arith) fits in
    rw (n, front, take_all (length p) p (omega arith))
      record {
        header_is =
            w ∙ ap (λ (g : Fields). record g { length_field = length p + 8 }) (f ∙ h.header_is);
        payload_is = e ∙ d;
        size_is = k ∙ l;
        bytes = bs;
        instance_is = h.instance_is;
        length_is = refl;
        small = fits;
      }

pub apply_setter-Holds :
    (m : Message) (c : Contents) (op : Setter)
    → Holds m c
    → Fits op
    → Holds (apply_setter m op) (intended c op)
unfolding apply_setter intended set_service set_instance set_method set_client set_session
    set_message_type set_return_code set_interface_version set_payload
apply_setter-Holds m c (service s) h fits =
    header_step m c (λ buf. HeaderView.set_service buf s) (λ g. record g { service = s }) h refl
      (setters_lem m.inner s 0 0 0 0 0 0 0 (omega (arith, h.size_is)) h.bytes (omega arith)
        (omega arith) (omega arith)).0
apply_setter-Holds m c (instance_id i) h fits = record {
  header_is = h.header_is;
  payload_is = h.payload_is;
  size_is = h.size_is;
  bytes = h.bytes;
  instance_is = refl;
  length_is = h.length_is;
  small = h.small;
}
apply_setter-Holds m c (method mid) h fits =
    header_step m c (λ buf. HeaderView.set_method buf mid) (λ g. record g { method = mid }) h refl
      (setters_lem m.inner 0 mid 0 0 0 0 0 0 (omega (arith, h.size_is)) h.bytes (omega arith)
        (omega arith) (omega arith)).1
apply_setter-Holds m c (client n) h fits =
    header_step m c (λ buf. HeaderView.set_client buf n) (λ g. record g { client = n }) h refl
      (setters_lem m.inner 0 0 n 0 0 0 0 0 (omega (arith, h.size_is)) h.bytes (omega arith)
        (omega arith) (omega arith)).2
apply_setter-Holds m c (session s) h fits =
    header_step m c (λ buf. HeaderView.set_session buf s) (λ g. record g { session = s }) h refl
      (setters_lem m.inner 0 0 0 s 0 0 0 0 (omega (arith, h.size_is)) h.bytes (omega arith)
        (omega arith) (omega arith)).3
apply_setter-Holds m c (message_type t) h fits =
    header_step m c (λ buf. HeaderView.set_msg_type buf t) (λ g. record g { msg_type = t }) h refl
      (setters_lem m.inner 0 0 0 0 0 t 0 0 (omega (arith, h.size_is)) h.bytes (omega arith)
        (omega arith) (omega arith)).5
apply_setter-Holds m c (return_code rc) h fits =
    header_step m c (λ buf. HeaderView.set_ret_code buf rc) (λ g. record g { ret_code = rc }) h refl
      (setters_lem m.inner 0 0 0 0 0 0 rc 0 (omega (arith, h.size_is)) h.bytes (omega arith)
        (omega arith) (omega arith)).6
apply_setter-Holds m c (interface_version v) h fits =
    header_step m c (λ buf. HeaderView.set_interface_ver buf v)
      (λ g. record g { interface_ver = v }) h refl
      (setters_lem m.inner 0 0 0 0 v 0 0 0 (omega (arith, h.size_is)) h.bytes (omega arith)
        (omega arith) (omega arith)).4
apply_setter-Holds m c (payload none) h fits = h
apply_setter-Holds m c (payload (some p)) h fits = payload_step m c p h fits

pub apply_all-Holds :
    (m : Message) (c : Contents) (ops : List Setter)
    → Holds m c
    → All Fits ops
    → Holds (apply_all m ops) (intended_all c ops)
unfolding apply_all intended_all
apply_all-Holds m c [] h fits = h
apply_all-Holds m c (op ∷ ops) h (fit, fits) =
    apply_all-Holds (apply_setter m op) (intended c op) ops (apply_setter-Holds m c op h fit) fits

-- Whatever setters are called on a new message, in whatever order, its getters give what each field
-- was last set to, or was at first, and its payload is the one last set. The message is as long as
-- its length field says. The numbers are of the setters' types and the payloads fit the length field.
pub apply_all_lem :
    (ops : List Setter)
    → All Fits ops
    → let m = apply_all new_message ops in
      let c = intended_all empty_contents ops in
      (got m ≡ c.header)
      × (get_payload m ≡ c.payload)
      × (get_instance m ≡ c.instance_id)
      × (payload_length m.inner ≡ length c.payload)
      × (length m.inner ≡ message_size m.inner)
unfolding got get_payload get_instance message_size get_service get_method get_client get_session
    get_message_type get_return_code get_interface_version
apply_all_lem ops fits =
    let h = apply_all-Holds new_message empty_contents ops new_message-Holds fits in
    let m = apply_all new_message ops in
    let c = intended_all empty_contents ops in
    let n =
      payload_length_of m.inner (length c.payload)
        (ap (λ (g : Fields). g.length_field) h.header_is ∙ h.length_is) in
    let p = payload_lem m.inner ∙ h.payload_is in
    (
      h.header_is,
      rw p (take_all _ c.payload (omega (arith, h.small))),
      h.instance_is,
      n,
      omega (arith, n, h.size_is),
    )
