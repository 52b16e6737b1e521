-- ===== src/Compat/Application/Sent.antt =====
-- The way of a message from `send` and `notify` to a handler.
use bsomeip.Common.{
  ℕ, ◌+◌, ◌%◌, ◌^◌, ◌≤◌, ◌<◌, ◌≡◌, ◌≢◌, ◌⊎◌, inl, inr, refl, sym, ap, ◌∙◌, subst, Bool, false, none,
  some, List, [], ◌∷◌, ◌++◌, length, length-drop, length-take, take, drop, take-append,
  take-append-drop, take_all, drop_all, ◌==◌, Bool-cases, All, arith,
}
use bsomeip.Wire.Bytes.{read_u16_be}
use bsomeip.Wire.HeaderView.{message_size, service, method, session, msg_type, payload_length}
use bsomeip.Wire.MessageType.{is_response, notification}
use bsomeip.Wire.Header.{Fields, fields}
use bsomeip.Api.Message.{create_notification}
use bsomeip.Api.Message.Create.{create_notification-fields}
use bsomeip.Api.Rpc.Handled.{payload_lem, payload_length_of}
use bsomeip.Compat.Message.Setters.{another_payload}
use bsomeip.Route.Dispatcher.{view_of}
use bsomeip.Route.Manager.{sd_service, sd_method}
use bsomeip.Route.Manager.Routing.{route_message-register_handler}
use bsomeip.Api.Application.{
  App, Calls, Routed, route, dispatch_raw, pending_at, dispatched, message, calls_to,
}
use bsomeip.Api.Application
use bsomeip.Api.Application.Pending.{route_request, route_not_pending}
use bsomeip.Compat.Message.{
  Message, new_message, resize, get_service, get_method, get_session, get_message_type, get_length,
  get_payload, set_instance,
}
use bsomeip.Compat.Message.Contents.{Setter, Fits, apply_all}
use bsomeip.Compat.Message.Operations.{apply_all_lem}
use bsomeip.Compat.Application.{
  VsomeipApp, received, wrap, route_inner, told_all, register_message_handler, send, notify,
  build_event,
}

length_made : {n : ℕ} → n ≡ 0 → length (resize new_message.inner (16 + n)) ≤ 16
unfolding new_message
length_made e = rw e (omega arith)

-- A view of a whole message is wrapped into the same bytes.
wrap-view_of :
    (raw : List ℕ)
    → length raw ≡ 16 + payload_length raw
    → wrap (view_of raw (take (payload_length raw) (drop 16 raw)))
      ≡ record { inner = raw; instance_id = 1 }
unfolding wrap new_message
wrap-view_of raw e =
    let rest = drop 16 raw in
    let n : length rest ≡ payload_length raw = omega (arith, length-drop 16 raw) in
    let made = resize new_message.inner (16 + length rest) in
    let whole = λ (b : List ℕ) (is : b ≡ raw).
      ap {B = Message} (λ buf. record { inner = buf; instance_id = 1 }) is in
    rw (take_all (payload_length raw) rest (omega arith)) (elim (Bool-cases (length rest == 0)) [
      | inl t ↦
          let empty : length rest ≡ 0 = ground (arith, t) in
          rw t (
            whole _ (
              ap (λ b. take 16 raw ++ b)
                (drop_all 16 made (length_made empty) ∙ sym (drop_all 16 raw (omega arith)))
              ∙ take-append-drop 16 raw))
      | inr t ↦ rw t (
          whole _ (
            ap (λ b. b ++ rest)
              (take-append 16 (take 16 raw) (drop 16 made) (omega (arith, length-take 16 raw)))
            ∙ take-append-drop 16 raw))
    ])

is_response-notification : is_response notification ≡ false
unfolding is_response
is_response-notification = refl

method_bound : (raw : List ℕ) → method raw < 2 ^ 16
unfolding method read_u16_be
method_bound raw = omega arith

-- A whole message without a pending call, or which is no response, reaches the handler.
route_inner_lem :
    {K P : Type 0} (app : VsomeipApp K P) (raw : List ℕ) (i : ℕ) (k : K)
    → length raw ≡ 16 + payload_length raw
    → method raw < 2 ^ 16
    → (service raw ≢ sd_service) ⊎ (method raw ≢ sd_method)
    → (is_response (msg_type raw) ≡ false) ⊎ (pending_at app.inner (session raw) ≡ none)
    → let registered = register_message_handler app (service raw) i (method raw) k in
      route_inner registered raw
      ≡ (registered, received k (record { inner = raw; instance_id = 1 }) ∷ [])
unfolding register_message_handler Application.register_message_handler
route_inner_lem {K} {P} app raw i k e small away r =
    let registered = register_message_handler app (service raw) i (method raw) k in
    let routed : route registered.inner raw ≡ dispatch_raw registered.inner raw = elim r [
      | inl t ↦ route_request registered.inner raw t (omega arith)
      | inr t ↦ route_not_pending registered.inner raw t (omega arith)
    ] in
    ap (λ (x : App K P × Routed K P). (record registered { inner = x.0 }, told_all x.1)) routed
    ∙ ap (λ (x : Bool × Calls K). (registered, told_all {K = K} {P = P} (dispatched x.0 x.1)))
        (route_message-register_handler app.inner.router raw [] (calls_to k) (omega arith) away
          small)
    ∙ ap (λ m. (registered, received k m ∷ [])) (wrap-view_of raw e)

-- A message that is built by any sequence of setters and sent reaches the handler registered for its
-- service and method, with all its bytes, and no other. It is none of service discovery, and no
-- response to a call that waits. The handler always sees the instance 1, whichever was set.
pub send-apply_all :
    {K P : Type 0} (app : VsomeipApp K P) (ops : List Setter) (i : ℕ) (k : K)
    → All Fits ops
    → let m = apply_all new_message ops in
      let registered = register_message_handler app (get_service m) i (get_method m) k in
      (get_service m ≢ sd_service) ⊎ (get_method m ≢ sd_method)
      → (is_response (get_message_type m) ≡ false) ⊎ (pending_at app.inner (get_session m) ≡ none)
      → send registered (some m) ≡ (registered, received k (set_instance m 1) ∷ [])
unfolding message_size send set_instance get_service get_method get_message_type get_session
send-apply_all app ops i k fits away r =
    let m = apply_all new_message ops in
    let size = (apply_all_lem ops fits).4 in
    route_inner_lem app m.inner i k size (method_bound m.inner) away r

-- The bytes of an event.
build_event_lem :
    (s event : ℕ) (p : List ℕ)
    → (s < 2 ^ 16) × (event < 2 ^ 16) × (length p + 8 < 2 ^ 32)
    → let raw = build_event s event (some p) in
      (fields raw ≡ record {
        service = s;
        method = event;
        length_field = length p + 8;
        client = 0;
        session = 0;
        protocol_ver = 1;
        interface_ver = 0;
        msg_type = notification;
        ret_code = 0;
      })
      × (drop 16 raw ≡ p)
      × (length raw ≡ 16 + length p)
unfolding build_event get_length
build_event_lem s event [] (hs, he, hp) =
    let (f, l, b) = create_notification-fields s event 0 (hs, he) (omega arith) in
    (f, drop_all 16 (create_notification s event 0) (omega (arith, l)), l)
build_event_lem s event (x ∷ xs) (hs, he, hp) =
    let p = x ∷ xs in
    let n : length p % 2 ^ 32 ≡ length p = omega arith in
    let (f, l, b) = create_notification-fields s event (length p) (hs, he) hp in
    let (g, d, k, _) =
      another_payload (create_notification s event (length p)) p (omega (arith, l)) b in
    let some_bytes : (length p == 0) ≡ false = ground arith in
    rw (n, some_bytes, take_all (length p) p (omega arith)) (g ∙ f, d, k)

-- An event that is notified reaches the handler registered for its service and its identifier, with
-- the type of a notification and the payload given. The instance does not matter.
pub notify-register_message_handler :
    {K P : Type 0} (app : VsomeipApp K P) (s i j event : ℕ) (k : K) (p : List ℕ)
    → (s < 2 ^ 16) × (event < 2 ^ 16) × (length p + 8 < 2 ^ 32)
    → (s ≢ sd_service) ⊎ (event ≢ sd_method)
    → let registered = register_message_handler app s i event k in
      (m : Message) × (notify registered s j event (some p) ≡ (registered, received k m ∷ []))
      × (get_message_type m ≡ notification)
      × (get_payload m ≡ p)
unfolding notify get_message_type get_payload
notify-register_message_handler app s i j event k p (hs, he, hp) away =
    let raw = build_event s event (some p) in
    let (f, d, l) = build_event_lem s event p (hs, he, hp) in
    let service_is = ap (λ (g : Fields). g.service) f in
    let method_is = ap (λ (g : Fields). g.method) f in
    let type_is : msg_type raw ≡ notification = ap (λ (g : Fields). g.msg_type) f in
    let n = payload_length_of raw (length p) (ap (λ (g : Fields). g.length_field) f) in
    let msg : Message = record { inner = raw; instance_id = 1 } in
    let reached =
      route_inner_lem app raw i k (omega (arith, n, l)) (method_bound raw)
        (elim away [
          | inl ne ↦ inl (λ e. ne (sym service_is ∙ e))
          | inr ne ↦ inr (λ e. ne (sym method_is ∙ e))
        ])
        (inl (ap is_response type_is ∙ is_response-notification)) in
    (
      msg,
      subst
          (λ (x : Fields).
            let registered = register_message_handler app x.service i x.method k in
            route_inner registered raw ≡ (registered, received k msg ∷ []))
          f reached,
      type_is,
      rw (payload_lem raw ∙ d) (take_all _ p (omega arith)),
    )
