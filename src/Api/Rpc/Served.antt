-- ===== src/Api/Rpc/Served.antt =====
-- One round of a served method: the request at the handler, and the response at the call.
use bsomeip.Common.{
  ℕ, suc, ◌+◌, ◌^◌, ◌≤◌, ◌<◌, ◌≡◌, ◌≢◌, ◌⊎◌, inl, inr, refl, sym, ap, ◌∙◌, Bool, true, false, some,
  none, List, [], ◌∷◌, ◌++◌, length, take, drop, set, arith,
}
use bsomeip.Wire.HeaderView.{payload_length, service, method, session, msg_type, ret_code}
use bsomeip.Wire.MessageType.{is_response}
use bsomeip.Wire.Codec.{Members, Values, done, deserialize}
use bsomeip.Route.Dispatcher.{view_of, register_handler}
use bsomeip.Route.Manager.{Manager, route_message, sd_service, sd_method}
use bsomeip.Route.Manager.Routing.{route_message-register_handler}
use bsomeip.Api.Application.{
  App, Calls, register_message_handler, message, calls_to, dispatched, Routed, route, dispatch_raw,
  pending_at,
}
use bsomeip.Api.Application.Pending.{route_pending, route_not_pending, route_request}
use bsomeip.Api.Rpc.{
  Handler, Method, PendingCall, System, ran, and_then, served, completed, set_value, complete,
  call_method, run_call, run_calls, run, after_route,
}
use bsomeip.Api.Skeleton.{Skeleton, serve}

-- Whole messages for this service and method are given to this handler, and to no other.
abbrev pub Serves :
    {S : Type 0} → Manager (Calls (Handler S)) → (service method : ℕ) → Handler S → Type 0
Serves router s m k =
    (raw : List ℕ)
    → 16 + payload_length raw ≤ length raw
    → service raw ≡ s
    → method raw ≡ m
    → route_message router raw []
      ≡ (true, message k (view_of raw (take (payload_length raw) (drop 16 raw))) ∷ [])

pub register-Serves :
    {S : Type 0} (s : ℕ) (app : App (Handler S) PendingCall) (mid : ℕ) (k : Handler S)
    → (s ≢ sd_service) ⊎ (mid ≢ sd_method)
    → mid < 2 ^ 16
    → Serves (register_message_handler app s mid k).router s mid k
unfolding register_message_handler
register-Serves s app mid k away small raw whole es em =
    let router = app.router in
    let there : (service raw ≢ sd_service) ⊎ (method raw ≢ sd_method) = elim away [
      | inl h ↦ inl (λ e. h (sym es ∙ e))
      | inr h ↦ inr (λ e. h (sym em ∙ e))
    ] in
    (λ i.
      route_message
        (record router {
          dispatcher = register_handler router.dispatcher (sym es i) (sym em i) (calls_to k);
        })
        raw [])
    ∙ route_message-register_handler router raw [] (calls_to k) whole there (omega arith)

pub serve-Serves :
    {S : Type 0} (sk : Skeleton) (app : App (Handler S) PendingCall) (mid : ℕ) (m : Method S)
    → (sk.service ≢ sd_service) ⊎ (mid ≢ sd_method)
    → mid < 2 ^ 16
    → Serves (serve sk app mid m).router sk.service mid (served m)
unfolding serve
serve-Serves sk app mid m = register-Serves sk.service app mid (served m)

module _ (size_of : Members → ℕ) {S : Type 0} where
  -- The handler runs, unless the message is a response that is waited for.
  pub run-handler :
      (fuel : ℕ) (sys : System S) (raw : List ℕ) (s mid : ℕ) (k : Handler S)
      → Serves sys.app.router s mid k
      → 16 + payload_length raw ≤ length raw
      → service raw ≡ s
      → method raw ≡ mid
      → (is_response (msg_type raw) ≡ false) ⊎ (pending_at sys.app (session raw) ≡ none)
      → let payload = take (payload_length raw) (drop 16 raw) in
        run size_of (suc fuel) sys raw
        ≡ and_then (run_call size_of (run size_of fuel) (message k (view_of raw payload)) sys) ran
  unfolding run_calls run
  run-handler fuel sys raw s mid k serves whole es em free =
      let dispatched_to : dispatch_raw sys.app raw ≡ (
        sys.app,
        dispatched true (message k (view_of raw (take (payload_length raw) (drop 16 raw))) ∷ []),
      ) =
        (λ i.
          (sys.app, dispatched ((serves raw whole es em i).0) ((serves raw whole es em i).1))) in
      let routed : route sys.app raw ≡ dispatch_raw sys.app raw = elim free [
        | inl t ↦ route_request sys.app raw t (omega arith)
        | inr e ↦ route_not_pending sys.app raw e (omega arith)
      ] in
      ap
        (λ (r : App (Handler S) PendingCall × Routed (Handler S) PendingCall).
          after_route size_of (run size_of fuel) (record sys { app = r.0 }) r.1)
        (routed ∙ dispatched_to)

  -- A message that is no response and goes to no handler changes nothing.
  pub run_no_handler :
      (fuel : ℕ) (sys : System S) (raw : List ℕ)
      → is_response (msg_type raw) ≡ false
      → 16 ≤ length raw
      → route_message sys.app.router raw [] ≡ (false, [])
      → run size_of (suc fuel) sys raw ≡ ran sys
  unfolding run run_calls
  run_no_handler fuel sys raw t h nobody =
      ap
        (λ (r : App (Handler S) PendingCall × Routed (Handler S) PendingCall).
          after_route size_of (run size_of fuel) (record sys { app = r.0 }) r.1)
        (route_request sys.app raw t h
          ∙ ap (λ (r : Bool × Calls (Handler S)). (sys.app, dispatched r.0 r.1)) nobody)

  -- For the handler of a served method.
  pub run-Serves :
      (fuel : ℕ) (sys : System S) (raw : List ℕ) (s mid : ℕ) (m : Method S)
      → Serves sys.app.router s mid (served m)
      → 16 + payload_length raw ≤ length raw
      → service raw ≡ s
      → method raw ≡ mid
      → (is_response (msg_type raw) ≡ false) ⊎ (pending_at sys.app (session raw) ≡ none)
      → let payload = take (payload_length raw) (drop 16 raw) in
        run size_of (suc fuel) sys raw
        ≡ and_then
            (call_method size_of
              (run size_of fuel)
              m
              (view_of raw payload)
              sys
              (deserialize m.req payload))
            ran
  unfolding run_call
  run-Serves fuel sys raw s mid m = run-handler fuel sys raw s mid (served m)

  -- The response that a call waits for completes it with the value.
  pub run-response :
      (fuel : ℕ) (sys : System S) (raw : List ℕ) (ctx : PendingCall) (v : Values ctx.resp)
      → 16 ≤ length raw
      → is_response (msg_type raw) ≡ true
      → ret_code raw ≡ 0
      → pending_at sys.app (session raw) ≡ some ctx
      → deserialize ctx.resp (take (payload_length raw) (drop 16 raw)) ≡ done v
      → run size_of (suc fuel) sys raw
        ≡ ran (record sys {
          app = record sys.app { pending = set sys.app.pending (session raw) none };
          events = sys.events ++ completed ctx.receiver (set_value ctx.resp v) ∷ [];
        })
  unfolding complete run
  run-response fuel sys raw ctx v h t rc e d =
      ap
        (λ (r : App (Handler S) PendingCall × Routed (Handler S) PendingCall).
          after_route size_of (run size_of fuel) (record sys { app = r.0 }) r.1)
        (route_pending sys.app raw ctx h t e)
      ∙ rw (rc, d) refl
