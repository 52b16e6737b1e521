-- ===== src/Comm/Ways.antt =====
-- Where the messages for an attribute go.
use bsomeip.Common.{ℕ, ◌^◌, ◌<◌, ◌≡◌, ◌≢◌, sym, ◌∙◌, false, List, [], ◌∷◌, inl, inr, All, arith}
use bsomeip.Wire.HeaderView.{service, method}
use bsomeip.Wire.Wildcards.{any_method}
use bsomeip.Route.Manager.Routing.{route_message-other}
use bsomeip.Route.Manager.{Manager, route_message, sd_service}
use bsomeip.Api.Application.{App, register_message_handler, Calls, calls_to}
use bsomeip.Api.Rpc.{
  Attribute, Method, PendingCall, System, Ran, ran, and_then, served, served_setter, one_byte,
  completed, set_value, after_route, route_filled, notify_attribute, set_attribute, call_setter,
  call_method, fill, run_call, run_calls, run,
}
use bsomeip.Api.Rpc
use bsomeip.Api.Rpc.Served.{Serves, serve-Serves, register-Serves}
use bsomeip.Api.Skeleton.{Skeleton, serve}
use bsomeip.Comm.{getter_method, serve_attribute}

-- Messages for this service and method reach no handler.
abbrev pub Unheard : {S : Type 0} → Manager (Calls (Rpc.Handler S)) → (service method : ℕ) → Type 0
Unheard router s mid =
    (raw : List ℕ) → service raw ≡ s → method raw ≡ mid → route_message router raw [] ≡ (false, [])

-- The handlers of an attribute are found, and its event still goes to none.
pub ways :
    {S : Type 0} (sk : Skeleton) (app : App (Rpc.Handler S) PendingCall) (a : Attribute S)
    (getter setter : ℕ)
    → sk.service ≢ sd_service
    → Unheard app.router a.service a.event
    → (getter ≢ setter)
      × (a.event ≢ getter)
      × (a.event ≢ setter)
      × (getter ≢ any_method)
      × (setter ≢ any_method)
    → All (λ x. x < 2 ^ 16) (getter ∷ setter ∷ a.event ∷ [])
    → let router = (serve_attribute sk app a getter setter).router in
      Serves router sk.service setter (served_setter a)
      × Serves router sk.service getter (served (getter_method a))
      × Unheard router a.service a.event
unfolding serve_attribute serve register_message_handler
ways sk app a getter setter away quiet (gs, eg, es, ga, sa) small =
    let m = getter_method a in
    let getting = serve sk app getter m in
    (
      register-Serves sk.service getting setter (served_setter a) (inl away) (omega arith),
      (λ raw whole is_s is_m.
          route_message-other getting.router raw [] sk.service setter (calls_to (served_setter a))
            (omega arith) (omega (arith, is_m)) (inr ((λ e. gs (sym is_m ∙ e)), sa))
          ∙ serve-Serves sk app getter m (inl away) (omega arith) raw whole is_s is_m),
      (λ raw is_s is_m.
          route_message-other getting.router raw [] sk.service setter (calls_to (served_setter a))
            (omega arith) (omega (arith, is_m)) (inr ((λ e. es (sym is_m ∙ e)), sa))
          ∙ route_message-other app.router raw [] sk.service getter (calls_to (served m))
              (omega arith) (omega (arith, is_m)) (inr ((λ e. eg (sym is_m ∙ e)), ga))
          ∙ quiet raw is_s is_m),
    )
