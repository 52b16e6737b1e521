-- ===== src/Api/Skeleton/Notify.antt =====
-- What becomes of an event.
use bsomeip.Common.{ℕ, suc, ◌^◌, ◌≤◌, ◌<◌, ◌≡◌, refl, ap, ◌∙◌, false, [], arith}
use bsomeip.Wire.HeaderView.{msg_type}
use bsomeip.Wire.Header.{Fields}
use bsomeip.Wire.MessageType.{is_response, notification}
use bsomeip.Wire.Codec.{Members, Values}
use bsomeip.Wire.Codec.Layout.{MembersFit, members_size}
use bsomeip.Api.Message.{create_notification}
use bsomeip.Api.Message.Create.{create_notification-fields}
use bsomeip.Api.Application.{subscribe}
use bsomeip.Api.Rpc.{PendingCall, System, Ran, ran, after_route, route_filled, run_calls, run}
use bsomeip.Api.Rpc
use bsomeip.Api.Rpc.Handled.{fill_lem}
use bsomeip.Api.Rpc.Served.{run_no_handler}
use bsomeip.Route.Manager.Routing.{no_calls}
use bsomeip.Api.Skeleton.{Skeleton, notify}

pub is_response-notification : is_response notification ≡ false
unfolding is_response
is_response-notification = refl

-- An event that a skeleton sends in an application that has subscribers to the eventgroup, here one
-- more than before, and no message handlers reaches none of them: nothing runs, and the system stays
-- as it was. Events go the way of messages, which the subscriptions have no part in. The event fits
-- its types and the 256 bytes that the code allows it.
pub notify-subscribe :
    {S : Type 0} (size_of : Members → ℕ) (sk : Skeleton) (fuel : ℕ) (sys : System S)
    (event_id eg : ℕ) (k : Rpc.Handler S) (ms : Members) (v : Values ms)
    → sys.app.router.dispatcher.handlers ≡ []
    → (sk.service < 2 ^ 16) × (event_id < 2 ^ 16)
    → MembersFit ms v
    → members_size ms ≤ 256
    → let subscribed : System S = record sys { app = subscribe sys.app sk.service eg k } in
      notify size_of sk (suc fuel) subscribed event_id ms v ≡ ran subscribed
unfolding notify subscribe
notify-subscribe {S} size_of sk fuel sys event_id eg k ms v none_there ids fits few =
    let app = subscribe sys.app sk.service eg k in
    let (f, size, bytes) = create_notification-fields sk.service event_id 256 ids (omega arith) in
    let (msg, filled, carries) =
      fill_lem (create_notification sk.service event_id 256) ms v fits (omega arith) bytes
        (omega arith) in
    let fs = carries.0 in
    let len = carries.2 in
    let plain : msg_type msg ≡ notification =
      ap (λ (g : Fields). g.msg_type) fs ∙ ap (λ (g : Fields). g.msg_type) f in
    ap (route_filled size_of (run size_of (suc fuel)) (record sys { app = app })) filled
    ∙ run_no_handler size_of fuel (record sys { app = app }) msg
        (ap is_response plain ∙ is_response-notification) (omega arith)
        (no_calls app.router msg [] none_there)
