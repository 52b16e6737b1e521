-- ===== src/Api/Skeleton.antt =====
-- include/bsomeip/api/skeleton.hpp: the operations of a skeleton. What its handlers do is in Api/Rpc.
pub mod Notify
use bsomeip.Common.{ℕ}
use bsomeip.Wire.Codec.{Members, Values}
use bsomeip.Api.Message.{create_notification}
use bsomeip.Api.Application.{
  App, Calls, register_message_handler, offer_service, stop_offer_service,
}
use bsomeip.Api.Rpc.{
  Handler, Method, PendingCall, System, Ran, served, served_oneway, fill, route_filled, run,
}

pub record Skeleton : Type 0 where
  pub service : ℕ
  pub instance_id : ℕ

module _ {S : Type 0} where
  -- The service is the one that is offered at this time.
  unfoldable pub serve :
      Skeleton → App (Handler S) PendingCall → (method : ℕ) → Method S → App (Handler S) PendingCall
  unfolding register_message_handler
  serve sk app method m = register_message_handler app sk.service method (served m)

  unfoldable pub serve_oneway :
      Skeleton
      → App (Handler S) PendingCall
      → (method : ℕ) → (req : Members) → (S → Values req → S)
      → App (Handler S) PendingCall
  unfolding register_message_handler
  serve_oneway sk app method req f =
      register_message_handler app sk.service method (served_oneway req f)

  unfoldable pub offer :
      Skeleton
      → App (Handler S) PendingCall
      → (service instance_id major minor now : ℕ)
      → Skeleton × App (Handler S) PendingCall × Calls (Handler S)
  unfolding offer_service
  offer sk app s i major minor now =
      let (app, calls) = offer_service app s i major minor now in
      (record { service = s; instance_id = i }, app, calls)

  unfoldable pub stop :
      Skeleton → App (Handler S) PendingCall → App (Handler S) PendingCall × Calls (Handler S)
  unfolding stop_offer_service
  stop sk app = stop_offer_service app sk.service sk.instance_id

  -- The event is routed like any message.
  unfoldable pub notify :
      (size_of : Members → ℕ)
      → Skeleton
      → (fuel : ℕ) → System S
      → (event_id : ℕ) → (ms : Members) → Values ms
      → Ran S
  unfolding fill create_notification run
  notify size_of sk fuel sys event_id ms v =
      route_filled size_of (run size_of fuel) sys
        (fill (create_notification sk.service event_id 256) ms v)
