-- ===== src/Api/Application.antt =====
-- include/bsomeip/api/application.hpp: the application. A handler is a name of type `K`, and what a
-- call of the code runs is the list of the handlers that it calls, with their arguments, since each
-- operation ends with them. A pending response is a context of type `P`.
pub mod Pending
pub mod Sessions
use bsomeip.Common.{
  ℕ, ◌+◌, ◌-◌, ◌%◌, ◌^◌, Bool, true, false, Option, none, some, List, [], ◌∷◌, ◌++◌, length, take,
  drop, get_or, set, replicate, ltb, leb, ◌==◌, if◌then◌else◌,
}
use bsomeip.Wire.HeaderView.{header_size, payload_length, session, msg_type, ret_code}
use bsomeip.Wire.MessageType.{is_response}
use bsomeip.Route.Dispatcher.{
  MessageView, Dispatcher, register_handler, unregister_handler, on_availability,
}
use bsomeip.Route.Dispatcher
use bsomeip.Route.Manager.{Manager, route_message}
use bsomeip.Route.Manager
use bsomeip.Sd.Discovery.{SdConfig, Discovery, start_offer, stop_offer, start_find, stop_find}

pub data Call (K : Type 0) : Type 0 where
  message : K → MessageView → Call K
  availability : K → (service instance_id : ℕ) → (available : Bool) → Call K

abbrev pub Calls : Type 0 → Type 0
Calls K = List (Call K)

pub record App (K : Type 0) (P : Type 0) : Type 0 where
  pub client : ℕ
  pub router : Manager (Calls K)
  pub discovery : Discovery (Unit {0})
  pub session_counter : ℕ
  pub pending : List (Option P)

-- What `route` does: a pending response is answered with the payload and the return code, or the
-- message went to the routing manager, which handled it or not.
pub data Routed (K : Type 0) (P : Type 0) : Type 0 where
  answered : P → (payload : List ℕ) → (rc : ℕ) → Routed K P
  dispatched : (handled : Bool) → Calls K → Routed K P

-- The handler of this name, which notes that it was called.
abbrev pub calls_to : {K : Type 0} → K → MessageView → Calls K → Calls K
calls_to k view calls = calls ++ message k view ∷ []

-- `resize(idx + 1)`, when the table is shorter.
abbrev pub grown : {P : Type 0} → List (Option P) → (idx : ℕ) → List (Option P)
grown pending idx =
    if leb (length pending) idx
    then pending ++ replicate (idx + 1 - length pending) none
    else pending

module _ {K : Type 0} {P : Type 0} where
  unfoldable pub create : (client : ℕ) → SdConfig → App K P
  create client config = record {
    client = client;
    router = record {
      registry = [];
      dispatcher = record { handlers = []; subscriptions = []; availability_handlers = [] };
    };
    discovery = record {
      config = config;
      reboot_flag = true;
      offers = [];
      pending_stop_offers = [];
      finds = [];
    };
    session_counter = 1;
    pending = replicate 256 none;
  }

  unfoldable pub offer_service :
      App K P → (service instance_id major minor now : ℕ) → App K P × Calls K
  unfolding Manager.offer_service start_offer
  offer_service app s i major minor now =
      let (router, calls) = Manager.offer_service app.router s i major minor [] in
      (
        record app {
          router = router;
          discovery = start_offer app.discovery s i major minor [] now;
        },
        calls,
      )

  unfoldable pub stop_offer_service : App K P → (service instance_id : ℕ) → App K P × Calls K
  unfolding Manager.stop_offer_service stop_offer
  stop_offer_service app s i =
      let (router, calls) = Manager.stop_offer_service app.router s i [] in
      (record app { router = router; discovery = stop_offer app.discovery s i }, calls)

  unfoldable pub request_service : App K P → (service instance_id major minor now : ℕ) → App K P
  unfolding start_find
  request_service app s i major minor now = record app {
    discovery = start_find app.discovery s i major minor now;
  }

  unfoldable pub release_service : App K P → (service instance_id : ℕ) → App K P
  unfolding stop_find
  release_service app s i = record app { discovery = stop_find app.discovery s i }

  abbrev pub with_dispatcher : App K P → Dispatcher (Calls K) → App K P
  with_dispatcher app d = record app { router = record app.router { dispatcher = d } }

  unfoldable pub register_message_handler : App K P → (service method : ℕ) → K → App K P
  unfolding register_handler
  register_message_handler app s m k =
      with_dispatcher app (register_handler app.router.dispatcher s m (calls_to k))

  unfoldable pub unregister_message_handler : App K P → (service method : ℕ) → App K P
  unfolding unregister_handler
  unregister_message_handler app s m =
      with_dispatcher app (unregister_handler app.router.dispatcher s m)

  unfoldable pub register_availability_handler : App K P → (service : ℕ) → K → App K P
  unfolding on_availability
  register_availability_handler app s k = with_dispatcher app (
      on_availability app.router.dispatcher s
        (λ (service instance_id : ℕ) (available : Bool) (calls : Calls K).
          calls ++ availability k service instance_id available ∷ []))

  unfoldable pub subscribe : App K P → (service eventgroup : ℕ) → K → App K P
  unfolding Dispatcher.subscribe
  subscribe app s eg k =
      with_dispatcher app (Dispatcher.subscribe app.router.dispatcher s eg (calls_to k))

  unfoldable pub unsubscribe : App K P → (service eventgroup : ℕ) → App K P
  unfolding Dispatcher.unsubscribe
  unsubscribe app s eg = with_dispatcher app (Dispatcher.unsubscribe app.router.dispatcher s eg)

  unfoldable pub register_pending : App K P → (session : ℕ) → P → App K P
  register_pending app idx ctx = record app { pending = set (grown app.pending idx) idx (some ctx) }

  abbrev pub pending_at : App K P → (idx : ℕ) → Option P
  pending_at app idx = get_or app.pending idx none

  -- Through the routing manager.
  abbrev pub dispatch_raw : App K P → List ℕ → App K P × Routed K P
  dispatch_raw app raw =
      let (handled, calls) = route_message app.router raw [] in (app, dispatched handled calls)

  -- An entry of the table is used once.
  abbrev pub answer_or : App K P → (raw : List ℕ) → Option P → App K P × Routed K P
  answer_or app raw (some ctx) = (
    record app { pending = set app.pending (session raw) none },
    answered ctx (take (payload_length raw) (drop header_size raw)) (ret_code raw),
  )
  answer_or app raw none = dispatch_raw app raw

  unfoldable pub route : App K P → List ℕ → App K P × Routed K P
  unfolding session payload_length ret_code msg_type
  route app raw =
      if ltb (length raw) header_size
      then (app, dispatched false [])
      else if is_response (msg_type raw)
      then answer_or app raw (pending_at app (session raw))
      else dispatch_raw app raw

  -- The counter has sixteen bits; 0 is skipped.
  unfoldable pub next_session : App K P → App K P × ℕ
  next_session app =
      let s = app.session_counter in
      let after = (s + 1) % 2 ^ 16 in
      if s == 0
      then (record app { session_counter = (after + 1) % 2 ^ 16 }, after)
      else (record app { session_counter = after }, s)
