-- ===== src/Compat/Application.antt =====
-- include/bsomeip/compat/vsomeip.hpp, `application`: it wraps an application of include/bsomeip/api.
-- Its handlers are names of type `K`, and an operation gives what it tells them.
pub mod Sent
use bsomeip.Common.{
  ℕ, ◌+◌, Bool, Option, none, some, List, [], ◌∷◌, ◌++◌, map, length, take, drop, ◌==◌,
  if◌then◌else◌,
}
use bsomeip.Route.Dispatcher.{MessageView}
use bsomeip.Wire.HeaderView.{header_size}
use bsomeip.Sd.Discovery.{SdConfig}
use bsomeip.Api.Message
use bsomeip.Api.Message.{create_notification, payload}
use bsomeip.Api.Application.{
  App, Call, Calls, message, availability, Routed, answered, dispatched, route,
}
use bsomeip.Api.Application
use bsomeip.Compat.Message.{Message, new_message, resize, get_length}

pub data StateType : Type 0 where
  st_registered st_deregistered : StateType

-- What a handler is told, or the context of a pending response.
pub data Told (K : Type 0) (P : Type 0) : Type 0 where
  received : K → Message → Told K P
  availability_changed : K → (service instance_id : ℕ) → (available : Bool) → Told K P
  state_changed : K → StateType → Told K P
  response : P → (payload : List ℕ) → (rc : ℕ) → Told K P

pub record VsomeipApp (K : Type 0) (P : Type 0) : Type 0 where
  pub name : List ℕ
  pub inner : App K P
  pub state_handler : Option K

-- The letters of `bsomeip`.
abbrev default_name : List ℕ
default_name = 98 ∷ 115 ∷ 111 ∷ 109 ∷ 101 ∷ 105 ∷ 112 ∷ []

-- The message that the wrapper of a handler makes of a view.
unfoldable pub wrap : MessageView → Message
unfolding new_message
wrap view =
    let m = new_message in
    let total = header_size + length view.payload in
    let buf = resize m.inner total in
    let buf = take header_size view.header ++ drop header_size buf in
    if length view.payload == 0
    then record m { inner = buf }
    else record m { inner = take header_size buf ++ view.payload }

-- The bytes of a payload are copied into the message, when there are any.
unfoldable pub build_event : (service event : ℕ) → Option (List ℕ) → List ℕ
unfolding create_notification get_length
build_event s event none = create_notification s event 0
build_event s event (some p) =
    let notif = create_notification s event (get_length p) in
    if get_length p == 0 then notif else take header_size notif ++ take (get_length p) p

module _ {K : Type 0} {P : Type 0} where
  unfoldable pub create : (name : List ℕ) → SdConfig → VsomeipApp K P
  unfolding Application.create
  create name config = record {
    name = if length name == 0 then default_name else name;
    inner = Application.create 0x0001 config;
    state_handler = none;
  }

  abbrev pub tell_state : VsomeipApp K P → StateType → List (Told K P)
  tell_state app s = elim app.state_handler [ none ↦ [] | some k ↦ state_changed k s ∷ [] ]

  unfoldable pub start : VsomeipApp K P → List (Told K P)
  start app = tell_state app st_registered

  unfoldable pub stop : VsomeipApp K P → List (Told K P)
  stop app = tell_state app st_deregistered

  unfoldable pub get_client : VsomeipApp K P → ℕ
  get_client app = app.inner.client

  unfoldable pub register_state_handler : VsomeipApp K P → K → VsomeipApp K P
  register_state_handler app k = record app { state_handler = some k }

  abbrev pub told : Call K → Told K P
  told (message k view) = received k (wrap view)
  told (availability k s i up) = availability_changed k s i up

  unfoldable pub offer_service :
      VsomeipApp K P → (service instance_id major minor now : ℕ) → VsomeipApp K P × List (Told K P)
  unfolding Application.offer_service wrap
  offer_service app s i major minor now =
      let (inner, calls) = Application.offer_service app.inner s i major minor now in
      (record app { inner = inner }, map told calls)

  unfoldable pub stop_offer_service :
      VsomeipApp K P → (service instance_id : ℕ) → VsomeipApp K P × List (Told K P)
  unfolding Application.stop_offer_service wrap
  stop_offer_service app s i =
      let (inner, calls) = Application.stop_offer_service app.inner s i in
      (record app { inner = inner }, map told calls)

  unfoldable pub request_service :
      VsomeipApp K P → (service instance_id major minor now : ℕ) → VsomeipApp K P
  unfolding Application.request_service
  request_service app s i major minor now = record app {
    inner = Application.request_service app.inner s i major minor now;
  }

  unfoldable pub release_service : VsomeipApp K P → (service instance_id : ℕ) → VsomeipApp K P
  unfolding Application.release_service
  release_service app s i = record app { inner = Application.release_service app.inner s i }

  -- The instance is not used.
  unfoldable pub register_message_handler :
      VsomeipApp K P → (service instance_id method : ℕ) → K → VsomeipApp K P
  unfolding Application.register_message_handler
  register_message_handler app s i method k = record app {
    inner = Application.register_message_handler app.inner s method k;
  }

  unfoldable pub unregister_message_handler :
      VsomeipApp K P → (service instance_id method : ℕ) → VsomeipApp K P
  unfolding Application.unregister_message_handler
  unregister_message_handler app s i method = record app {
    inner = Application.unregister_message_handler app.inner s method;
  }

  unfoldable pub register_availability_handler :
      VsomeipApp K P → (service instance_id : ℕ) → K → VsomeipApp K P
  unfolding Application.register_availability_handler
  register_availability_handler app s i k = record app {
    inner = Application.register_availability_handler app.inner s k;
  }

  -- Nothing is done.
  unfoldable pub subscribe : VsomeipApp K P → (service instance_id eventgroup : ℕ) → VsomeipApp K P
  subscribe app s i eg = app

  unfoldable pub unsubscribe :
      VsomeipApp K P → (service instance_id eventgroup : ℕ) → VsomeipApp K P
  unfolding Application.unsubscribe
  unsubscribe app s i eg = record app { inner = Application.unsubscribe app.inner s eg }

  abbrev pub told_all : Routed K P → List (Told K P)
  told_all (answered ctx p rc) = response ctx p rc ∷ []
  told_all (dispatched handled calls) = map told calls

  abbrev pub route_inner : VsomeipApp K P → List ℕ → VsomeipApp K P × List (Told K P)
  route_inner app raw =
      let (inner, r) = route app.inner raw in (record app { inner = inner }, told_all r)

  -- A null pointer is not sent.
  unfoldable pub send : VsomeipApp K P → Option Message → VsomeipApp K P × List (Told K P)
  unfolding route wrap
  send app none = (app, [])
  send app (some msg) = route_inner app msg.inner

  unfoldable pub notify :
      VsomeipApp K P
      → (service instance_id event : ℕ) → Option (List ℕ)
      → VsomeipApp K P × List (Told K P)
  unfolding route wrap build_event
  notify app s i event p = route_inner app (build_event s event p)
