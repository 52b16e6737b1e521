-- ===== src/Route/Manager.antt =====
-- include/bsomeip/route/manager.hpp: the routing manager. `W` is the state that the handlers change.
pub mod Routing
pub mod Delivery
pub mod Listener
pub mod Availability
use bsomeip.Common.{
  ℕ, Bool, true, false, ◌&&◌, Option, none, some, List, [], length, take, drop, ltb, ◌==◌,
  if◌then◌else◌,
}
use bsomeip.Wire.HeaderView.{header_size, payload_length, service, method}
use bsomeip.Route.Registry.{ServiceInfo, Registry, find, offer, stop_offer}
use bsomeip.Route.Dispatcher.{Dispatcher, dispatch, notify_availability}

pub data RouteTarget : Type 0 where
  local remote unknown : RouteTarget

pub record Manager (W : Type 0) : Type 0 where
  pub registry : Registry
  pub dispatcher : Dispatcher W

-- The address of service discovery.
abbrev pub sd_service : ℕ
sd_service = 0xFFFF

abbrev pub sd_method : ℕ
sd_method = 0x8100

abbrev pub local_info : (service instance_id major minor : ℕ) → ServiceInfo
local_info s i major minor = record {
  service = s;
  instance_id = i;
  major_version = major;
  minor_version = minor;
  ttl = 0xFFFFFF;
  tcp_endpoint = none;
  udp_endpoint = none;
  is_local = true;
}

abbrev target_of : Option ServiceInfo → RouteTarget
target_of none = unknown
target_of (some info) = if info.is_local then local else remote

module _ {W : Type 0} where
  unfoldable pub resolve : Manager W → (service instance_id : ℕ) → RouteTarget
  unfolding find
  resolve m s i = target_of (find m.registry s i)

  -- Whether it was handled, and the state after the handlers. Notifications and other messages
  -- take the same way.
  unfoldable pub route_message : Manager W → List ℕ → W → Bool × W
  unfolding dispatch payload_length service method
  route_message m raw w =
      let payload = drop header_size raw in
      if ltb (length raw) header_size
      then (false, w)
      else if ltb (length payload) (payload_length raw)
      then (false, w)
      else if service raw == sd_service && method raw == sd_method
      then (false, w)
      else dispatch m.dispatcher raw (take (payload_length raw) payload) w

  -- A service comes: the listeners learn of it when it is new.
  unfoldable pub add_remote_service : Manager W → ServiceInfo → W → Manager W × W
  unfolding offer notify_availability
  add_remote_service m info w =
      let (registry, is_new) = offer m.registry info in
      (
        record m { registry = registry },
        (if is_new
            then notify_availability m.dispatcher info.service info.instance_id true w
            else w),
      )

  unfoldable pub offer_service :
      Manager W → (service instance_id major minor : ℕ) → W → Manager W × W
  unfolding offer notify_availability
  offer_service m s i major minor w =
      let (registry, is_new) = offer m.registry (local_info s i major minor) in
      (
        record m { registry = registry },
        (if is_new then notify_availability m.dispatcher s i true w else w),
      )

  -- A service goes: the listeners learn of it when it was there.
  unfoldable pub stop_offer_service : Manager W → (service instance_id : ℕ) → W → Manager W × W
  unfolding stop_offer notify_availability
  stop_offer_service m s i w =
      let (registry, existed) = stop_offer m.registry s i in
      (
        record m { registry = registry },
        (if existed then notify_availability m.dispatcher s i false w else w),
      )

  unfoldable pub remove_remote_service : Manager W → (service instance_id : ℕ) → W → Manager W × W
  unfolding stop_offer notify_availability
  remove_remote_service m s i w =
      let (registry, existed) = stop_offer m.registry s i in
      (
        record m { registry = registry },
        (if existed then notify_availability m.dispatcher s i false w else w),
      )
