-- ===== src/Route/Manager/Listener.antt =====
-- A listener for the availability of a service, beside any operations of the manager.
use bsomeip.Common.{
  ℕ, ◌≡◌, Bool, true, false, ◌&&◌, not, Option, none, some, List, [], ◌∷◌, ◌==◌, if◌then◌else◌,
}
use bsomeip.Route.Registry.{ServiceInfo, find}
use bsomeip.Route.Registry.Offers.{WellFormed}
use bsomeip.Route.Dispatcher.{AvailabilityHandler, bucket}
use bsomeip.Route.Manager.{
  Manager, offer_service, stop_offer_service, add_remote_service, remove_remote_service,
}

-- The operations that change the offers.
pub data Operation : Type 0 where
  offering : (service instance_id major minor : ℕ) → Operation
  stopping : (service instance_id : ℕ) → Operation
  adding : ServiceInfo → Operation
  removing : (service instance_id : ℕ) → Operation

pub record Event : Type 0 where
  pub service : ℕ
  pub instance_id : ℕ
  pub available : Bool

-- The listener writes down what it is told, the last first.
abbrev pub listener : AvailabilityHandler (List Event)
listener s i available log = record { service = s; instance_id = i; available = available } ∷ log

abbrev pub Managed : Type 0
Managed = Manager (List Event) × List Event

unfoldable pub run : Operation → Managed → Managed
unfolding offer_service stop_offer_service add_remote_service remove_remote_service
run (offering s i major minor) (m, log) = offer_service m s i major minor log
run (stopping s i) (m, log) = stop_offer_service m s i log
run (adding info) (m, log) = add_remote_service m info log
run (removing s i) (m, log) = remove_remote_service m s i log

unfoldable pub run_all : List Operation → Managed → Managed
unfolding run
run_all [] state = state
run_all (op ∷ ops) state = run_all ops (run op state)

-- What the log says last of an instance, and whether it says so by turns.
unfoldable pub available : List Event → (service instance_id : ℕ) → Bool
available [] s i = false
available (e ∷ log) s i =
    let before = available log s i in
    if e.service == s && e.instance_id == i then e.available else before

-- No event repeats what the log said before it.
abbrev pub ByTurns : List Event → Type 0
ByTurns [] = Unit
ByTurns (e ∷ log) = (e.available ≡ not (available log e.service e.instance_id)) × ByTurns log

abbrev pub is_some : Option ServiceInfo → Bool
is_some none = false
is_some (some info) = true

-- The listener listens to the service and to nothing else.
pub record Listening (service : ℕ) (state : Managed) : Type 0 where
  pub known : (i : ℕ) → available state.1 service i ≡ is_some (find state.0.registry service i)
  pub turns : ByTurns state.1
  pub hears : bucket service state.0.dispatcher.availability_handlers ≡ listener ∷ []
  pub only :
      (t : ℕ) → (t == service) ≡ false → bucket t state.0.dispatcher.availability_handlers ≡ []
  pub well_formed : WellFormed state.0.registry
