-- ===== src/Tests/Route.antt =====
-- include/bsomeip/route at concrete inputs.
use bsomeip.Common.{
  ℕ, ◌+◌, ◌≡◌, ◌≢◌, ◌↔◌, ◌⊎◌, inl, refl, true, false, none, some, List, [], ◌∷◌, lookup, ℕ_key,
  if◌then◌else◌, arith,
}
use bsomeip.Wire.HeaderView.{service, method, payload_length}
use bsomeip.Wire.Wildcards.{any_method}
use bsomeip.Route.Registry.{ServiceInfo, key_of, same_key, find, offer, stop_offer, size}
use bsomeip.Route.Registry.Offers.{WellFormed, offer_lem, stop_offer_lem, offer-WellFormed}
use bsomeip.Route.Dispatcher.{
  Dispatcher, Handler, MessageView, view_of, register_handler, subscribe, dispatch,
  notify_subscribers,
}
use bsomeip.Route.Dispatcher.Handlers.{dispatch-register_handler, notify_subscribers-subscribe}
use bsomeip.Route.Manager.{Manager, local_info, route_message}
use bsomeip.Route.Manager.Routing.{route_message-register_handler}
use bsomeip.Route.Manager.Listener.{
  offering, stopping, listener, Managed, run_all, available, Listening,
}
use bsomeip.Route.Manager.Availability.{run_all-Listening}

abbrev info : ServiceInfo
info = local_info 0x1234 1 1 0

empty-WellFormed : WellFormed []
empty-WellFormed = record { distinct = tt; filed = tt }

offer_example :
    ((s i : ℕ)
      → find (offer [] info).0 s i
        ≡ (if same_key (key_of s i) (key_of 0x1234 1) then some info else find [] s i))
    × (((offer [] info).1 ≡ true) ↔ (find [] 0x1234 1 ≡ none))
    × (size (offer [] info).0 ≡ size [] + (if (offer [] info).1 then 1 else 0))
offer_example = offer_lem [] info

stop_offer_example :
    ((t j : ℕ)
      → find (stop_offer (offer [] info).0 0x1234 1).0 t j
        ≡ (if same_key (key_of t j) (key_of 0x1234 1) then none else find (offer [] info).0 t j))
    × (((stop_offer (offer [] info).0 0x1234 1).1 ≡ false)
        ↔ (find (offer [] info).0 0x1234 1 ≡ none))
    × (size (stop_offer (offer [] info).0 0x1234 1).0
          + (if (stop_offer (offer [] info).0 0x1234 1).1 then 1 else 0)
        ≡ size (offer [] info).0)
stop_offer_example =
    stop_offer_lem (offer [] info).0 0x1234 1 (offer-WellFormed [] info empty-WellFormed)

-- A request to service 0x1234, method 1, with two bytes of payload and one byte behind it.
abbrev request : List ℕ
request = 0x12 ∷ 0x34 ∷ 0 ∷ 1 ∷ 0 ∷ 0 ∷ 0 ∷ 10 ∷ 0 ∷ 0x10 ∷ 0 ∷ 5 ∷ 1 ∷ 1 ∷ 0 ∷ 0 ∷ 7 ∷ 8 ∷ 9 ∷ []

abbrev handlers : Dispatcher (List MessageView)
handlers = record { handlers = []; subscriptions = []; availability_handlers = [] }

abbrev keep : Handler (List MessageView)
keep view seen = view ∷ seen

dispatch_example :
    (service request ≡ 0x1234
      → method request ≡ 1
      → dispatch (register_handler handlers 0x1234 1 keep) request [] []
        ≡ (true, view_of request [] ∷ []))
    × ((service request ≢ 0x1234) ⊎ ((method request ≢ 1) × (1 ≢ any_method))
        → dispatch (register_handler handlers 0x1234 1 keep) request [] []
          ≡ dispatch handlers request [] [])
unfolding method
dispatch_example =
    dispatch-register_handler handlers request [] [] 0x1234 1 keep (omega arith) (omega arith)

abbrev srv : ℕ
srv = 0x1234

abbrev group : ℕ
group = 3

subscribe_example :
    (notify_subscribers (subscribe handlers 0x1234 2 keep) 0x1234 2 request [] []
      ≡ keep (view_of request []) (notify_subscribers handlers 0x1234 2 request [] []))
    × ((srv ≢ 0x1234) ⊎ (group ≢ 2)
        → notify_subscribers (subscribe handlers 0x1234 2 keep) 0x1234 3 request [] []
          ≡ notify_subscribers handlers 0x1234 3 request [] [])
subscribe_example =
    notify_subscribers-subscribe handlers request [] [] 0x1234 2 0x1234 3 keep (omega arith)
      (omega arith)

abbrev manager : Manager (List MessageView)
manager = record { registry = []; dispatcher = handlers }

route_register_example :
    route_message
      (record manager {
        dispatcher = register_handler handlers (service request) (method request) keep;
      })
      request
      []
    ≡ (true, view_of request (7 ∷ 8 ∷ []) ∷ [])
unfolding payload_length service method
route_register_example =
    route_message-register_handler manager request [] keep (omega arith) (inl (omega arith))
      (omega arith)

abbrev listening : Managed
listening = (
  record {
    registry = [];
    dispatcher = record {
      handlers = [];
      subscriptions = [];
      availability_handlers = (0x1234, listener ∷ []) ∷ [];
    };
  },
  [],
)

listening-Listening : Listening 0x1234 listening
unfolding find available lookup
listening-Listening = record {
  known = λ i. refl;
  turns = tt;
  hears = refl;
  only = λ t h. ground (arith, h);
  well_formed = empty-WellFormed;
}

run_all_example :
    Listening 0x1234
      (run_all (offering 0x1234 1 1 0 ∷ offering 0x1234 1 1 1 ∷ stopping 0x1234 1 ∷ []) listening)
run_all_example =
    run_all-Listening 0x1234
      (offering 0x1234 1 1 0 ∷ offering 0x1234 1 1 1 ∷ stopping 0x1234 1 ∷ []) listening
      listening-Listening

-- Offered twice and stopped: two events.
events_test :
    (run_all (offering 0x1234 1 1 0 ∷ offering 0x1234 1 1 1 ∷ stopping 0x1234 1 ∷ []) listening).1
    ≡ record { service = 0x1234; instance_id = 1; available = false }
      ∷ record { service = 0x1234; instance_id = 1; available = true }
      ∷ []
unfolding run_all
events_test = refl
