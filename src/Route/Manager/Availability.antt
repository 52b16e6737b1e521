-- ===== src/Route/Manager/Availability.antt =====
-- What a listener for the availability of a service knows after any operations of the manager.
use bsomeip.Common.{
  ==_iff, subst, ℕ, ◌≡◌, ◌↔◌, refl, ap, Bool, true, false, ◌&&◌, not, Option, none, some, List, [],
  ◌∷◌, ◌==◌, if◌then◌else◌, Bool-cases, inl, inr, arith,
}
use bsomeip.Route.Registry.{ServiceInfo, Registry, key_of, same_key, find, offer, stop_offer}
use bsomeip.Route.Registry.Offers.{
  WellFormed, offer_lem, stop_offer_lem, offer-WellFormed, stop_offer-WellFormed,
}
use bsomeip.Route.Dispatcher.{notify_availability, bucket, announce}
use bsomeip.Route.Manager.{
  Manager, local_info, offer_service, stop_offer_service, add_remote_service, remove_remote_service,
}
use bsomeip.Route.Manager.Listener.{
  Operation, offering, stopping, adding, removing, Event, listener, Managed, run, run_all,
  available, is_some, Listening,
}

abbrev event : (service instance_id : ℕ) → Bool → Event
event s i available = record { service = s; instance_id = i; available = available }

-- What an offer answers, apart from the information itself.
arrival :
    (reg : Registry) (info : ServiceInfo) (s i : ℕ)
    → is_some (find (offer reg info).0 s i)
      ≡ (if s == info.service && i == info.instance_id then true else is_some (find reg s i))
arrival reg info s i =
    let found = (offer_lem reg info).0 s i in
    elim (Bool-cases (same_key (key_of s i) (key_of info.service info.instance_id))) [
      | inl t ↦ rw (found, t)
      | inr t ↦ rw (found, t)
    ]

departure :
    (reg : Registry) (s i t j : ℕ)
    → WellFormed reg
    → is_some (find (stop_offer reg s i).0 t j)
      ≡ (if t == s && j == i then false else is_some (find reg t j))
departure reg s i t j wf =
    let found = (stop_offer_lem reg s i wf).0 t j in
    elim (Bool-cases (same_key (key_of t j) (key_of s i))) [
      | inl u ↦ rw (found, u)
      | inr u ↦ rw (found, u)
    ]

-- A change that the log writes down.
told :
    (service s i : ℕ) (now : Bool) (log : List Event) (before after : ℕ → Bool)
    → (s == service) ≡ true
    → ((j : ℕ) → available log service j ≡ before j)
    → ((j : ℕ) → after j ≡ (if service == s && j == i then now else before j))
    → before i ≡ not now
    → ((j : ℕ) → available (event s i now ∷ log) service j ≡ after j)
      × (now ≡ not (available log s i))
unfolding available
told service s i now log before after h known step e =
    let at : s ≡ service = (==_iff s service).0 h in
    ((λ j. ground (arith, known j, step j)), rw at (ground (arith, known i)))

-- A change that it need not write down, of another service or none.
untold :
    (service s i : ℕ) (now : Bool) (log : List Event) (before after : ℕ → Bool)
    → ((j : ℕ) → available log service j ≡ before j)
    → ((j : ℕ) → after j ≡ (if service == s && j == i then now else before j))
    → ((s == service) ≡ true → before i ≡ now)
    → (j : ℕ) → available log service j ≡ after j
untold service s i now log before after known step e j =
    elim (Bool-cases (s == service && j == i)) [
      | inl t ↦
          let at : before j ≡ before i = ap before (ground arith) in ground (arith, known j, step j)
      | inr t ↦ ground (arith, known j, step j)
    ]

-- What the listeners do with a notification.
heard :
    (service s i : ℕ) (now : Bool) (state : Managed)
    → Listening service state
    → notify_availability state.0.dispatcher s i now state.1
      ≡ (if s == service then event s i now ∷ state.1 else state.1)
unfolding notify_availability
heard service s i now state l = elim (Bool-cases (s == service)) [
  | inl t ↦
      let at : s ≡ service = (==_iff s service).0 t in
      let ears : bucket s state.0.dispatcher.availability_handlers ≡ listener ∷ [] =
        rw at (l.hears) in
      rw t (ap (λ hs. announce hs s i now state.1) ears)
  | inr t ↦ rw t (ap (λ hs. announce hs s i now state.1) (l.only s t))
]

abbrev Change : (s i : ℕ) (now : Bool) (old new : Registry) → Type 0
Change s i now old new =
    WellFormed new
    × ((t j : ℕ)
        → is_some (find new t j) ≡ (if t == s && j == i then now else is_some (find old t j)))

-- A change of the registry that is told.
changed :
    (service s i : ℕ) (now : Bool) (state : Managed) (reg : Registry)
    → Listening service state
    → Change s i now state.0.registry reg
    → is_some (find state.0.registry s i) ≡ not now
    → Listening service
        (record state.0 { registry = reg }, notify_availability state.0.dispatcher s i now state.1)
changed service s i now state reg l (wf, step) e = elim (Bool-cases (s == service)) [
  | inl t ↦
      let at : s ≡ service = (==_iff s service).0 t in
      let there : is_some (find state.0.registry service i) ≡ not now =
        subst (λ x. is_some (find state.0.registry x i) ≡ not now) at e in
      let (known, turn) =
        told service s i now state.1 (λ j. is_some (find state.0.registry service j))
          (λ j. is_some (find reg service j)) t l.known (step service) there in
      rw (heard service s i now state l, t)
        (record {
          known = known;
          turns = (turn, l.turns);
          hears = l.hears;
          only = l.only;
          well_formed = wf;
        })
  | inr t ↦
      let known =
        untold service s i now state.1 (λ j. is_some (find state.0.registry service j))
          (λ j. is_some (find reg service j)) l.known (step service) (λ u. ground (arith, t, u)) in
      rw (heard service s i now state l, t)
        (record {
          known = known;
          turns = l.turns;
          hears = l.hears;
          only = l.only;
          well_formed = wf;
        })
]

-- A change of the registry that is none for the listeners.
unchanged :
    (service s i : ℕ) (now : Bool) (state : Managed) (reg : Registry)
    → Listening service state
    → Change s i now state.0.registry reg
    → is_some (find state.0.registry s i) ≡ now
    → Listening service (record state.0 { registry = reg }, state.1)
unchanged service s i now state reg l (wf, step) e = record {
  known =
      untold service s i now state.1 (λ j. is_some (find state.0.registry service j))
        (λ j. is_some (find reg service j)) l.known (step service)
        (λ t. subst (λ x. is_some (find state.0.registry x i) ≡ now) ((==_iff s service).0 t) e);
  turns = l.turns;
  hears = l.hears;
  only = l.only;
  well_formed = wf;
}

is_some_iff : (o : Option ServiceInfo) → (is_some o ≡ false) ↔ (o ≡ none)
is_some_iff none = ((λ _. refl), (λ _. refl))
is_some_iff (some info) = (ground arith, ground arith)

arrives :
    (service : ℕ) (state : Managed) (info : ServiceInfo)
    → Listening service state
    → Listening service (add_remote_service state.0 info state.1)
unfolding add_remote_service
arrives service state info l =
    let reg = state.0.registry in
    let change : Change info.service info.instance_id true reg (offer reg info).0 =
      (offer-WellFormed reg info l.well_formed, arrival reg info) in
    let new = (offer_lem reg info).1 in
    let here = is_some_iff (find reg info.service info.instance_id) in
    elim (Bool-cases (offer reg info).1) [
      | inl t ↦
          rw t
            (changed service info.service info.instance_id true state _ l change (here.1 (new.0 t)))
      | inr t ↦ rw t (
          unchanged service info.service info.instance_id true state _ l change (ground (arith, t)))
    ]

leaves :
    (service s i : ℕ) (state : Managed)
    → Listening service state
    → Listening service (stop_offer_service state.0 s i state.1)
unfolding stop_offer_service
leaves service s i state l =
    let reg = state.0.registry in
    let change : Change s i false reg (stop_offer reg s i).0 =
      (stop_offer-WellFormed reg s i l.well_formed, (λ t j. departure reg s i t j l.well_formed)) in
    let absent = (stop_offer_lem reg s i l.well_formed).1 in
    let here = is_some_iff (find reg s i) in
    elim (Bool-cases (stop_offer reg s i).1) [
      | inl t ↦ rw t (changed service s i false state _ l change (ground (arith, t)))
      | inr t ↦ rw t (unchanged service s i false state _ l change (here.1 (absent.0 t)))
    ]

-- `offer_service` adds its own information.
offer_service_lem :
    (m : Manager (List Event)) (s i major minor : ℕ) (log : List Event)
    → offer_service m s i major minor log ≡ add_remote_service m (local_info s i major minor) log
unfolding offer_service add_remote_service
offer_service_lem m s i major minor log = refl

remove_remote_service_lem :
    (m : Manager (List Event)) (s i : ℕ) (log : List Event)
    → remove_remote_service m s i log ≡ stop_offer_service m s i log
unfolding remove_remote_service stop_offer_service
remove_remote_service_lem m s i log = refl

run-Listening :
    (service : ℕ) (op : Operation) (state : Managed)
    → Listening service state
    → Listening service (run op state)
unfolding run
run-Listening service (offering s i major minor) state l =
    rw (offer_service_lem state.0 s i major minor state.1)
      (arrives service state (local_info s i major minor) l)
run-Listening service (stopping s i) state l = leaves service s i state l
run-Listening service (adding info) state l = arrives service state info l
run-Listening service (removing s i) state l =
    rw (remove_remote_service_lem state.0 s i state.1) (leaves service s i state l)

-- Any operations keep a listener informed: what it was told last of an instance of its service is
-- whether the registry has the instance, and it is never told twice in a row.
pub run_all-Listening :
    (service : ℕ) (ops : List Operation) (state : Managed)
    → Listening service state
    → Listening service (run_all ops state)
unfolding run_all
run_all-Listening service [] state l = l
run_all-Listening service (op ∷ ops) state l =
    run_all-Listening service ops (run op state) (run-Listening service op state l)
