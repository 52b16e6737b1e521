-- ===== src/Comm/Sets.antt =====
-- An attribute that is set and read by a proxy.
use bsomeip.Common.{
  ℕ, suc, ◌+◌, ◌^◌, ◌≤◌, ◌<◌, ◌≡◌, ◌≢◌, refl, sym, ap, ◌∙◌, subst, [], ◌∷◌, ◌++◌, Bool-cases, inl,
  inr, All, arith,
}
use bsomeip.Wire.HeaderView.{msg_type}
use bsomeip.Wire.Header.{Fields}
use bsomeip.Wire.MessageType.{is_response, notification}
use bsomeip.Wire.Wildcards.{any_method}
use bsomeip.Wire.Codec.{Members, Values}
use bsomeip.Wire.Codec.Layout.{MembersFit, members_size}
use bsomeip.Wire.Codec.Checked.{NonEmpty}
use bsomeip.Route.Manager.{sd_service}
use bsomeip.Api.Message.{create_notification, create_response}
use bsomeip.Api.Message.Create.{create_notification-fields}
use bsomeip.Api.Application.{App, register_message_handler}
use bsomeip.Api.Rpc.{
  Attribute, Method, PendingCall, System, Ran, ran, and_then, served, served_setter, one_byte,
  completed, set_value, after_route, route_filled, notify_attribute, set_attribute, call_setter,
  call_method, fill, run_call, run_calls, run,
}
use bsomeip.Api.Rpc
use bsomeip.Api.Rpc.Handled.{fill_lem}
use bsomeip.Api.Rpc.Served.{Serves, run_no_handler}
use bsomeip.Api.Skeleton.{Skeleton, serve}
use bsomeip.Api.Skeleton.Notify.{is_response-notification}
use bsomeip.Api.Proxy.{target}
use bsomeip.Api.Proxy.Round.{ActsAs}
use bsomeip.Api.Proxy.Call.{started}
use bsomeip.Comm.Ways.{Unheard, ways}
use bsomeip.Comm.{getter_method, serve_attribute, async_get, async_set}

-- The method that a setter acts as.
abbrev setter_method : {S : Type 0} → Attribute S → Method S
setter_method {S} a = record {
  req = a.value_type;
  resp = one_byte;
  handler = λ (s : S) (v : Values a.value_type). (a.store s v, (0, tt));
}

module _ (size_of : Members → ℕ) (big : (ms : Members) → members_size ms ≤ size_of ms) {S : Type 0}
    (a : Attribute S) where
  -- An event that nobody hears changes nothing.
  notify_attribute_quiet :
      (fuel : ℕ) (sys : System S)
      → Unheard sys.app.router a.service a.event
      → (a.service < 2 ^ 16) × (a.event < 2 ^ 16)
      → MembersFit a.value_type (a.value sys.impl)
      → members_size a.value_type ≤ 256
      → notify_attribute size_of (run size_of (suc fuel)) a sys ≡ ran sys
  unfolding notify_attribute
  notify_attribute_quiet fuel sys unheard ids fits few =
      let (f, size, bytes) = create_notification-fields a.service a.event 256 ids (omega arith) in
      let (msg, filled, carries) =
        fill_lem (create_notification a.service a.event 256) a.value_type (a.value sys.impl) fits
          (omega arith) bytes (omega arith) in
      let plain : msg_type msg ≡ notification =
        ap (λ (g : Fields). g.msg_type) carries.0 ∙ ap (λ (g : Fields). g.msg_type) f in
      let nobody =
        unheard msg (ap (λ (g : Fields). g.service) carries.0 ∙ ap (λ (g : Fields). g.service) f)
          (ap (λ (g : Fields). g.method) carries.0 ∙ ap (λ (g : Fields). g.method) f) in
      ap (route_filled size_of (run size_of (suc fuel)) sys) filled
      ∙ run_no_handler size_of fuel sys msg (ap is_response plain ∙ is_response-notification)
          (omega (arith, carries.2)) nobody

  setter-ActsAs :
      (fuel : ℕ) (sys : System S) (v : Values a.value_type)
      → Unheard sys.app.router a.service a.event
      → (a.service < 2 ^ 16) × (a.event < 2 ^ 16)
      → a.value (a.store sys.impl v) ≡ v
      → MembersFit a.value_type v
      → members_size a.value_type ≤ 256
      → ActsAs size_of big (served_setter a) (setter_method a) (suc fuel) sys v
  unfolding run_call set_attribute
  setter-ActsAs fuel sys v unheard ids law fits few view d =
      let step = run size_of {S = S} (suc fuel) in
      let stored : System S = record sys { impl = a.store sys.impl v } in
      let respond = λ (s : System S).
        route_filled size_of step s
          (fill (create_response view.header (size_of one_byte)) one_byte (0, tt)) in
      let quiet =
        notify_attribute_quiet fuel stored unheard ids
          (subst (MembersFit a.value_type) (sym law) fits) few in
      let set_stores : set_attribute size_of step a sys v ≡ ran stored =
        elim (Bool-cases (a.same_bytes (a.value sys.impl) v)) [
          | inl t ↦ rw t refl
          | inr t ↦ rw t quiet
        ] in
      ap (call_setter size_of step a view sys) d
      ∙ ap (λ r. and_then r respond) set_stores
      ∙ sym (ap (call_method size_of step (setter_method a) view sys) d)

-- A proxy that sets an attribute in its own application and then gets it is answered twice: the set
-- is acknowledged and the value is stored, and the get completes with that value; nothing else happens.
-- The attribute keeps what is stored in it, its event goes to no message handler, its identifiers are
-- different, of 16 bits and no wildcards, and the value has a byte at least and fits its type and 256
-- bytes; `sizeof` is no less than the size on the wire.
pub async_set-async_get :
    {S : Type 0} (size_of : Members → ℕ)
    → ((ms : Members) → members_size ms ≤ size_of ms)
    → (sys : System S) (sk : Skeleton) (a : Attribute S) (getter setter : ℕ)
      (v : Values a.value_type) (r1 r2 fuel : ℕ)
    → ((s : S) (u : Values a.value_type) → a.value (a.store s u) ≡ u)
    → a.service ≡ sk.service
    → sk.service ≢ sd_service
    → Unheard sys.app.router a.service a.event
    → (getter ≢ setter)
      × (a.event ≢ getter)
      × (a.event ≢ setter)
      × (getter ≢ any_method)
      × (setter ≢ any_method)
    → All
        (λ x. x < 2 ^ 16)
        (sk.service ∷ getter ∷ setter ∷ a.event ∷ sys.app.client ∷ sys.app.session_counter ∷ [])
    → (size_of a.value_type + 8 < 2 ^ 32) × (size_of one_byte + 8 < 2 ^ 32)
    → MembersFit a.value_type v
    → NonEmpty a.value_type
    → members_size a.value_type ≤ 256
    → let served_sys : System S = record sys { app = serve_attribute sk sys.app a getter setter } in
      let prx = target sk.service sk.instance_id in
      (mid : System S) × (after : System S) × (async_set size_of
          (suc (suc fuel))
          prx
          served_sys
          setter
          a.value_type
          v
          r1
        ≡ ran mid)
      × (a.value mid.impl ≡ v)
      × (async_get size_of (suc (suc fuel)) prx mid getter a.value_type r2 ≡ ran after)
      × (a.value after.impl ≡ v)
      × (after.events
          ≡ (sys.events ++ completed r1 (set_value one_byte (0, tt)) ∷ [])
            ++ completed r2 (set_value a.value_type v) ∷ [])
unfolding serve_attribute serve register_message_handler async_set async_get
async_set-async_get {S} size_of big sys sk a getter setter v r1 r2 fuel law own away unheard apart
      ids small fits ne few =
    let (gs, eg, es, ga, sa) = apart in
    let app = serve_attribute sk sys.app a getter setter in
    let served_sys : System S = record sys { app = app } in
    let prx = target sk.service sk.instance_id in
    let (set_serves, get_serves, quiet) =
      ways sk sys.app a getter setter away unheard apart (omega arith) in
    let acts = λ (app' : App (Rpc.Handler S) PendingCall) (e : app'.router ≡ app.router).
      setter-ActsAs size_of big a fuel (record served_sys { app = app' }) v
        (subst (λ r. Unheard r a.service a.event) (sym e) quiet) (omega (arith, own))
        (law sys.impl v) fits few in
    let (mid, e1, impl1, events1, _, router1, client1, counter1) =
      started size_of big (served_setter a) (setter_method a) r1 fuel prx served_sys setter v
        set_serves acts (omega arith) small.0 small.1 fits ne (omega arith, tt) (omega arith, tt) in
    let stored : a.value mid.impl ≡ v = ap a.value impl1 ∙ law sys.impl v in
    let still =
      subst (λ r. Serves r sk.service getter (served (getter_method a))) (sym router1) get_serves in
    let (after, e2, impl2, events2, _, _, _, _) =
      started size_of big (served (getter_method a)) (getter_method a) r2 fuel prx mid getter
        (0, tt) still (λ app' e view d. refl) (omega (arith, client1, counter1)) small.1 small.0
        (omega arith, tt) (omega arith, tt) (subst (MembersFit a.value_type) (sym stored) fits)
        ne in
    (
      mid,
      after,
      e1,
      stored,
      e2,
      ap a.value impl2 ∙ stored,
      events2 ∙ (λ i. events1 i ++ completed r2 (set_value a.value_type (stored i)) ∷ []),
    )
