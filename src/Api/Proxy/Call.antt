-- ===== src/Api/Proxy/Call.antt =====
-- A call of a proxy and the skeleton that serves it, in one application.
use bsomeip.Common.{
  ℕ, suc, ◌+◌, ◌%◌, ◌^◌, ◌≤◌, ◌<◌, ◌≡◌, ◌≢◌, ◌⊎◌, inl, inr, refl, ap, ◌∙◌, false, none, List, [],
  ◌∷◌, ◌++◌, All, ◌==◌, Bool-cases, arith,
}
use bsomeip.Wire.MessageType.{is_response, request}
use bsomeip.Wire.Codec.{Members, Values, done}
use bsomeip.Wire.Codec.Layout.{MembersFit, members_size}
use bsomeip.Wire.Codec.Checked.{NonEmpty}
use bsomeip.Route.Manager.{sd_service, sd_method}
use bsomeip.Api.Message.{create_request}
use bsomeip.Api.Application.{App, next_session, register_pending, pending_at}
use bsomeip.Api.Application.Pending.{pending_at-register_pending}
use bsomeip.Api.Rpc.{
  Handler, Method, PendingCall, System, ran, served, completed, set_value, fill, run,
}
use bsomeip.Api.Rpc.Filled.{getters, request_fields, request_lem}
use bsomeip.Api.Rpc.Served.{Serves, serve-Serves}
use bsomeip.Api.Skeleton.{Skeleton, serve}
use bsomeip.Api.Proxy.Round.{ActsAs, round}
use bsomeip.Api.Proxy.{Proxy, target, or_empty, build_request_impl, start, start_built, async_call}

-- Only the counter changes.
next_session_state :
    {K P : Type 0} (app : App K P)
    → app.session_counter < 2 ^ 16
    → (c : ℕ) × (n : ℕ) × (next_session app ≡ (record app { session_counter = c }, n))
      × (n < 2 ^ 16)
      × (c < 2 ^ 16)
unfolding next_session
next_session_state app small =
    let s = app.session_counter in
    elim (Bool-cases (s == 0)) [
      | inl t ↦
          (((s + 1) % 2 ^ 16 + 1) % 2 ^ 16, (s + 1) % 2 ^ 16, rw t refl, omega arith, omega arith)
      | inr t ↦ ((s + 1) % 2 ^ 16, s, rw t refl, omega arith, omega arith)
    ]

is_response-request : is_response request ≡ false
unfolding is_response
is_response-request = refl

module _ (size_of : Members → ℕ) (big : (ms : Members) → members_size ms ≤ size_of ms) where
  module _ {S : Type 0} (k : Handler S) (m : Method S) (receiver : ℕ) where
    built :
        (prx : Proxy) (app : App (Handler S) PendingCall) (mid c n : ℕ) (v : Values m.req)
        (msg : List ℕ)
        → next_session app ≡ (record app { session_counter = c }, n)
        → fill (create_request prx.service mid app.client n (size_of m.req)) m.req v ≡ done msg
        → build_request_impl size_of prx app mid m.req v
          ≡ (record app { session_counter = c }, done msg)
    unfolding build_request_impl
    built prx app mid c n v msg e filled =
        (λ i.
          let (a, k) = e i in
          let msg' = create_request prx.service mid a.client k (size_of m.req) in
          (a, or_empty msg' (fill msg' m.req v)))
        ∙ λ i. (
          record app { session_counter = c },
          or_empty (create_request prx.service mid app.client n (size_of m.req)) (filled i),
        )

    -- From the entry on.
    pub started :
        (fuel : ℕ) (prx : Proxy) (sys : System S) (mid : ℕ) (v : Values m.req)
        → Serves sys.app.router prx.service mid k
        → ((app : App (Handler S) PendingCall)
            → app.router ≡ sys.app.router
            → ActsAs size_of big k m (suc fuel) (record sys { app = app }) v)
        → All (λ x. x < 2 ^ 16) (prx.service ∷ mid ∷ sys.app.client ∷ sys.app.session_counter ∷ [])
        → size_of m.req + 8 < 2 ^ 32
        → size_of m.resp + 8 < 2 ^ 32
        → MembersFit m.req v
        → NonEmpty m.req
        → MembersFit m.resp (m.handler sys.impl v).1
        → NonEmpty m.resp
        → (after : System S) × (async_call size_of
              (suc (suc fuel))
              prx
              sys
              mid
              m.req
              m.resp
              v
              receiver
            ≡ ran after)
          × (after.impl ≡ (m.handler sys.impl v).0)
          × (after.events
              ≡ sys.events ++ completed receiver (set_value m.resp (m.handler sys.impl v).1) ∷ [])
          × (pending_at after.app (next_session sys.app).1 ≡ none)
          × (after.app.router ≡ sys.app.router)
          × (after.app.client ≡ sys.app.client)
          × (after.app.session_counter < 2 ^ 16)
    unfolding async_call start register_pending
    started fuel prx sys mid v serves acts ids req_small resp_small fits ne rfits rne =
        let ctx : PendingCall = record { resp = m.resp; receiver = receiver } in
        let (c, n, e_next, n_small, c_small) = next_session_state sys.app (omega arith) in
        let (msg, filled, carries) =
          request_lem size_of big prx.service mid sys.app.client n m.req v (omega arith) req_small
            fits in
        let e_built = built prx sys.app mid c n v msg e_next filled in
        let (_, _, _, session_is, _, _, _) = getters msg _ carries.0 in
        let app : App (Handler S) PendingCall = record sys.app { session_counter = c } in
        let waiting : System S = record sys { app = register_pending app n ctx } in
        let (here, _) = pending_at-register_pending app n ctx in
        let (after, e, impl, events, gone, same_router, same_client, same_counter) =
          round size_of big k m receiver fuel waiting msg v
            (request_fields prx.service mid sys.app.client n (size_of m.req)) serves
            (acts (register_pending app n ctx) refl) carries is_response-request (omega arith)
            (omega arith) fits ne rfits rne resp_small here in
        (
          after,
          (λ i.
                start_built size_of (suc (suc fuel)) (record sys { app = (e_built i).0 }) ctx
                  (e_built i).1)
              ∙ ap
                  (λ k.
                    run size_of (suc (suc fuel)) (record sys { app = register_pending app k ctx })
                      msg)
                  session_is
              ∙ e,
          impl,
          events,
          (λ i. pending_at after.app (e_next i).1) ∙ gone,
          same_router,
          same_client,
          omega (arith, same_counter, c_small),
        )

-- A call of a method that a skeleton serves in the same application completes, inside the call, with
-- the value that the handler gives for the request; the handler runs once, on the state of the
-- implementation, and nothing else happens. The entry of the call is used up. The service and method
-- are not those of service discovery, the identifiers have 16 bits, request and response fit their
-- types and have members of a byte at least, and `sizeof` is no less than the size on the wire, and
-- below 2 ^ 32 - 8. Two units of fuel are enough: the request and its response.
pub async_call-serve :
    {S : Type 0} (size_of : Members → ℕ)
    → ((ms : Members) → members_size ms ≤ size_of ms)
    → (sys : System S) (sk : Skeleton) (mid : ℕ) (m : Method S) (v : Values m.req)
      (receiver fuel : ℕ)
    → (sk.service ≢ sd_service) ⊎ (mid ≢ sd_method)
    → All (λ x. x < 2 ^ 16) (sk.service ∷ mid ∷ sys.app.client ∷ sys.app.session_counter ∷ [])
    → size_of m.req + 8 < 2 ^ 32
    → size_of m.resp + 8 < 2 ^ 32
    → MembersFit m.req v
    → NonEmpty m.req
    → MembersFit m.resp (m.handler sys.impl v).1
    → NonEmpty m.resp
    → let served_sys : System S = record sys { app = serve sk sys.app mid m } in
      let prx = target sk.service sk.instance_id in
      (after : System S) × (async_call size_of
          (suc (suc fuel))
          prx
          served_sys
          mid
          m.req
          m.resp
          v
          receiver
        ≡ ran after)
      × (after.impl ≡ (m.handler sys.impl v).0)
      × (after.events
          ≡ sys.events ++ completed receiver (set_value m.resp (m.handler sys.impl v).1) ∷ [])
      × (pending_at after.app (next_session served_sys.app).1 ≡ none)
unfolding serve
async_call-serve size_of big sys sk mid m v receiver fuel away ids q p fits ne rfits rne =
    let (after, e, impl, events, gone, _, _, _) =
      started size_of big (served m) m receiver fuel (target sk.service sk.instance_id)
        (record sys { app = serve sk sys.app mid m }) mid v
        (serve-Serves sk sys.app mid m away (omega arith)) (λ app e view d. refl) ids q p fits ne
        rfits rne in
    (after, e, impl, events, gone)
