-- ===== src/Api/Proxy/Round.antt =====
-- A request at the handler that serves it, and the response at the call that waits for it.
use bsomeip.Common.{
  IsByte, ℕ, suc, ◌+◌, ◌^◌, ◌≤◌, ◌<◌, ◌≡◌, inl, refl, sym, ap, ◌∙◌, true, false, some, none, List,
  [], ◌∷◌, ◌++◌, append-nil, length, take, drop, set, All, arith,
}
use bsomeip.Wire.HeaderView.{payload_length, session}
use bsomeip.Wire.Header.{Fields}
use bsomeip.Wire.MessageType.{is_response, response}
use bsomeip.Wire.Codec.{Members, Values, done, deserialize}
use bsomeip.Wire.Codec.Layout.{MembersFit, members_size, members_bytes}
use bsomeip.Wire.Codec.Checked.{NonEmpty}
use bsomeip.Wire.Codec.RoundTrip.{deserialize-members_bytes}
use bsomeip.Route.Dispatcher.{MessageView, view_of}
use bsomeip.Api.Application.{message, pending_at}
use bsomeip.Api.Application.Pending.{get_or-set-none}
use bsomeip.Api.Rpc.{
  Handler, Method, System, ran, and_then, served, completed, set_value, call_method, route_filled,
  run, run_call,
}
use bsomeip.Api.Rpc.Handled.{Carries}
use bsomeip.Api.Rpc.Filled.{getters, response_lem}
use bsomeip.Api.Rpc.Served.{Serves, run-handler, run-response}

-- The payload of a message that carries the bytes of a value.
payload_of :
    (msg : List ℕ) (ms : Members) (v : Values ms)
    → drop 16 msg ≡ members_bytes ms v
    → payload_length msg ≡ length (members_bytes ms v)
    → MembersFit ms v
    → NonEmpty ms
    → deserialize ms (take (payload_length msg) (drop 16 msg)) ≡ done v
payload_of msg ms v behind plen fits ne =
    let bs = members_bytes ms v in
    ap (deserialize ms) ((λ i. take (plen i) (behind i)) ∙ take_own bs)
    ∙ ap (deserialize ms) (sym (append-nil bs))
    ∙ deserialize-members_bytes ms v [] fits ne
  where
    take_own : (xs : List ℕ) → take (length xs) xs ≡ xs
    take_own [] = refl
    take_own (x ∷ xs) = ap (λ l. x ∷ l) (take_own xs)

is_response-response : is_response response ≡ true
unfolding is_response
is_response-response = refl

module _ (size_of : Members → ℕ) (big : (ms : Members) → members_size ms ≤ size_of ms) where
  -- For this value, the handler `k` does in this system what that of a served method does.
  abbrev pub ActsAs :
      {S : Type 0} → Handler S → (m : Method S) → (fuel : ℕ) → System S → Values m.req → Type 0
  ActsAs k m fuel sys v =
      (view : MessageView)
      → deserialize m.req view.payload ≡ done v
      → run_call size_of (run size_of fuel) (message k view) sys
        ≡ run_call size_of (run size_of fuel) (message (served m) view) sys

  module _ {S : Type 0} (k : Handler S) (m : Method S) (receiver : ℕ) where
    -- The request at its handler, and the response at the entry that waits for it.
    pub round :
        (fuel : ℕ) (sys : System S) (msg : List ℕ) (v : Values m.req) (f : Fields)
        → Serves sys.app.router f.service f.method k
        → ActsAs k m (suc fuel) sys v
        → Carries msg f (members_bytes m.req v)
        → is_response f.msg_type ≡ false
        → All (λ x. x < 2 ^ 16) (f.service ∷ f.method ∷ f.client ∷ f.session ∷ [])
        → IsByte f.interface_ver
        → MembersFit m.req v
        → NonEmpty m.req
        → MembersFit m.resp (m.handler sys.impl v).1
        → NonEmpty m.resp
        → size_of m.resp + 8 < 2 ^ 32
        → pending_at sys.app f.session ≡ some (record { resp = m.resp; receiver = receiver })
        → (after : System S) × (run size_of (suc (suc fuel)) sys msg ≡ ran after)
          × (after.impl ≡ (m.handler sys.impl v).0)
          × (after.events
              ≡ sys.events ++ completed receiver (set_value m.resp (m.handler sys.impl v).1) ∷ [])
          × (pending_at after.app f.session ≡ none)
          × (after.app.router ≡ sys.app.router)
          × (after.app.client ≡ sys.app.client)
          × (after.app.session_counter ≡ sys.app.session_counter)
    unfolding run_call
    round fuel sys msg v f serves acts carries plain ids iface fits ne rfits rne small waits =
        let (impl, r) = m.handler sys.impl v in
        let (fs, _, size, plen) = carries in
        let (gs, gm, gc, gn, gi, gt, _) =
          getters msg (record f { length_field = length (members_bytes m.req v) + 8 }) fs in
        let (out, filled, answer) =
          response_lem size_of big msg m.resp r (omega arith) (omega arith) small rfits in
        let (_, _, _, on, _, ot, orc) = getters out _ answer.0 in
        let out_payload = payload_of out m.resp r answer.1 answer.3 rfits rne in
        let served_sys : System S = record sys { impl = impl } in
        let first =
          run-handler size_of (suc fuel) sys msg f.service f.method k serves (omega arith) gs gm
            (inl (ap is_response gt ∙ plain)) in
        let view = view_of msg (take (payload_length msg) (drop 16 msg)) in
        let asked = payload_of msg m.req v carries.1 carries.3 fits ne in
        let handled : call_method size_of (run size_of (suc fuel)) m view sys
              (deserialize m.req (take (payload_length msg) (drop 16 msg)))
            ≡ run size_of (suc fuel) served_sys out =
          ap (call_method size_of (run size_of (suc fuel)) m view sys) asked
          ∙ ap (route_filled size_of (run size_of (suc fuel)) served_sys) filled in
        let session_is : session out ≡ f.session = on ∙ gn in
        let last =
          run-response size_of fuel served_sys out (record { resp = m.resp; receiver = receiver }) r
            (omega (arith, answer)) (ap is_response ot ∙ is_response-response) orc
            (ap (pending_at sys.app) session_is ∙ waits) out_payload in
        (
          record served_sys {
            app = record sys.app { pending = set sys.app.pending (session out) none };
            events = sys.events ++ completed receiver (set_value m.resp r) ∷ [];
          },
          first ∙ ap (λ x. and_then x ran) (acts view asked ∙ handled ∙ last),
          refl,
          refl,
          ap (λ k. pending_at (record sys.app { pending = set sys.app.pending k none }) f.session)
                session_is
              ∙ get_or-set-none sys.app.pending f.session,
          refl,
          refl,
          refl,
        )
