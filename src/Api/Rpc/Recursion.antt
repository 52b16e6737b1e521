-- ===== src/Api/Rpc/Recursion.antt =====
-- A response that nobody waits for comes back to the method that sent it.
use bsomeip.Common.{
  IsByte, ℕ, zero, suc, ◌+◌, ◌^◌, ◌≤◌, ◌<◌, ◌≡◌, ◌≢◌, ◌⊎◌, inl, inr, refl, ap, ◌∙◌, none, List, [],
  ◌∷◌, length, length-take, length-drop, take, drop, All, arith,
}
use bsomeip.Wire.Bytes.{read_u16_be}
use bsomeip.Wire.HeaderView
use bsomeip.Wire.HeaderView.{payload_length, service, method, session, interface_ver}
use bsomeip.Wire.Codec.{Members, Values, done, deserialize}
use bsomeip.Wire.Codec.Layout.{MembersFit, members_size, length-members_bytes}
use bsomeip.Wire.Codec.Checked.{NonEmpty, deserialize_checked_room}
use bsomeip.Route.Dispatcher.{view_of}
use bsomeip.Route.Manager.{sd_service, sd_method}
use bsomeip.Api.Application.{pending_at}
use bsomeip.Api.Rpc.{
  Method, System, ran, and_then, out_of_fuel, served, call_method, route_filled, run,
}
use bsomeip.Api.Rpc.Served.{Serves, serve-Serves, run-Serves}
use bsomeip.Api.Skeleton.{Skeleton, serve}
use bsomeip.Api.Rpc.Filled.{getters, response_lem}

read_u16_be-lt : (p : List ℕ) (o : ℕ) → read_u16_be p o < 2 ^ 16
unfolding read_u16_be
read_u16_be-lt p o = omega arith

ids-lt :
    (raw : List ℕ)
    → All (λ x. x < 2 ^ 16) (service raw ∷ method raw ∷ HeaderView.client raw ∷ session raw ∷ [])
unfolding service method HeaderView.client session
ids-lt raw = (
  read_u16_be-lt raw 0,
  (read_u16_be-lt raw 2, (read_u16_be-lt raw 8, (read_u16_be-lt raw 10, tt))),
)

-- Enough bytes give a value, whatever they are.
any_value :
    (ms : Members) (buf : List ℕ)
    → NonEmpty ms
    → members_size ms ≤ length buf
    → (v : Values ms) × (deserialize ms buf ≡ done v)
unfolding deserialize
any_value ms buf ne room = deserialize_checked_room ms buf 0 ne (omega arith)

module _ (size_of : Members → ℕ) (big : (ms : Members) → members_size ms ≤ size_of ms) {S : Type 0}
    (m : Method S) (ne : NonEmpty m.req) (no_larger : members_size m.req ≤ members_size m.resp)
    (fits : (impl : S) (v : Values m.req) → MembersFit m.resp (m.handler impl v).1)
    (small : size_of m.resp + 8 < 2 ^ 32) where
  never_ends :
      (fuel : ℕ) (sys : System S) (raw : List ℕ) (s mid : ℕ)
      → Serves sys.app.router s mid (served m)
      → 16 + payload_length raw ≤ length raw
      → members_size m.req ≤ payload_length raw
      → service raw ≡ s
      → method raw ≡ mid
      → IsByte (interface_ver raw)
      → pending_at sys.app (session raw) ≡ none
      → run size_of fuel sys raw ≡ out_of_fuel
  unfolding run
  never_ends zero sys raw s mid serves whole enough es em iface absent = refl
  never_ends (suc fuel) sys raw s mid serves whole enough es em iface absent =
      let payload = take (payload_length raw) (drop 16 raw) in
      let size : length payload ≡ payload_length raw =
        omega (arith, length-take (payload_length raw) (drop 16 raw), length-drop 16 raw) in
      let (v, e) = any_value m.req payload ne (omega (arith, size)) in
      let (impl, r) = m.handler sys.impl v in
      let r_fits = fits sys.impl v in
      let next : System S = record sys { impl = impl } in
      let (out, filled, answer) =
        response_lem size_of big raw m.resp r (ids-lt raw) iface small r_fits in
      let (os, om, _, on, oi, _, _) = getters out _ answer.0 in
      let bytes = length-members_bytes m.resp r r_fits in
      let again =
        never_ends fuel next out s mid serves (omega (arith, answer)) (omega (arith, answer, bytes))
          (os ∙ es) (om ∙ em) (omega (arith, oi)) (ap (pending_at sys.app) on ∙ absent) in
      run-Serves size_of fuel sys raw s mid m serves whole es em (inr absent)
      ∙ ap
          (λ d. and_then (call_method size_of (run size_of fuel) m (view_of raw payload) sys d) ran)
          e
      ∙ ap (λ d. and_then (route_filled size_of (run size_of fuel) next d) ran) filled
      ∙ ap (λ x. and_then x ran) again

-- A whole message for a served method whose session nobody waits for in this application, such as a
-- request that came over the network, never ends to be routed, when the bytes of the response are
-- enough for a request: the response is routed to the same method again, at every depth of calls.
-- Nor does it matter whether the message is a request or a response.
pub run-serve_never_ends :
    {S : Type 0} (size_of : Members → ℕ)
    → ((ms : Members) → members_size ms ≤ size_of ms)
    → (m : Method S) → NonEmpty m.req
    → members_size m.req ≤ members_size m.resp
    → ((impl : S) (v : Values m.req) → MembersFit m.resp (m.handler impl v).1)
    → size_of m.resp + 8 < 2 ^ 32
    → (fuel : ℕ) (sys : System S) (sk : Skeleton) (raw : List ℕ)
    → (service raw ≢ sd_service) ⊎ (method raw ≢ sd_method)
    → service raw ≡ sk.service
    → 16 + payload_length raw ≤ length raw
    → members_size m.req ≤ payload_length raw
    → IsByte (interface_ver raw)
    → pending_at sys.app (session raw) ≡ none
    → run size_of fuel (record sys { app = serve sk sys.app (method raw) m }) raw ≡ out_of_fuel
unfolding serve
run-serve_never_ends size_of big m ne no_larger fits small fuel sys sk raw away es whole enough
      iface absent =
    let there : (sk.service ≢ sd_service) ⊎ (method raw ≢ sd_method) = elim away [
      | inl h ↦ inl (λ e. h (es ∙ e))
      | inr h ↦ inr h
    ] in
    never_ends size_of big m ne no_larger fits small fuel
      (record sys { app = serve sk sys.app (method raw) m }) raw sk.service (method raw)
      (serve-Serves sk sys.app (method raw) m there (ids-lt raw).1.0) whole enough es refl iface
      absent
