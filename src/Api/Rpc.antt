-- ===== src/Api/Rpc.antt =====
-- include/bsomeip/api/skeleton.hpp and proxy.hpp: the handlers that a skeleton and a proxy register,
-- and what runs when an application routes a message. `S` is the state of the implementation. A
-- handler of a skeleton routes its response inside the call that routes the request; the depth of
-- such calls is bounded by fuel.
pub mod Handled
pub mod Filled
pub mod Served
pub mod Recursion
use bsomeip.Common.{
  ℕ, zero, suc, ◌+◌, ◌%◌, ◌^◌, Bool, not, List, [], ◌∷◌, ◌++◌, take, ◌==◌, if◌then◌else◌,
}
use bsomeip.Wire.Codec.{
  Members, no_members, member, u8, Values, Coded, done, buffer_too_small, out_of_bounds, serialize,
  deserialize, ◌>>=◌,
}
use bsomeip.Wire.HeaderView.{header_size, msg_type, set_payload_length}
use bsomeip.Wire.MessageType.{is_response}
use bsomeip.Route.Dispatcher.{MessageView}
use bsomeip.Api.Message.{payload, create_response, create_notification}
use bsomeip.Api.Application.{
  App, Call, Calls, message, availability, Routed, answered, dispatched, route,
}

-- `serve<Req, Resp>`
pub record Method (S : Type 0) : Type 0 where
  pub req : Members
  pub resp : Members
  pub handler : S → Values req → S × Values resp

-- What an attribute of include/bsomeip/comm/attribute.hpp needs: where the state of the program has its
-- value, the comparison of the bytes of two values, and the service of its skeleton.
pub record Attribute (S : Type 0) : Type 0 where
  pub service : ℕ
  pub event : ℕ
  pub value_type : Members
  pub value : S → Values value_type
  pub store : S → Values value_type → S
  pub same_bytes : Values value_type → Values value_type → Bool

-- Handlers of a skeleton, and those of a proxy's user, which are numbers.
pub data Handler (S : Type 0) : Type 0 where
  served_setter : Attribute S → Handler S
  on_event : (ms : Members) → ℕ → Handler S
  served : Method S → Handler S
  served_oneway : (req : Members) → (S → Values req → S) → Handler S
  on_response : (resp : Members) → ℕ → Handler S
  listener : ℕ → Handler S

-- A call that waits for its response, by the number of its receiver.
pub record PendingCall : Type 0 where
  pub resp : Members
  pub receiver : ℕ

-- `set_value`, or `set_error` for one of two reasons.
pub data Outcome : Type 0 where
  set_value : (resp : Members) → Values resp → Outcome
  error_response response_deserialize_failed : Outcome

pub data Event : Type 0 where
  completed : (receiver : ℕ) → Outcome → Event
  parsed : (listener : ℕ) → Outcome → Event
  available : (listener service instance_id : ℕ) → Bool → Event

pub record System (S : Type 0) : Type 0 where
  pub app : App (Handler S) PendingCall
  pub impl : S
  pub events : List Event

-- An access behind a buffer stops the model.
pub data Ran (S : Type 0) : Type 0 where
  ran : System S → Ran S
  accessed_out_of_bounds out_of_fuel : Ran S

abbrev pub and_then : {S : Type 0} → Ran S → (System S → Ran S) → Ran S
and_then (ran sys) f = f sys
and_then accessed_out_of_bounds f = accessed_out_of_bounds
and_then out_of_fuel f = out_of_fuel

-- The request of a getter and the response of a setter have one byte.
abbrev pub one_byte : Members
one_byte = member u8 no_members

-- A value serialized into the payload of a message, its length set and the message cut to its size.
unfoldable pub fill : (msg : List ℕ) → (ms : Members) → Values ms → Coded (List ℕ)
unfolding payload serialize set_payload_length
fill msg ms v = serialize ms (payload msg) v >>= λ (p, n).
    done (take (header_size + n) (set_payload_length (take header_size msg ++ p) (n % 2 ^ 32)))

abbrev pub record_event : {S : Type 0} → System S → Event → System S
record_event sys e = record sys { events = sys.events ++ e ∷ [] }

-- What is made of a payload that should hold a response.
abbrev pub with_parsed :
    {S : Type 0} → System S → (Outcome → Event) → (resp : Members) → Coded (Values resp) → Ran S
with_parsed sys event resp (done v) = ran (record_event sys (event (set_value resp v)))
with_parsed sys event resp buffer_too_small =
    ran (record_event sys (event response_deserialize_failed))
with_parsed sys event resp out_of_bounds = accessed_out_of_bounds

-- `call_sender::op_state::on_response`
unfoldable pub complete :
    {S : Type 0} → System S → PendingCall → (payload : List ℕ) → (rc : ℕ) → Ran S
unfolding deserialize
complete sys ctx p rc =
    if not (rc == 0)
    then ran (record_event sys (completed ctx.receiver error_response))
    else with_parsed sys (completed ctx.receiver) ctx.resp (deserialize ctx.resp p)

module _ (size_of : Members → ℕ) {S : Type 0} where
  -- The filled response is routed; one that does not fit is dropped.
  abbrev pub route_filled : (System S → List ℕ → Ran S) → System S → Coded (List ℕ) → Ran S
  route_filled step sys (done msg) = step sys msg
  route_filled step sys buffer_too_small = ran sys
  route_filled step sys out_of_bounds = accessed_out_of_bounds

  abbrev pub call_method :
      (System S → List ℕ → Ran S)
      → (m : Method S) → MessageView
      → System S
      → Coded (Values m.req)
      → Ran S
  call_method step m view sys (done v) =
      let (impl, resp) = m.handler sys.impl v in
      route_filled step (record sys { impl = impl })
        (fill (create_response view.header (size_of m.resp)) m.resp resp)
  call_method step m view sys buffer_too_small = ran sys
  call_method step m view sys out_of_bounds = accessed_out_of_bounds

  abbrev pub call_oneway :
      (req : Members) → (S → Values req → S) → System S → Coded (Values req) → Ran S
  call_oneway req f sys (done v) = ran (record sys { impl = f sys.impl v })
  call_oneway req f sys buffer_too_small = ran sys
  call_oneway req f sys out_of_bounds = accessed_out_of_bounds

  -- `attribute::notify`
  unfoldable pub notify_attribute : (System S → List ℕ → Ran S) → Attribute S → System S → Ran S
  unfolding fill create_notification
  notify_attribute step a sys =
      route_filled step sys
        (fill (create_notification a.service a.event 256) a.value_type (a.value sys.impl))

  -- `attribute::set`
  unfoldable pub set_attribute :
      (System S → List ℕ → Ran S) → (a : Attribute S) → System S → Values a.value_type → Ran S
  unfolding notify_attribute
  set_attribute step a sys v =
      let changed = not (a.same_bytes (a.value sys.impl) v) in
      let sys = record sys { impl = a.store sys.impl v } in
      if changed then notify_attribute step a sys else ran sys

  abbrev pub call_setter :
      (System S → List ℕ → Ran S)
      → (a : Attribute S) → MessageView
      → System S
      → Coded (Values a.value_type)
      → Ran S
  call_setter step a view sys (done v) = and_then (set_attribute step a sys v) (λ sys.
      route_filled step sys
        (fill (create_response view.header (size_of one_byte)) one_byte (0, tt)))
  call_setter step a view sys buffer_too_small = ran sys
  call_setter step a view sys out_of_bounds = accessed_out_of_bounds

  abbrev pub tell_value : System S → (ms : Members) → ℕ → Coded (Values ms) → Ran S
  tell_value sys ms n (done v) = ran (record_event sys (parsed n (set_value ms v)))
  tell_value sys ms n buffer_too_small = ran sys
  tell_value sys ms n out_of_bounds = accessed_out_of_bounds

  -- `step` routes the response of a handler.
  unfoldable pub run_call : (System S → List ℕ → Ran S) → Call (Handler S) → System S → Ran S
  unfolding deserialize fill create_response is_response msg_type set_attribute
  run_call step (message (served_setter a) view) sys =
      call_setter step a view sys (deserialize a.value_type view.payload)
  run_call step (message (on_event ms n) view) sys =
      tell_value sys ms n (deserialize ms view.payload)
  run_call step (message (served m) view) sys =
      call_method step m view sys (deserialize m.req view.payload)
  run_call step (message (served_oneway req f) view) sys =
      call_oneway req f sys (deserialize req view.payload)
  run_call step (message (on_response resp n) view) sys =
      if not (is_response (msg_type view.header))
      then ran sys
      else with_parsed sys (parsed n) resp (deserialize resp view.payload)
  run_call step (message (listener n) view) sys = ran sys
  run_call step (availability (listener n) s i up) sys = ran (record_event sys (available n s i up))
  run_call step (availability k s i up) sys = ran sys

  unfoldable pub run_calls : (System S → List ℕ → Ran S) → Calls (Handler S) → System S → Ran S
  unfolding run_call
  run_calls step [] sys = ran sys
  run_calls step (c ∷ calls) sys = and_then (run_call step c sys) (run_calls step calls)

  abbrev pub after_route :
      (System S → List ℕ → Ran S) → System S → Routed (Handler S) PendingCall → Ran S
  after_route step sys (answered ctx p rc) = complete sys ctx p rc
  after_route step sys (dispatched handled calls) = run_calls step calls sys

  -- `application::route`, with all that runs in it.
  unfoldable pub run : (fuel : ℕ) → System S → (raw : List ℕ) → Ran S
  unfolding route complete run_calls
  run zero sys raw = out_of_fuel
  run (suc fuel) sys raw =
      let (app, r) = route sys.app raw in after_route (run fuel) (record sys { app = app }) r
