-- ===== src/Api/Proxy.antt =====
-- include/bsomeip/api/proxy.hpp: the operations of a proxy.
pub mod Round
pub mod Call
use bsomeip.Common.{ℕ, List, take}
use bsomeip.Wire.Codec.{
  Members, Values, Coded, done, buffer_too_small, out_of_bounds, deserialize, ◌>>=◌,
}
use bsomeip.Wire.HeaderView.{header_size, set_payload_length, session}
use bsomeip.Api.Message.{create_request}
use bsomeip.Api.Application.{
  App, register_availability_handler, register_message_handler, register_pending, next_session,
}
use bsomeip.Api.Application
use bsomeip.Api.Rpc.{
  Handler, PendingCall, System, Ran, accessed_out_of_bounds, on_response, listener, fill, run,
}

pub record Proxy : Type 0 where
  pub service : ℕ
  pub instance_id : ℕ

abbrev pub target : (service instance_id : ℕ) → Proxy
target s i = record { service = s; instance_id = i }

-- A message without payload stands for one that did not fit.
abbrev pub or_empty : (msg : List ℕ) → Coded (List ℕ) → Coded (List ℕ)
or_empty msg (done filled) = done filled
or_empty msg buffer_too_small = done (set_payload_length (take header_size msg) 0)
or_empty msg out_of_bounds = out_of_bounds

module _ {S : Type 0} where
  unfoldable pub request_service :
      Proxy → App (Handler S) PendingCall → (major minor now : ℕ) → App (Handler S) PendingCall
  unfolding Application.request_service
  request_service prx app major minor now =
      Application.request_service app prx.service prx.instance_id major minor now

  unfoldable pub release_service : Proxy → App (Handler S) PendingCall → App (Handler S) PendingCall
  unfolding Application.release_service
  release_service prx app = Application.release_service app prx.service prx.instance_id

  unfoldable pub on_availability :
      Proxy → App (Handler S) PendingCall → (user : ℕ) → App (Handler S) PendingCall
  unfolding register_availability_handler
  on_availability prx app user = register_availability_handler app prx.service (listener user)

  unfoldable pub subscribe :
      Proxy → App (Handler S) PendingCall → (eg : ℕ) → Handler S → App (Handler S) PendingCall
  unfolding Application.subscribe
  subscribe prx app eg k = Application.subscribe app prx.service eg k

  -- The legacy callback.
  unfoldable pub register_on_response :
      Proxy
      → App (Handler S) PendingCall
      → (method : ℕ) → (resp : Members) → (user : ℕ) → App (Handler S) PendingCall
  unfolding register_message_handler
  register_on_response prx app method resp user =
      register_message_handler app prx.service method (on_response resp user)

  unfoldable pub build_request :
      Proxy
      → App (Handler S) PendingCall
      → (method : ℕ) → (req : Members) → Values req
      → App (Handler S) PendingCall × Coded (List ℕ)
  unfolding next_session create_request fill
  build_request prx app method req v =
      let (app, n) = next_session app in
      (app, fill (create_request prx.service method app.client n 256) req v)

  unfoldable pub build_request_impl :
      (size_of : Members → ℕ)
      → Proxy
      → App (Handler S) PendingCall
      → (method : ℕ) → (req : Members) → Values req
      → App (Handler S) PendingCall × Coded (List ℕ)
  unfolding next_session create_request fill
  build_request_impl size_of prx app method req v =
      let (app, n) = next_session app in
      let msg = create_request prx.service method app.client n (size_of req) in
      (app, or_empty msg (fill msg req v))

  -- `op_state::start`: the pending entry, then the request.
  unfoldable pub start :
      (size_of : Members → ℕ) → (fuel : ℕ) → System S → PendingCall → (req_msg : List ℕ) → Ran S
  unfolding session register_pending run
  start size_of fuel sys ctx req_msg =
      run size_of fuel (record sys { app = register_pending sys.app (session req_msg) ctx }) req_msg

  abbrev pub start_built :
      (size_of : Members → ℕ) → (fuel : ℕ) → System S → PendingCall → Coded (List ℕ) → Ran S
  start_built size_of fuel sys ctx (done msg) = start size_of fuel sys ctx msg
  start_built size_of fuel sys ctx buffer_too_small = accessed_out_of_bounds
  start_built size_of fuel sys ctx out_of_bounds = accessed_out_of_bounds

  -- `async_call`, connected and started.
  unfoldable pub async_call :
      (size_of : Members → ℕ)
      → (fuel : ℕ) → Proxy
      → System S
      → (method : ℕ) → (req resp : Members) → Values req
      → (receiver : ℕ) → Ran S
  unfolding build_request_impl start
  async_call size_of fuel prx sys method req resp v receiver =
      let (app, msg) = build_request_impl size_of prx sys.app method req v in
      start_built size_of fuel (record sys { app = app })
        (record { resp = resp; receiver = receiver }) msg

unfoldable pub parse_response : (resp : Members) → List ℕ → Coded (Values resp)
unfolding deserialize
parse_response resp p = deserialize resp p
