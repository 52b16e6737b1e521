-- ===== src/Comm.antt =====
-- include/bsomeip/comm: attributes, broadcasts and calls over skeletons and proxies. What the handlers
-- of an attribute do is in Api/Rpc.
pub mod Ways
pub mod Sets
use bsomeip.Common.{ℕ}
use bsomeip.Wire.Codec.{Members, Values}
use bsomeip.Api.Application.{App, register_message_handler}
use bsomeip.Api.Rpc.{
  Attribute, Handler, Method, PendingCall, System, Ran, served_setter, on_event, one_byte,
  set_attribute, notify_attribute, run,
}
use bsomeip.Api.Skeleton
use bsomeip.Api.Skeleton.{Skeleton, serve}
use bsomeip.Api.Proxy.{Proxy, async_call}
use bsomeip.Api.Proxy

module _ {S : Type 0} where
  -- The handler of the getter.
  abbrev pub getter_method : Attribute S → Method S
  getter_method a = record {
    req = one_byte;
    resp = a.value_type;
    handler = λ (s : S) (v : Values one_byte). (s, a.value s);
  }

  -- The constructor of `attribute`.
  unfoldable pub serve_attribute :
      Skeleton
      → App (Handler S) PendingCall
      → Attribute S
      → (getter setter : ℕ) → App (Handler S) PendingCall
  unfolding serve register_message_handler
  serve_attribute sk app a getter setter =
      let app = serve sk app getter (getter_method a) in
      register_message_handler app sk.service setter (served_setter a)

  -- `attribute::set` and `attribute::notify`, called by the program.
  unfoldable pub set :
      (size_of : Members → ℕ)
      → (fuel : ℕ) → System S
      → (a : Attribute S) → Values a.value_type
      → Ran S
  unfolding set_attribute run
  set size_of fuel sys a v = set_attribute size_of (run size_of fuel) a sys v

  unfoldable pub notify : (size_of : Members → ℕ) → (fuel : ℕ) → System S → Attribute S → Ran S
  unfolding notify_attribute run
  notify size_of fuel sys a = notify_attribute size_of (run size_of fuel) a sys

  -- `attribute_proxy`
  unfoldable pub async_get :
      (size_of : Members → ℕ)
      → (fuel : ℕ) → Proxy
      → System S
      → (getter : ℕ) → (value_type : Members) → (receiver : ℕ) → Ran S
  unfolding async_call
  async_get size_of fuel prx sys getter value_type receiver =
      async_call size_of fuel prx sys getter one_byte value_type (0, tt) receiver

  unfoldable pub async_set :
      (size_of : Members → ℕ)
      → (fuel : ℕ) → Proxy
      → System S
      → (setter : ℕ) → (value_type : Members) → Values value_type
      → (receiver : ℕ) → Ran S
  unfolding async_call
  async_set size_of fuel prx sys setter value_type v receiver =
      async_call size_of fuel prx sys setter value_type one_byte v receiver

  unfoldable pub on_change :
      Proxy
      → App (Handler S) PendingCall
      → (event : ℕ) → (value_type : Members) → (user : ℕ) → App (Handler S) PendingCall
  unfolding Proxy.subscribe
  on_change prx app event value_type user = Proxy.subscribe prx app event (on_event value_type user)

  -- `broadcast` and `broadcast_proxy`
  unfoldable pub fire :
      (size_of : Members → ℕ)
      → Skeleton
      → (fuel : ℕ) → System S
      → (event : ℕ) → (ms : Members) → Values ms
      → Ran S
  unfolding Skeleton.notify
  fire size_of sk fuel sys event ms v = Skeleton.notify size_of sk fuel sys event ms v

  unfoldable pub subscribe :
      Proxy
      → App (Handler S) PendingCall
      → (event : ℕ) → (ms : Members) → (user : ℕ) → App (Handler S) PendingCall
  unfolding Proxy.subscribe
  subscribe prx app event ms user = Proxy.subscribe prx app event (on_event ms user)

  -- `rpc::operator()`
  unfoldable pub call :
      (size_of : Members → ℕ)
      → (fuel : ℕ) → Proxy
      → System S
      → (method : ℕ) → (req resp : Members) → Values req
      → (receiver : ℕ) → Ran S
  unfolding async_call
  call size_of fuel prx sys method req resp v receiver =
      async_call size_of fuel prx sys method req resp v receiver
