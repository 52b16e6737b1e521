-- ===== src/Route/Dispatcher.antt =====
-- include/bsomeip/route/dispatcher.hpp: handlers by service and method, by eventgroup, and for the
-- availability of services. A handler is a function on a state `W` of the program around it;
-- handlers are registered before the messages come, so none of them changes the dispatcher.
pub mod Handlers
use bsomeip.Common.{
  ℕ, ◌+◌, ◌*◌, ◌^◌, Bool, true, false, Option, none, some, List, [], ◌∷◌, ◌++◌, lookup, insert,
  erase, ℕ_key,
}
use bsomeip.Wire.HeaderView.{service, method}
use bsomeip.Wire.Wildcards.{any_method}

-- `message_view`: the buffer of the header, and the payload.
pub record MessageView : Type 0 where
  pub header : List ℕ
  pub payload : List ℕ

abbrev pub view_of : (header payload : List ℕ) → MessageView
view_of h p = record { header = h; payload = p }

unfoldable pub pack_key : (service method : ℕ) → ℕ
pack_key s m = s * 2 ^ 16 + m

unfoldable pub pack_eg_key : (service eventgroup : ℕ) → ℕ
pack_eg_key s e = s * 2 ^ 16 + e

abbrev pub Handler : Type 0 → Type 0
Handler W = MessageView → W → W

abbrev pub AvailabilityHandler : Type 0 → Type 0
AvailabilityHandler W = (service instance_id : ℕ) → (available : Bool) → W → W

pub record Dispatcher (W : Type 0) : Type 0 where
  pub handlers : List (ℕ × Handler W)
  pub subscriptions : List (ℕ × List (Handler W))
  pub availability_handlers : List (ℕ × List (AvailabilityHandler W))

-- `operator[]` of a map of vectors.
abbrev pub bucket : {A : Type 0} → ℕ → List (ℕ × List A) → List A
bucket k m = elim (lookup k m) [ none ↦ [] | some hs ↦ hs ]

module _ {W : Type 0} where
  unfoldable pub register_handler : Dispatcher W → (service method : ℕ) → Handler W → Dispatcher W
  unfolding insert pack_key
  register_handler d s m handler = record d { handlers = insert (pack_key s m) handler d.handlers }

  unfoldable pub unregister_handler : Dispatcher W → (service method : ℕ) → Dispatcher W
  unfolding erase pack_key
  unregister_handler d s m = record d { handlers = erase (pack_key s m) d.handlers }

  unfoldable pub subscribe : Dispatcher W → (service eventgroup : ℕ) → Handler W → Dispatcher W
  unfolding lookup insert pack_eg_key
  subscribe d s e handler =
      let k = pack_eg_key s e in
      record d {
        subscriptions = insert k (bucket k d.subscriptions ++ handler ∷ []) d.subscriptions;
      }

  unfoldable pub unsubscribe : Dispatcher W → (service eventgroup : ℕ) → Dispatcher W
  unfolding erase pack_eg_key
  unsubscribe d s e = record d { subscriptions = erase (pack_eg_key s e) d.subscriptions }

  unfoldable pub on_availability :
      Dispatcher W → (service : ℕ) → AvailabilityHandler W → Dispatcher W
  unfolding lookup insert
  on_availability d s handler = record d {
    availability_handlers =
        insert s (bucket s d.availability_handlers ++ handler ∷ []) d.availability_handlers;
  }

  -- The handler found by the message's own key goes before the one for any method.
  abbrev pub call_first : (own wildcard : Option (Handler W)) → MessageView → W → Bool × W
  call_first (some handler) wildcard view w = (true, handler view w)
  call_first none (some handler) view w = (true, handler view w)
  call_first none none view w = (false, w)

  -- Whether a handler was found, and the state after it.
  unfoldable pub dispatch : Dispatcher W → (header payload : List ℕ) → W → Bool × W
  unfolding lookup pack_key service method
  dispatch d hdr payload w =
      call_first (lookup (pack_key (service hdr) (method hdr)) d.handlers)
        (lookup (pack_key (service hdr) any_method) d.handlers) (view_of hdr payload) w

  abbrev pub run_all : List (Handler W) → MessageView → W → W
  run_all [] view w = w
  run_all (h ∷ hs) view w = run_all hs view (h view w)

  unfoldable pub notify_subscribers :
      Dispatcher W → (service eventgroup : ℕ) → (header payload : List ℕ) → W → W
  unfolding lookup pack_eg_key
  notify_subscribers d s e hdr payload w =
      run_all (bucket (pack_eg_key s e) d.subscriptions) (view_of hdr payload) w

  abbrev pub announce : List (AvailabilityHandler W) → (service instance_id : ℕ) → Bool → W → W
  announce [] s i available w = w
  announce (h ∷ hs) s i available w = announce hs s i available (h s i available w)

  unfoldable pub notify_availability : Dispatcher W → (service instance_id : ℕ) → Bool → W → W
  unfolding lookup
  notify_availability d s i available w =
      announce (bucket s d.availability_handlers) s i available w

  unfoldable pub clear : Dispatcher W → Dispatcher W
  clear d = record { handlers = []; subscriptions = []; availability_handlers = [] }
