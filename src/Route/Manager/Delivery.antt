-- ===== src/Route/Manager/Delivery.antt =====
-- The way of messages from a TCP stream, through the framer and the routing manager, to a handler.
use bsomeip.Common.{
  ℕ, ◌^◌, ◌<◌, ◌≡◌, ◌≢◌, ◌⊎◌, inl, inr, refl, sym, ap, ◌∙◌, Bool, false, Bool-cases, ◌&&◌, ◌==◌,
  if◌then◌else◌, List, [], ◌∷◌, length-drop, drop, take_all, arith,
}
use bsomeip.Wire.Bytes.{read_u16_be}
use bsomeip.Wire.HeaderView.{payload_length, message_size, service, method}
use bsomeip.Wire.Wildcards.{any_method}
use bsomeip.Route.Dispatcher.{Handler, view_of, register_handler}
use bsomeip.Route.Manager.{Manager, route_message, sd_service, sd_method}
use bsomeip.Route.Manager.Routing.{route_message-register_handler, route_message-other, no_calls}
use bsomeip.Io.Framer.{empty, receive}
use bsomeip.Io.Framer.Chunks.{concat}
use bsomeip.Io.Framer.Recovery.{
  Item, message_item, cookie_item, IsMessage, bytes_of, messages_of, receive-items,
}

-- Every message is routed, in order.
unfoldable pub route_all : {W : Type 0} → Manager W → List (List ℕ) → W → W
unfolding route_message
route_all m [] w = w
route_all m (msg ∷ msgs) w = route_all m msgs (route_message m msg w).1

-- The handler runs for the messages of its service and method, in order, with all behind the header.
unfoldable pub handle_all : {W : Type 0} → (s mid : ℕ) → Handler W → List (List ℕ) → W → W
handle_all s mid handler [] w = w
handle_all s mid handler (msg ∷ msgs) w =
    handle_all s mid handler msgs
      (if service msg == s && method msg == mid then handler (view_of msg (drop 16 msg)) w else w)

method_bound : (raw : List ℕ) → method raw < 2 ^ 16
unfolding method read_u16_be
method_bound raw = omega arith

module _ {W : Type 0} (m : Manager W) (s mid : ℕ) (handler : Handler W)
    (free : m.dispatcher.handlers ≡ []) (small : mid < 2 ^ 16) (plain : mid ≢ any_method)
    (away : (s ≢ sd_service) ⊎ (mid ≢ sd_method)) where
  abbrev registered : Manager W
  registered = record m { dispatcher = register_handler m.dispatcher s mid handler }

  differs :
      (msg : List ℕ)
      → (service msg == s && method msg == mid) ≡ false
      → (service msg ≢ s) ⊎ ((method msg ≢ mid) × (mid ≢ any_method))
  differs msg t = elim (Bool-cases (service msg == s)) [
    | inl u ↦ inr ((λ e. ground (arith, t, u, e)), plain)
    | inr u ↦ inl (λ e. ground (arith, u, e))
  ]

  route_one :
      (msg : List ℕ) (w : W)
      → IsMessage msg
      → (route_message registered msg w).1 ≡ (
          if service msg == s && method msg == mid
          then handler (view_of msg (drop 16 msg)) w
          else w)
  unfolding message_size
  route_one msg w h = elim (Bool-cases (service msg == s && method msg == mid)) [
    | inl t ↦
        let es : service msg ≡ s = ground (arith, t) in
        let em : method msg ≡ mid = ground (arith, t) in
        let there : (service msg ≢ sd_service) ⊎ (method msg ≢ sd_method) = elim away [
          | inl ne ↦ inl (λ e. ne (sym es ∙ e))
          | inr ne ↦ inr (λ e. ne (sym em ∙ e))
        ] in
        let own =
          (λ i.
            (route_message
              (record m {
                dispatcher = register_handler m.dispatcher (sym es i) (sym em i) handler;
              })
              msg w).1)
          ∙ ap (λ (r : Bool × W). r.1)
              (route_message-register_handler m msg w handler (omega (arith, h.size)) there
                (method_bound msg)) in
        let all =
          take_all (payload_length msg) (drop 16 msg) (omega (arith, h.size, length-drop 16 msg)) in
        rw t (own ∙ ap (λ p. handler (view_of msg p) w) all)
    | inr t ↦
        let other =
          route_message-other m msg w s mid handler small (method_bound msg) (differs msg t) in
        rw t (ap (λ (r : Bool × W). r.1) (other ∙ no_calls m msg w free))
  ]

  route_all-messages_of :
      (items : List Item) (w : W)
      → route_all registered (messages_of items) w ≡ handle_all s mid handler (messages_of items) w
  unfolding route_all handle_all
  route_all-messages_of [] w = refl
  route_all-messages_of (message_item msg h ∷ items) w =
      ap (route_all registered (messages_of items)) (route_one msg w h)
      ∙ route_all-messages_of items _
  route_all-messages_of (cookie_item c h ∷ items) w = route_all-messages_of items w

-- Messages and magic cookies that a sender writes, cut by TCP into any chunks, taken out by the framer
-- and routed one after another: the only handler that is registered runs for exactly the messages of
-- its service and method, in the order in which they were written, each time with the whole message
-- and all that is behind its header as the payload. Its service and method are not those of service
-- discovery, and the method is no wildcard.
pub route_all-receive :
    {W : Type 0} (m : Manager W) (s mid : ℕ) (handler : Handler W) (items : List Item)
    (chunks : List (List ℕ)) (w : W)
    → m.dispatcher.handlers ≡ []
    → mid < 2 ^ 16
    → mid ≢ any_method
    → (s ≢ sd_service) ⊎ (mid ≢ sd_method)
    → concat chunks ≡ bytes_of items
    → route_all
        (record m { dispatcher = register_handler m.dispatcher s mid handler })
        (receive chunks empty).0
        w
      ≡ handle_all s mid handler (messages_of items) w
route_all-receive m s mid handler items chunks w free small plain away e =
    ap
      (λ msgs.
        route_all (record m { dispatcher = register_handler m.dispatcher s mid handler }) msgs w)
      (receive-items items chunks e)
    ∙ route_all-messages_of m s mid handler free small plain away items w
