-- ===== src/Route/Manager/Routing.antt =====
-- The way of a message through the routing manager.
use bsomeip.Common.{
  [], lookup, ℕ, ◌+◌, ◌^◌, ◌≤◌, ◌<◌, ◌≡◌, ◌≢◌, ◌⊎◌, refl, ◌∙◌, true, false, Bool-cases, ltb, ◌&&◌,
  ◌==◌, inl, inr, List, length, length-drop, take, drop, arith,
}
use bsomeip.Wire.HeaderView.{header_size, payload_length, service, method}
use bsomeip.Wire.Wildcards.{any_method}
use bsomeip.Route.Dispatcher.{Handler, view_of, register_handler, dispatch}
use bsomeip.Route.Dispatcher.Handlers.{dispatch-register_handler}
use bsomeip.Route.Manager.{Manager, route_message, sd_service, sd_method}

-- A whole message that is none of service discovery goes to the dispatcher.
dispatched_whole :
    {W : Type 0} (m : Manager W) (raw : List ℕ) (w : W)
    → 16 + payload_length raw ≤ length raw
    → (service raw ≢ sd_service) ⊎ (method raw ≢ sd_method)
    → route_message m raw w
      ≡ dispatch m.dispatcher raw (take (payload_length raw) (drop header_size raw)) w
unfolding route_message
dispatched_whole m raw w h away = ground (arith, length-drop header_size raw)

-- A whole message reaches the handler registered for its service and method, which runs once with
-- the payload that the length field covers.
pub route_message-register_handler :
    {W : Type 0} (m : Manager W) (raw : List ℕ) (w : W) (handler : Handler W)
    → 16 + payload_length raw ≤ length raw
    → (service raw ≢ sd_service) ⊎ (method raw ≢ sd_method)
    → method raw < 2 ^ 16
    → route_message
        (record m { dispatcher = register_handler m.dispatcher (service raw) (method raw) handler })
        raw
        w
      ≡ (true, handler (view_of raw (take (payload_length raw) (drop header_size raw))) w)
route_message-register_handler m raw w handler h away hm =
    let d = register_handler m.dispatcher (service raw) (method raw) handler in
    let payload = take (payload_length raw) (drop header_size raw) in
    dispatched_whole (record m { dispatcher = d }) raw w h away
    ∙ (dispatch-register_handler m.dispatcher raw payload w (service raw) (method raw) handler hm
          hm).0
        refl refl

-- A registration for another service or method leaves the way of a message.
pub route_message-other :
    {W : Type 0} (m : Manager W) (raw : List ℕ) (w : W) (s mid : ℕ) (handler : Handler W)
    → mid < 2 ^ 16
    → method raw < 2 ^ 16
    → (service raw ≢ s) ⊎ ((method raw ≢ mid) × (mid ≢ any_method))
    → route_message (record m { dispatcher = register_handler m.dispatcher s mid handler }) raw w
      ≡ route_message m raw w
unfolding route_message
route_message-other m raw w s mid handler hm hr ne =
    let same =
      (dispatch-register_handler m.dispatcher raw (take (payload_length raw) (drop 16 raw)) w s mid
          handler hm hr).1
        ne in
    elim (Bool-cases (ltb (length raw) 16)) [
      | inl a ↦ rw a refl
      | inr a ↦ elim (Bool-cases (ltb (length (drop 16 raw)) (payload_length raw))) [
        | inl b ↦ rw (a, b) refl
        | inr b ↦ elim (Bool-cases (service raw == sd_service && method raw == sd_method)) [
          | inl c ↦ rw (a, b, c) refl
          | inr c ↦ rw (a, b, c) same
        ]
      ]
    ]

-- Without handlers nothing is called, whatever the subscriptions.
pub no_calls :
    {W : Type 0} (m : Manager W) (raw : List ℕ) (w : W)
    → m.dispatcher.handlers ≡ []
    → route_message m raw w ≡ (false, w)
unfolding route_message dispatch lookup
no_calls m raw w none_there = elim (Bool-cases (ltb (length raw) 16)) [
  | inl a ↦ rw a refl
  | inr a ↦ elim (Bool-cases (ltb (length (drop 16 raw)) (payload_length raw))) [
    | inl b ↦ rw (a, b) refl
    | inr b ↦ elim (Bool-cases (service raw == sd_service && method raw == sd_method)) [
      | inl c ↦ rw (a, b, c) refl
      | inr c ↦ rw (a, b, c, none_there) refl
    ]
  ]
]
