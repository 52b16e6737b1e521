-- ===== src/Route/Dispatcher/Handlers.antt =====
-- Which handlers a message, a notification or a change of availability reaches.
use bsomeip.Common.{
  ℕ, ◌^◌, ◌<◌, ◌≡◌, ◌≢◌, ◌⊎◌, refl, ap, ◌∙◌, true, Option, none, some, List, [], ◌∷◌, ◌++◌, lookup,
  insert, lookup-insert_self, lookup-insert_ne, lookup-erase_self, lookup-erase_ne, ℕ_key, arith,
}
use bsomeip.Wire.HeaderView.{service, method}
use bsomeip.Wire.Wildcards.{any_method}
use bsomeip.Route.Dispatcher.{
  view_of, pack_key, pack_eg_key, Handler, Dispatcher, bucket, call_first, run_all,
  register_handler, subscribe, unsubscribe, dispatch, notify_subscribers,
}

-- 16-bit identifiers are packed without loss.
pub pack_key-injective :
    (s m t n : ℕ) → m < 2 ^ 16 → n < 2 ^ 16 → pack_key s m ≡ pack_key t n → (s ≡ t) × (m ≡ n)
unfolding pack_key
pack_key-injective s m t n hm hn e = (omega arith, omega arith)

pack_eg_key-injective :
    (s m t n : ℕ) → m < 2 ^ 16 → n < 2 ^ 16 → pack_eg_key s m ≡ pack_eg_key t n → (s ≡ t) × (m ≡ n)
unfolding pack_eg_key
pack_eg_key-injective s m t n hm hn e = (omega arith, omega arith)

abbrev entries : {A : Type 0} → Option (List A) → List A
entries o = elim o [ none ↦ [] | some hs ↦ hs ]

module _ {W : Type 0} (d : Dispatcher W) (hdr payload : List ℕ) (w : W) where
  -- A message goes to the handler registered last for its service and method, once, and a message of
  -- another service, or of another method when the registered one is no wildcard, goes where it went
  -- before.
  pub dispatch-register_handler :
      (s m : ℕ) (handler : Handler W)
      → m < 2 ^ 16
      → method hdr < 2 ^ 16
      → (service hdr ≡ s
          → method hdr ≡ m
          → dispatch (register_handler d s m handler) hdr payload w
            ≡ (true, handler (view_of hdr payload) w))
        × ((service hdr ≢ s) ⊎ ((method hdr ≢ m) × (m ≢ any_method))
            → dispatch (register_handler d s m handler) hdr payload w ≡ dispatch d hdr payload w)
  unfolding dispatch register_handler
  dispatch-register_handler s m handler hm hh =
      let hs = d.handlers in
      let k = pack_key s m in
      (
        (λ es em.
            let own : lookup (pack_key (service hdr) (method hdr)) (insert k handler hs)
                ≡ some handler =
              rw (es, em) (lookup-insert_self k handler hs) in
            ap
              (λ o.
                call_first o (lookup (pack_key (service hdr) any_method) (insert k handler hs))
                  (view_of hdr payload) w)
              own),
        (λ away.
            let own =
              lookup-insert_ne k (pack_key (service hdr) (method hdr)) handler hs
                (λ e. grind (arith, pack_key-injective (service hdr) (method hdr) s m hh hm e)) in
            let wild = lookup-insert_ne k (pack_key (service hdr) any_method) handler hs (λ e.
              grind (arith, pack_key-injective (service hdr) any_method s m (omega arith) hm e)) in
            λ i. call_first (own i) (wild i) (view_of hdr payload) w),
      )

  -- A handler for the wildcard method gets the messages of its service that have no handler of
  -- their own, and only those.
  pub dispatch-wildcard :
      (s : ℕ) (handler : Handler W)
      → service hdr ≡ s
      → method hdr < 2 ^ 16
      → method hdr ≢ any_method
      → dispatch (register_handler d s any_method handler) hdr payload w
        ≡ call_first
            (lookup (pack_key s (method hdr)) d.handlers)
            (some handler)
            (view_of hdr payload)
            w
  unfolding dispatch register_handler
  dispatch-wildcard s handler es hm ne =
      let hs = d.handlers in
      let k = pack_key s any_method in
      let own : lookup (pack_key (service hdr) (method hdr)) (insert k handler hs)
          ≡ lookup (pack_key s (method hdr)) hs =
        rw es (
          lookup-insert_ne k (pack_key s (method hdr)) handler hs
            (λ e. ne ((pack_key-injective s (method hdr) s any_method hm (omega arith) e).1))) in
      let wild : lookup (pack_key (service hdr) any_method) (insert k handler hs) ≡ some handler =
        rw es (lookup-insert_self k handler hs) in
      λ i. call_first (own i) (wild i) (view_of hdr payload) w

  run_all-append :
      (hs : List (Handler W)) (h : Handler W) (v : W)
      → run_all (hs ++ h ∷ []) (view_of hdr payload) v
        ≡ h (view_of hdr payload) (run_all hs (view_of hdr payload) v)
  run_all-append [] h v = refl
  run_all-append (g ∷ hs) h v = run_all-append hs h (g (view_of hdr payload) v)

  -- A new subscriber is served last, after all that subscribed to the same eventgroup before it; the
  -- other eventgroups keep their subscribers.
  pub notify_subscribers-subscribe :
      (s e t f : ℕ) (handler : Handler W)
      → e < 2 ^ 16
      → f < 2 ^ 16
      → (notify_subscribers (subscribe d s e handler) s e hdr payload w
          ≡ handler (view_of hdr payload) (notify_subscribers d s e hdr payload w))
        × ((t ≢ s) ⊎ (f ≢ e)
            → notify_subscribers (subscribe d s e handler) t f hdr payload w
              ≡ notify_subscribers d t f hdr payload w)
  unfolding notify_subscribers subscribe
  notify_subscribers-subscribe s e t f handler he hf =
      let k = pack_eg_key s e in
      let old = bucket k d.subscriptions in
      let subs = insert k (old ++ handler ∷ []) d.subscriptions in
      (
        ap (λ o. run_all (entries o) (view_of hdr payload) w)
              (lookup-insert_self k (old ++ handler ∷ []) d.subscriptions)
            ∙ run_all-append old handler w,
        (λ away.
            ap (λ o. run_all (entries o) (view_of hdr payload) w)
              (lookup-insert_ne k (pack_eg_key t f) (old ++ handler ∷ []) d.subscriptions
                (λ q. grind (arith, pack_eg_key-injective t f s e hf he q)))),
      )

  -- After `unsubscribe` no one is served, and the other eventgroups keep their subscribers.
  pub notify_subscribers-unsubscribe :
      (s e t f : ℕ)
      → e < 2 ^ 16
      → f < 2 ^ 16
      → (notify_subscribers (unsubscribe d s e) s e hdr payload w ≡ w)
        × ((t ≢ s) ⊎ (f ≢ e)
            → notify_subscribers (unsubscribe d s e) t f hdr payload w
              ≡ notify_subscribers d t f hdr payload w)
  unfolding notify_subscribers unsubscribe
  notify_subscribers-unsubscribe s e t f he hf =
      let k = pack_eg_key s e in
      (
        ap (λ o. run_all (entries o) (view_of hdr payload) w) (lookup-erase_self k d.subscriptions),
        (λ away.
            ap (λ o. run_all (entries o) (view_of hdr payload) w)
              (lookup-erase_ne k (pack_eg_key t f) d.subscriptions
                (λ q. grind (arith, pack_eg_key-injective t f s e hf he q)))),
      )
