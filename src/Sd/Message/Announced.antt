-- ===== src/Sd/Message/Announced.antt =====
-- What a receiver makes of the message of a tick.
use bsomeip.Common.{
  IsByte, ℕ, suc, ◌+◌, ◌%◌, ◌^◌, ◌≤◌, ◌<◌, ◌≡◌, refl, sym, ap, subst, Bool, true, List, [], ◌∷◌,
  ◌++◌, map, length, length-append, length-map, take, drop, All, All-append, Bool-cases, inl, inr,
  ◌==◌, arith,
}
use bsomeip.Sd.Entry.{SdEntry, offer_service}
use bsomeip.Sd.Entry.RoundTrip.{Fits}
use bsomeip.Sd.Option.{SdOption}
use bsomeip.Sd.Option.RoundTrip.{OptionFits}
use bsomeip.Sd.Discovery.{
  SdConfig, OfferState, Discovery, SdMessage, due, offer_entry, stop_entry, tick_offers, tick,
  messages_of,
}
use bsomeip.Sd.Discovery.Announced.{due_offers, option_count, AllOffers, tick_offers-AllOffers}
use bsomeip.Sd.Message.{ok, build_sd_message, deserialize_sd}
use bsomeip.Sd.Message.Serialize.{total_of}
use bsomeip.Sd.Message.Build.{build_sd_message_lem}

-- An offer whose numbers are of their types, and whose options an entry can count.
pub record OfferFits (o : OfferState SdOption) : Type 0 where
  pub ids : (o.service < 2 ^ 16) × (o.instance_id < 2 ^ 16)
  pub versions : IsByte o.major_version × (o.minor_version < 2 ^ 32)
  pub options_fit : All OptionFits o.options
  pub few : length o.options < 2 ^ 4

offer_Fits :
    (o : OfferState SdOption) (index count ttl : ℕ)
    → OfferFits o
    → IsByte index
    → count < 2 ^ 4
    → ttl < 2 ^ 24
    → Fits (record {
      entry_type = offer_service;
      index_1st = index;
      index_2nd = 0;
      num_options_1st = count;
      num_options_2nd = 0;
      service = o.service;
      instance_id = o.instance_id;
      major_version = o.major_version;
      ttl = ttl;
      minor_version = o.minor_version;
      eventgroup = 0;
    })
offer_Fits o index count ttl h hi hc ht = record {
  bytes = (omega arith, hi, omega arith, h.versions.0);
  counts = (hc, omega arith);
  ids = h.ids;
  ttl_24 = ht;
  service_entry = λ e. (h.versions.1, refl);
  eventgroup_entry = λ e. ground arith;
}

stop_entries-Fits :
    (os : List (OfferState SdOption)) → All OfferFits os → All Fits (map stop_entry os)
stop_entries-Fits [] h = tt
stop_entries-Fits (o ∷ os) (h, hs) =
    (offer_Fits o 0 0 0 h (omega arith) (omega arith) (omega arith), stop_entries-Fits os hs)

offer_entry-Fits :
    (config : SdConfig) (o : OfferState SdOption) (before : ℕ)
    → OfferFits o
    → config.offer_ttl < 2 ^ 24
    → Fits (offer_entry config o before)
offer_entry-Fits config o before h ttl = elim (Bool-cases (length o.options == 0)) [
  | inl t ↦ rw t (offer_Fits o 0 0 config.offer_ttl h (omega arith) (omega arith) ttl)
  | inr t ↦
      let count : length o.options % 2 ^ 8 ≡ length o.options = omega (arith, h.few) in
      rw (t, count)
        (offer_Fits o (before % 2 ^ 8) (length o.options) config.offer_ttl h (omega arith) h.few
          ttl)
]

tick_offers-Fits :
    (config : SdConfig) (now : ℕ) (offers : List (OfferState SdOption)) (options : List SdOption)
    → All OfferFits offers
    → config.offer_ttl < 2 ^ 24
    → All OptionFits options
    → let (entries, all, later) = tick_offers config now offers options in
      All Fits entries × All OptionFits all
unfolding tick_offers
tick_offers-Fits config now [] options h ttl fo = (tt, fo)
tick_offers-Fits config now (o ∷ offers) options (h, hs) ttl fo =
    elim (Bool-cases (due o.timer now)) [
      | inl t ↦
          let (e, a) =
            tick_offers-Fits config now offers (options ++ o.options) hs ttl
              (All-append OptionFits options o.options fo h.options_fit) in
          rw t ((offer_entry-Fits config o (length options) h ttl, e), a)
      | inr t ↦ rw t (tick_offers-Fits config now offers options hs ttl fo)
    ]

abbrev first_of : List (SdMessage SdOption) → SdMessage SdOption → SdMessage SdOption
first_of [] d = d
first_of (m ∷ ms) d = m

-- The first message of a list that starts with one for these entries.
messages_of_first :
    (reboot : Bool) (entries : List SdEntry) (options : List SdOption)
    (more rest : List (SdMessage SdOption)) (msg : SdMessage SdOption)
    → 1 ≤ length entries
    → messages_of reboot entries options ++ more ≡ msg ∷ rest
    → msg ≡ record { reboot = reboot; unicast = true; entries = entries; options = options }
messages_of_first reboot [] options more rest msg h e = absurd (omega arith)
messages_of_first reboot (x ∷ xs) options more rest msg h e = sym (ap (λ ms. first_of ms msg) e)

length-AllOffers :
    (config : SdConfig) (now : ℕ) (all : List SdOption) (es : List SdEntry)
    (os : List (OfferState SdOption))
    → AllOffers config now all es os
    → length es ≡ length os
length-AllOffers config now all [] [] h = refl
length-AllOffers config now all [] (o ∷ os) h = elim h [ ]
length-AllOffers config now all (e ∷ es) [] h = elim h [ ]
length-AllOffers config now all (e ∷ es) (o ∷ os) (h, hs) =
    ap suc (length-AllOffers config now all es os hs)

-- When an offer is due or one was stopped, the first message of a tick, built into a buffer with room
-- for it, is read back by a receiver as exactly this message. It has the reboot flag of the state and
-- the unicast flag. Its entries are one that stops each stopped offer, and then one for each due
-- offer, in order, with the offer's service, instance and versions and the time to live of the
-- configuration; the entry's run of the options that were read is the offer's own. The stopped offers
-- are announced this once. The numbers of the offers are of their types, each has fewer
-- than 16 options, and all together fewer than 256.
pub tick-build_sd_message :
    (d : Discovery SdOption) (now session : ℕ) (buf : List ℕ) (msg : SdMessage SdOption)
    (rest : List (SdMessage SdOption))
    → All OfferFits d.offers
    → All OfferFits d.pending_stop_offers
    → d.config.offer_ttl < 2 ^ 24
    → option_count d.config now d.offers < 2 ^ 8
    → 1 ≤ length d.pending_stop_offers + length (due_offers d.config now d.offers)
    → (tick d now).0 ≡ msg ∷ rest
    → (total_of msg + 8 < 2 ^ 32) × (session < 2 ^ 16) × (16 + total_of msg ≤ length buf)
    → let (out, n) = build_sd_message buf msg session in
      (deserialize_sd (drop 16 (take n out)) ≡ ok msg)
      × (msg.reboot ≡ d.reboot_flag)
      × (msg.unicast ≡ true)
      × ((es : List SdEntry) × (msg.entries ≡ map stop_entry d.pending_stop_offers ++ es)
          × AllOffers d.config now msg.options es (due_offers d.config now d.offers))
      × ((tick d now).1.pending_stop_offers ≡ [])
unfolding tick
tick-build_sd_message d now session buf msg rest fo fs ttl few some_due first (small, hs, room) =
    let (entries, all, later) = tick_offers d.config now d.offers [] in
    let offered = tick_offers-AllOffers d.config now d.offers [] (omega arith) in
    let (fe, fopt) = tick_offers-Fits d.config now d.offers [] fo ttl tt in
    let stops = map stop_entry d.pending_stop_offers in
    let enough : 1 ≤ length (stops ++ entries) = omega (
      arith,
      length-append stops entries,
      length-map d.pending_stop_offers (stop_entry {O = SdOption}),
      length-AllOffers d.config now all entries (due_offers d.config now d.offers) offered,
    ) in
    let is : msg ≡ record {
      reboot = d.reboot_flag;
      unicast = true;
      entries = stops ++ entries;
      options = all;
    } =
      messages_of_first d.reboot_flag (stops ++ entries) all _ rest msg enough first in
    let entries_fit =
      subst (λ (m : SdMessage SdOption). All Fits m.entries) (sym is)
        (All-append Fits stops entries (stop_entries-Fits d.pending_stop_offers fs) fe) in
    let options_fit = subst (λ (m : SdMessage SdOption). All OptionFits m.options) (sym is) fopt in
    (
      (build_sd_message_lem buf msg session entries_fit options_fit small hs room).2,
      ap (λ (m : SdMessage SdOption). m.reboot) is,
      ap (λ (m : SdMessage SdOption). m.unicast) is,
      (
        entries,
        ap (λ (m : SdMessage SdOption). m.entries) is,
        subst
            (λ (m : SdMessage SdOption).
              AllOffers d.config now m.options entries (due_offers d.config now d.offers))
            (sym is) offered,
      ),
      refl,
    )
