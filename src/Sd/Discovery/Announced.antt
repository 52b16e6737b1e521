-- ===== src/Sd/Discovery/Announced.antt =====
-- What a tick announces of the offers.
use bsomeip.Common.{
  ℕ, ◌+◌, ◌%◌, ◌^◌, ◌<◌, ◌≡◌, refl, sym, ◌∙◌, subst, List, [], ◌∷◌, ◌++◌, append-nil, append_assoc,
  length, length-append, take, drop, take-append, drop-append, Bool-cases, inl, inr, ◌==◌,
  if◌then◌else◌, arith,
}
use bsomeip.Sd.Entry.{SdEntry, offer_service}
use bsomeip.Sd.Discovery.{SdConfig, OfferState, due, offer_entry, tick_offers}

no_options : {O : Type 0} (options : List O) → length options ≡ 0 → [] ≡ options
no_options [] e = refl
no_options (o ∷ options) e = absurd (omega arith)

own_run :
    {O : Type 0} (before own behind : List O)
    → take (length own) (drop (length before) ((before ++ own) ++ behind)) ≡ own
own_run before own behind =
    rw (append_assoc before own behind, drop-append (length before) before (own ++ behind) refl)
      (take-append (length own) own behind refl)

module _ {O : Type 0} (config : SdConfig) (now : ℕ) where
  abbrev pub due_offers : List (OfferState O) → List (OfferState O)
  due_offers [] = []
  due_offers (o ∷ offers) =
      let rest = due_offers offers in if due o.timer now then o ∷ rest else rest

  abbrev pub option_count : List (OfferState O) → ℕ
  option_count [] = 0
  option_count (o ∷ offers) = length o.options + option_count offers

  -- The entry offers the service in the offer's versions with the time to live of the configuration,
  -- and its run of options is that of the offer.
  pub record Offers (all : List O) (e : SdEntry) (o : OfferState O) : Type 0 where
    pub kind : e.entry_type ≡ offer_service
    pub service : e.service ≡ o.service
    pub instance_id : e.instance_id ≡ o.instance_id
    pub major_version : e.major_version ≡ o.major_version
    pub minor_version : e.minor_version ≡ o.minor_version
    pub ttl : e.ttl ≡ config.offer_ttl
    pub run : take e.num_options_1st (drop e.index_1st all) ≡ o.options

  -- Entry by entry.
  abbrev pub AllOffers : (all : List O) → List SdEntry → List (OfferState O) → Type 0
  AllOffers all [] [] = Unit
  AllOffers all [] (o ∷ offers) = ⊥
  AllOffers all (e ∷ entries) [] = ⊥
  AllOffers all (e ∷ entries) (o ∷ offers) = Offers all e o × AllOffers all entries offers

  -- Options are only added.
  tick_offers_more :
      (offers : List (OfferState O)) (options : List O)
      → (more : List O) × ((tick_offers config now offers options).1 ≡ options ++ more)
  unfolding tick_offers
  tick_offers_more [] options = ([], sym (append-nil options))
  tick_offers_more (o ∷ offers) options = elim (Bool-cases (due o.timer now)) [
    | inl t ↦
        let (more, e) = tick_offers_more offers (options ++ o.options) in
        rw t (o.options ++ more, e ∙ append_assoc options o.options more)
    | inr t ↦ rw t (tick_offers_more offers options)
  ]

  offer_entry-Offers :
      (o : OfferState O) (options more : List O)
      → length options + length o.options < 2 ^ 8
      → Offers ((options ++ o.options) ++ more) (offer_entry config o (length options)) o
  offer_entry-Offers o options more h = elim (Bool-cases (length o.options == 0)) [
    | inl t ↦ rw t (record {
      kind = refl;
      service = refl;
      instance_id = refl;
      major_version = refl;
      minor_version = refl;
      ttl = refl;
      run = no_options o.options (ground (arith, t));
    })
    | inr t ↦
        let index : length options % 2 ^ 8 ≡ length options = omega arith in
        let count : length o.options % 2 ^ 8 ≡ length o.options = omega arith in
        rw (t, index, count)
          (record {
            kind = refl;
            service = refl;
            instance_id = refl;
            major_version = refl;
            minor_version = refl;
            ttl = refl;
            run = own_run options o.options more;
          })
  ]

  -- A tick announces the offers that are due, in order, one entry each, as long as the options of
  -- all offers are fewer than 256: an entry's run of options in the message is the offer's own.
  pub tick_offers-AllOffers :
      (offers : List (OfferState O)) (options : List O)
      → length options + option_count offers < 2 ^ 8
      → let (entries, all, later) = tick_offers config now offers options in
        AllOffers all entries (due_offers offers)
  unfolding tick_offers
  tick_offers-AllOffers [] options h = tt
  tick_offers-AllOffers (o ∷ offers) options h = elim (Bool-cases (due o.timer now)) [
    | inl t ↦
        let (more, e) = tick_offers_more offers (options ++ o.options) in
        let fits : length (options ++ o.options) + option_count offers < 2 ^ 8 =
          omega (arith, length-append options o.options) in
        rw t (
          subst (λ all. Offers all (offer_entry config o (length options)) o) (sym e)
              (offer_entry-Offers o options more (omega arith)),
          tick_offers-AllOffers offers (options ++ o.options) fits,
        )
    | inr t ↦ rw t (tick_offers-AllOffers offers options (omega arith))
  ]
