-- ===== src/Route/Registry/Offers.antt =====
-- The registry as a finite function from service and instance to the information last offered.
use bsomeip.Common.{
  ℕ, ◌+◌, ◌≡◌, ◌↔◌, refl, sym, ap, ◌∙◌, subst, true, false, none, some, [], ◌∷◌, ◌==◌,
  if◌then◌else◌, Bool-cases, Option-cases, inl, inr, lookup, insert, erase, lookup-insert,
  lookup-erase, Distinct, Distinct-insert, Distinct-erase, length-insert_new, length-insert_old,
  length-erase_old, erase_absent, arith, All,
}
use mathlib.Core.List.{Memᴰ}
use mathlib.Core.List.Memᴰ.{head, tail}
use bsomeip.Route.Registry.{
  ServiceInfo, ServiceKey, key_of, Registry, find, offer, stop_offer, find_all, size, service_key,
  same_key, same_key_iff,
}

-- Each service and instance has one entry, and it is about them.
pub record WellFormed (services : Registry) : Type 0 where
  pub distinct : Distinct services
  pub filed : All (λ e. e.0 ≡ key_of e.1.service e.1.instance_id) services

filed-insert :
    (info : ServiceInfo) (services : Registry)
    → All (λ (e : ServiceKey × ServiceInfo). e.0 ≡ key_of e.1.service e.1.instance_id) services
    → All
        (λ (e : ServiceKey × ServiceInfo). e.0 ≡ key_of e.1.service e.1.instance_id)
        (insert (key_of info.service info.instance_id) info services)
unfolding insert
filed-insert info [] h = (refl, tt)
filed-insert info ((k, old) ∷ services) h =
    elim (Bool-cases (same_key (key_of info.service info.instance_id) k)) [
      | inl t ↦ rw t (refl, h.1)
      | inr t ↦ rw t (h.0, filed-insert info services h.1)
    ]

filed-erase :
    (k : ServiceKey) (services : Registry)
    → All (λ (e : ServiceKey × ServiceInfo). e.0 ≡ key_of e.1.service e.1.instance_id) services
    → All
        (λ (e : ServiceKey × ServiceInfo). e.0 ≡ key_of e.1.service e.1.instance_id)
        (erase k services)
unfolding erase
filed-erase k [] h = tt
filed-erase k ((a, old) ∷ services) h = elim (Bool-cases (same_key k a)) [
  | inl t ↦ rw t (filed-erase k services h.1)
  | inr t ↦ rw t (h.0, filed-erase k services h.1)
]

-- Both operations keep the registry well formed.
pub offer-WellFormed :
    (services : Registry) (info : ServiceInfo)
    → WellFormed services
    → WellFormed (offer services info).0
unfolding offer
offer-WellFormed services info wf = record {
  distinct = Distinct-insert _ info services wf.distinct;
  filed = filed-insert info services wf.filed;
}

pub stop_offer-WellFormed :
    (services : Registry) (s i : ℕ) → WellFormed services → WellFormed (stop_offer services s i).0
unfolding stop_offer
stop_offer-WellFormed services s i wf = record {
  distinct = Distinct-erase _ services wf.distinct;
  filed = filed-erase _ services wf.filed;
}

-- An offer answers for its own service and instance and for no other; its result says whether they
-- were new; and only then does the size grow.
pub offer_lem :
    (services : Registry) (info : ServiceInfo)
    → ((s i : ℕ)
        → find (offer services info).0 s i ≡ (
            if same_key (key_of s i) (key_of info.service info.instance_id)
            then some info
            else find services s i))
      × (((offer services info).1 ≡ true) ↔ (find services info.service info.instance_id ≡ none))
      × (size (offer services info).0 ≡ size services + (if (offer services info).1 then 1 else 0))
unfolding find offer size
offer_lem services info =
    let k = key_of info.service info.instance_id in
    (
      (λ s i. lookup-insert k (key_of s i) info services),
      ground arith,
      elim (Option-cases (lookup k services)) [
        | inl e ↦ rw e (length-insert_new k info services e ∙ omega arith)
        | inr (old, e) ↦ rw e (length-insert_old k info old services e ∙ omega arith)
      ],
    )

-- A withdrawn service and instance are not found any more, all others as before; the result says
-- whether they were there; and only then does the size shrink.
pub stop_offer_lem :
    (services : Registry) (s i : ℕ)
    → WellFormed services
    → ((t j : ℕ)
        → find (stop_offer services s i).0 t j
          ≡ (if same_key (key_of t j) (key_of s i) then none else find services t j))
      × (((stop_offer services s i).1 ≡ false) ↔ (find services s i ≡ none))
      × (size (stop_offer services s i).0 + (if (stop_offer services s i).1 then 1 else 0)
          ≡ size services)
unfolding find stop_offer size
stop_offer_lem services s i wf = (
  (λ t j. lookup-erase (key_of s i) (key_of t j) services),
  ground arith,
  elim (Option-cases (lookup (key_of s i) services)) [
    | inl e ↦ rw (e, erase_absent (key_of s i) services e) (omega arith)
    | inr (old, e) ↦ rw e (omega (arith, length-erase_old (key_of s i) old services wf.distinct e))
  ],
)

listed_found :
    (services : Registry) (s : ℕ) (info : ServiceInfo)
    → Distinct services
    → Memᴰ info (find_all services s)
    → (i : ℕ) × (find services s i ≡ some info)
unfolding find find_all lookup
listed_found [] s info d h = elim h [ ]
listed_found ((k, old) ∷ services) s info d h =
    let later = λ (h : Memᴰ info (find_all services s)).
      let (i, e) = listed_found services s info d.1 h in
      elim (Bool-cases (same_key (key_of s i) k))
        as (λ _. (i : ℕ) × (find ((k, old) ∷ services) s i ≡ some info)) [
          | inl t ↦
              let twice : lookup k services ≡ some info =
                subst (λ j. lookup j services ≡ some info) ((same_key_iff (key_of s i) k).0 t) e in
              ground (arith, d.0, twice)
          | inr t ↦ (i, rw t e)
        ] in
    elim (Bool-cases (k.service == s)) [
      | inl t ↦
          let mem : Memᴰ info (old ∷ find_all services s) =
            subst (λ b. Memᴰ info (if b then old ∷ find_all services s else find_all services s)) t
              h in
          elim mem [
            | head e ↦
                let at : same_key (key_of s k.instance_id) k ≡ true = ground arith in
                (k.instance_id, rw at (ap some (sym e)))
            | tail h ↦ later h
          ]
      | inr t ↦ later (
          subst (λ b. Memᴰ info (if b then old ∷ find_all services s else find_all services s)) t h)
    ]

found_listed :
    (services : Registry) (s i : ℕ) (info : ServiceInfo)
    → find services s i ≡ some info
    → Memᴰ info (find_all services s)
unfolding find find_all lookup
found_listed [] s i info e = ground arith
found_listed ((k, old) ∷ services) s i info e = elim (Bool-cases (same_key (key_of s i) k)) [
  | inl t ↦
      let here : (k.service == s) ≡ true = ground arith in
      let is : old ≡ info = ground (arith, t) in rw here (head (sym is))
  | inr t ↦
      let later : Memᴰ info (find_all services s) =
        found_listed services s i info (ground (arith, t)) in
      elim (Bool-cases (k.service == s)) [ inl u ↦ rw u (tail later) | inr u ↦ rw u later ]
]

-- `find_all` lists exactly what `find` finds for some instance of the service.
pub find_all_iff :
    (services : Registry) (s : ℕ) (info : ServiceInfo)
    → WellFormed services
    → Memᴰ info (find_all services s) ↔ ((i : ℕ) × (find services s i ≡ some info))
find_all_iff services s info wf =
    (listed_found services s info wf.distinct, (λ h. found_listed services s h.0 info h.1))
