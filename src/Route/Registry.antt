-- ===== src/Route/Registry.antt =====
-- include/bsomeip/route/registry.hpp: the offered services by service and instance. The locks make
-- each operation one step. The order of the unordered map is that of first insertion here; no
-- theorem depends on it.
pub mod Offers
use bsomeip.Common.{
  ℕ, ◌≡◌, ◌↔◌, refl, ap, Bool, true, false, ◌&&◌, Option, none, some, List, [], ◌∷◌, length, ◌==◌,
  ==_iff, if◌then◌else◌, Key, lookup, insert, erase, arith,
}

pub data L4Protocol : Type 0 where
  tcp udp : L4Protocol

pub record EndpointInfo : Type 0 where
  pub protocol : L4Protocol
  pub address : List ℕ
  pub port : ℕ

pub record ServiceInfo : Type 0 where
  pub service : ℕ
  pub instance_id : ℕ
  pub major_version : ℕ
  pub minor_version : ℕ
  pub ttl : ℕ
  pub tcp_endpoint : Option EndpointInfo
  pub udp_endpoint : Option EndpointInfo
  pub is_local : Bool

pub record ServiceKey : Type 0 where
  pub service : ℕ
  pub instance_id : ℕ

abbrev pub key_of : (service instance_id : ℕ) → ServiceKey
key_of s i = record { service = s; instance_id = i }

abbrev pub same_key : ServiceKey → ServiceKey → Bool
same_key a b = a.service == b.service && a.instance_id == b.instance_id

pub same_key_iff : (a b : ServiceKey) → (same_key a b ≡ true) ↔ (a ≡ b)
same_key_iff a b = (
  (λ h.
      let s : a.service ≡ b.service = ground arith in
      let n : a.instance_id ≡ b.instance_id = ground arith in
      λ i. record { service = s i; instance_id = n i }),
  (λ e.
      let s : a.service ≡ b.service = ap (λ (k : ServiceKey). k.service) e in
      let n : a.instance_id ≡ b.instance_id = ap (λ (k : ServiceKey). k.instance_id) e in
      ground arith),
)

instance abbrev pub service_key : Key ServiceKey
service_key = record { same = same_key; same_iff = same_key_iff }

-- `services_`
abbrev pub Registry : Type 0
Registry = List (ServiceKey × ServiceInfo)

abbrev is_none : Option ServiceInfo → Bool
is_none none = true
is_none (some _) = false

unfoldable pub find : Registry → (service instance_id : ℕ) → Option ServiceInfo
unfolding lookup
find services s i = lookup (key_of s i) services

-- True if newly inserted, false if updated.
unfoldable pub offer : Registry → ServiceInfo → Registry × Bool
unfolding lookup insert
offer services info =
    let key = key_of info.service info.instance_id in
    (insert key info services, is_none (lookup key services))

-- True if it existed.
unfoldable pub stop_offer : Registry → (service instance_id : ℕ) → Registry × Bool
unfolding lookup erase
stop_offer services s i =
    let key = key_of s i in
    (erase key services, (if is_none (lookup key services) then false else true))

unfoldable pub find_all : Registry → ℕ → List ServiceInfo
find_all [] s = []
find_all ((key, info) ∷ services) s =
    let rest = find_all services s in if key.service == s then info ∷ rest else rest

-- `for_each`, over a state that its function changes.
unfoldable pub for_each : {W : Type 0} → Registry → (ServiceInfo → W → W) → W → W
for_each [] fn w = w
for_each ((key, info) ∷ services) fn w = for_each services fn (fn info w)

unfoldable pub size : Registry → ℕ
size services = length services

unfoldable pub clear : Registry → Registry
clear services = []
