-- ===== src/Security/Policy.antt =====
-- include/bsomeip/security/policy.hpp: rules with wildcards, the first match wins.
pub mod FirstMatch
use bsomeip.Common.{
  ℕ, Bool, true, false, ◌&&◌, ◌||◌, List, [], ◌∷◌, ◌++◌, length, ◌==◌, if◌then◌else◌,
}
use bsomeip.Wire.Wildcards.{any_client, any_service, any_instance, any_method}

pub data Action : Type 0 where
  allow deny : Action

pub record Rule : Type 0 where
  pub client : ℕ
  pub service : ℕ
  pub instance_id : ℕ
  pub method : ℕ
  pub act : Action

-- `c`, `s`, `i` and `m` are the identifiers of a request.
unfoldable pub matches : Rule → (c s i m : ℕ) → Bool
matches r c s i m =
    (r.client == any_client || r.client == c)
    && (r.service == any_service || r.service == s)
    && (r.instance_id == any_instance || r.instance_id == i)
    && (r.method == any_method || r.method == m)

abbrev rule_of : (client service instance_id method : ℕ) → Action → Rule
rule_of c s i m a = record { client = c; service = s; instance_id = i; method = m; act = a }

abbrev pub allow_all : Rule
allow_all = rule_of any_client any_service any_instance any_method allow

abbrev pub deny_all : Rule
deny_all = rule_of any_client any_service any_instance any_method deny

abbrev pub allow_client_service : (client service : ℕ) → Rule
allow_client_service client service = rule_of client service any_instance any_method allow

abbrev pub deny_client : ℕ → Rule
deny_client client = rule_of client any_service any_instance any_method deny

abbrev pub allow_service_method : (service method : ℕ) → Rule
allow_service_method service method = rule_of any_client service any_instance method allow

-- The policy is its vector of rules. `add` appends.
unfoldable pub add : List Rule → Rule → List Rule
add rules r = rules ++ r ∷ []

unfoldable pub evaluate : List Rule → (client service instance_id method : ℕ) → Action
unfolding matches
evaluate [] c s i m = deny
evaluate (r ∷ rules) c s i m =
    let rest = evaluate rules c s i m in if matches r c s i m then r.act else rest

abbrev pub is_allow : Action → Bool
is_allow allow = true
is_allow deny = false

unfoldable pub is_allowed : List Rule → (client service instance_id method : ℕ) → Bool
unfolding evaluate
is_allowed rules c s i m = is_allow (evaluate rules c s i m)

unfoldable pub rule_count : List Rule → ℕ
rule_count rules = length rules

unfoldable pub clear : List Rule → List Rule
clear rules = []
