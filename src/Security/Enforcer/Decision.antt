-- ===== src/Security/Enforcer/Decision.antt =====
-- What the enforcer does with a message is what the policy says of the identifiers in its header.
use bsomeip.Common.{
  ℕ, ◌^◌, ◌≤◌, ◌<◌, ◌≡◌, ◌↔◌, refl, true, false, List, [], ◌∷◌, ◌++◌, length, length-append, All,
  IsByte, ltb, not, if◌then◌else◌, arith,
}
use bsomeip.Wire.HeaderView
use bsomeip.Wire.HeaderView.{header_size}
use bsomeip.Wire.Header.{make, make-ids, length-make}
use bsomeip.Security.Policy.{Action, allow, deny, Rule, is_allow, evaluate, is_allowed}
use bsomeip.Security.Policy.FirstMatch.{Decides, evaluate_iff}
use bsomeip.Security.Enforcer.{Completion, set_value, set_error, enforce}

is_allowed_iff :
    (policy : List Rule) (c s i m : ℕ)
    → (is_allowed policy c s i m ≡ true) ↔ (evaluate policy c s i m ≡ allow)
unfolding is_allowed
is_allowed_iff policy c s i m = ground arith

-- A message is forwarded exactly when it holds a whole header and the first rule that matches the
-- identifiers read from it, with the enforcer's instance, allows it.
pub enforce_iff :
    (policy : List Rule) (instance_id : ℕ) (msg : List ℕ)
    → (enforce policy instance_id msg ≡ set_value msg) ↔ (
        (16 ≤ length msg)
        × Decides
            (HeaderView.client msg)
            (HeaderView.service msg)
            instance_id
            (HeaderView.method msg)
            policy
            allow)
unfolding enforce
enforce_iff policy instance_id msg =
    let c = HeaderView.client msg in
    let s = HeaderView.service msg in
    let m = HeaderView.method msg in
    ground
      (arith, is_allowed_iff policy c s instance_id m, evaluate_iff c s instance_id m policy allow)

-- What the enforcer makes of an action.
abbrev pub outcome : Action → (client service method : ℕ) → List ℕ → Completion
outcome allow c s m msg = set_value msg
outcome deny c s m msg = set_error c s m

decided :
    (a : Action) (c s m : ℕ) (msg : List ℕ)
    → (if not (is_allow a) then set_error c s m else set_value msg) ≡ outcome a c s m msg
decided allow c s m msg = refl
decided deny c s m msg = refl

-- A message whose header was made for a service, a method and a client gets the policy's action for
-- these three and the enforcer's instance; a denial names them.
pub enforce-make :
    (policy : List Rule) (instance_id s m c n i t r : ℕ) (payload : List ℕ)
    → All (λ x. x < 2 ^ 16) (s ∷ m ∷ c ∷ n ∷ [])
    → All IsByte (i ∷ t ∷ r ∷ [])
    → enforce policy instance_id (make s m c n i t r ++ payload)
      ≡ outcome (evaluate policy c s instance_id m) c s m (make s m c n i t r ++ payload)
unfolding enforce is_allowed
enforce-make policy instance_id s m c n i t r payload h hb =
    let msg = make s m c n i t r ++ payload in
    let (service_is, method_is, client_is, _) = make-ids s m c n i t r payload h hb in
    let long : ltb (length msg) header_size ≡ false =
      ground (arith, length-append (make s m c n i t r) payload, length-make s m c n i t r) in
    rw (long, service_is, method_is, client_is)
      (decided (evaluate policy c s instance_id m) c s m msg)
