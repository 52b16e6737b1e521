-- ===== src/Security/Enforcer.antt =====
-- include/bsomeip/security/enforcer.hpp: what the receiver of `enforce_sender` does with a message.
-- Errors and stops of the upstream pass through.
pub mod Decision
use bsomeip.Common.{ℕ, List, length, ltb, not, if◌then◌else◌}
use bsomeip.Wire.HeaderView.{header_size, client, service, method}
use bsomeip.Security.Policy.{Rule, is_allowed}

pub data Completion : Type 0 where
  set_value : List ℕ → Completion
  -- `security_error`
  set_error : (client service method : ℕ) → Completion

unfoldable pub enforce : List Rule → (instance_id : ℕ) → List ℕ → Completion
unfolding is_allowed client service method
enforce policy instance_id msg =
    let c = client msg in
    let s = service msg in
    let m = method msg in
    if ltb (length msg) header_size
    then set_error 0 0 0
    else if not (is_allowed policy c s instance_id m)
    then set_error c s m
    else set_value msg
