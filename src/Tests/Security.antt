-- ===== src/Tests/Security.antt =====
-- include/bsomeip/security at concrete inputs.
use bsomeip.Common.{ℕ, ◌≤◌, ◌≡◌, ◌↔◌, refl, List, [], ◌∷◌, ◌++◌, length, replicate, arith}
use bsomeip.Wire.HeaderView
use bsomeip.Wire.Header.{make}
use bsomeip.Security.Policy.{allow, Rule, deny_client, allow_client_service, allow_all, evaluate}
use bsomeip.Security.Policy.FirstMatch.{Decides, evaluate_iff}
use bsomeip.Security.Enforcer.{set_value, enforce}
use bsomeip.Security.Enforcer.Decision.{outcome, enforce_iff, enforce-make}

abbrev policy : List Rule
policy = deny_client 0x66 ∷ allow_client_service 0x10 0x1234 ∷ []

evaluate_example : (evaluate policy 0x10 0x1234 1 2 ≡ allow) ↔ Decides 0x10 0x1234 1 2 policy allow
evaluate_example = evaluate_iff 0x10 0x1234 1 2 policy allow

allowed_test : evaluate policy 0x10 0x1234 1 2 ≡ allow
unfolding evaluate
allowed_test = refl

denied_test : evaluate (allow_all ∷ deny_client 0x66 ∷ []) 0x66 0x1234 1 2 ≡ allow
unfolding evaluate
denied_test = refl

abbrev message : List ℕ
message = replicate 16 0

enforce_example : (enforce policy 1 message ≡ set_value message) ↔ (
    (16 ≤ length message)
    × Decides
        (HeaderView.client message)
        (HeaderView.service message)
        1
        (HeaderView.method message)
        policy
        allow)
enforce_example = enforce_iff policy 1 message

enforce-make_example :
    enforce policy 1 (make 0x1234 2 0x66 1 1 0 0 ++ 7 ∷ [])
    ≡ outcome (evaluate policy 0x66 0x1234 1 2) 0x66 0x1234 2 (make 0x1234 2 0x66 1 1 0 0 ++ 7 ∷ [])
enforce-make_example =
    enforce-make policy 1 0x1234 2 0x66 1 1 0 0 (7 ∷ []) (omega arith) (omega arith)
