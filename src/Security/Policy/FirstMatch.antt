-- ===== src/Security/Policy/FirstMatch.antt =====
-- The policy against its contract: the first rule that matches decides, and none means deny.
use bsomeip.Common.{
  ℕ, ◌≡◌, ◌↔◌, inl, inr, refl, ◌∙◌, subst, true, false, List, [], ◌∷◌, ◌++◌, All, Bool-cases,
}
use bsomeip.Security.Policy.{Action, deny, Rule, matches, evaluate}

module _ (c s i m : ℕ) where
  abbrev pub Matches : Rule → Type 0
  Matches r = matches r c s i m ≡ true

  abbrev pub Passes : Rule → Type 0
  Passes r = matches r c s i m ≡ false

  -- The contract: which action a list of rules stands for.
  pub data Decides : List Rule → Action → Type 0 where
    first :
        (front : List Rule) (r : Rule) (back : List Rule)
        → All Passes front
        → Matches r
        → Decides (front ++ r ∷ back) r.act
    default : (rules : List Rule) → All Passes rules → Decides rules deny

  later :
      (r : Rule) (rules : List Rule) (a : Action)
      → Passes r
      → Decides rules a
      → Decides (r ∷ rules) a
  later r _ a p (first front q back h hq) = first (r ∷ front) q back (p, h) hq
  later r _ a p (default rules h) = default (r ∷ rules) (p, h)

  -- `evaluate` decides as the contract says.
  pub evaluate-Decides : (rules : List Rule) → Decides rules (evaluate rules c s i m)
  unfolding evaluate
  evaluate-Decides [] = default [] tt
  evaluate-Decides (r ∷ rules) = elim (Bool-cases (matches r c s i m)) [
    | inl t ↦ rw t (first [] r rules tt t)
    | inr t ↦ rw t (later r rules _ t (evaluate-Decides rules))
  ]

  evaluate-front :
      (front rules : List Rule)
      → All Passes front
      → evaluate (front ++ rules) c s i m ≡ evaluate rules c s i m
  unfolding evaluate
  evaluate-front [] rules h = refl
  evaluate-front (r ∷ front) rules h = rw (h.0) (evaluate-front front rules h.1)

  evaluate-none : (rules : List Rule) → All Passes rules → evaluate rules c s i m ≡ deny
  unfolding evaluate
  evaluate-none [] h = refl
  evaluate-none (r ∷ rules) h = rw (h.0) (evaluate-none rules h.1)

  Decides-evaluate : (rules : List Rule) (a : Action) → Decides rules a → evaluate rules c s i m ≡ a
  unfolding evaluate
  Decides-evaluate _ _ (first front r back h t) = evaluate-front front (r ∷ back) h ∙ rw t
  Decides-evaluate _ _ (default rules h) = evaluate-none rules h

  -- `evaluate` gives an action exactly when the contract does: the action of the first rule of the
  -- list that matches the request, all rules before it failing to, or deny when none matches.
  pub evaluate_iff :
      (rules : List Rule) (a : Action) → (evaluate rules c s i m ≡ a) ↔ Decides rules a
  evaluate_iff rules a =
      ((λ e. subst (Decides rules) e (evaluate-Decides rules)), Decides-evaluate rules a)
