-- ===== src/Common/Maps.antt =====
-- Maps as association lists: what the program's flat and unordered maps share.
use bsomeip.Common.Lists.{length}
use bsomeip.Common.Tests.{◌==◌, ==_iff, if◌then◌else◌, Bool-cases}
use Prim.Native.Nat.{ℕ, suc}
use mathlib.Core.Path.{◌≡◌, refl, sym, ap, ◌∙◌}
use mathlib.Core.Logic.{◌↔◌, ◌≢◌, inl, inr}
use mathlib.Core.Bool.{Bool, true, false, true≢false}
use mathlib.Core.Option.{Option, none, some}
use mathlib.Core.List.{List, [], ◌∷◌}
use native.Mathlib.Omega.{arith}

pub record Key {ℓ} (K : Type ℓ) : Type ℓ where
  pub same : K → K → Bool
  pub same_iff : (a b : K) → (same a b ≡ true) ↔ (a ≡ b)

instance abbrev pub ℕ_key : Key ℕ
ℕ_key = record { same = λ a b. a == b; same_iff = ==_iff }

module _ {ℓ} {K : Type ℓ} ⦃key : Key K⦄ where
  pub same_self : (k : K) → key.same k k ≡ true
  same_self k = (key.same_iff k k).1 refl

  pub same_ne : (a b : K) → a ≢ b → key.same a b ≡ false
  same_ne a b ne = elim (Bool-cases (key.same a b)) [
    | inl t ↦ absurd (ne ((key.same_iff a b).0 t))
    | inr t ↦ t
  ]

module _ {ℓ κ} {K : Type ℓ} {V : Type κ} ⦃key : Key K⦄ where
  unfoldable pub lookup : K → List (K × V) → Option V
  lookup k [] = none
  lookup k ((a, v) ∷ m) = if key.same k a then some v else lookup k m

  -- An entry of the key is replaced.
  unfoldable pub insert : K → V → List (K × V) → List (K × V)
  insert k v [] = (k, v) ∷ []
  insert k v ((a, u) ∷ m) =
      let rest = insert k v m in if key.same k a then (k, v) ∷ m else (a, u) ∷ rest

  unfoldable pub erase : K → List (K × V) → List (K × V)
  erase k [] = []
  erase k ((a, u) ∷ m) = let rest = erase k m in if key.same k a then rest else (a, u) ∷ rest

  pub lookup-insert_self : (k : K) (v : V) (m : List (K × V)) → lookup k (insert k v m) ≡ some v
  unfolding lookup insert
  lookup-insert_self k v [] = rw (same_self k)
  lookup-insert_self k v ((a, u) ∷ m) = elim (Bool-cases (key.same k a)) [
    | inl t ↦ rw (t, same_self k)
    | inr t ↦ rw (t, t) (lookup-insert_self k v m)
  ]

  pub lookup-insert_ne :
      (k j : K) (v : V) (m : List (K × V)) → j ≢ k → lookup j (insert k v m) ≡ lookup j m
  unfolding lookup insert
  lookup-insert_ne k j v [] ne = rw (same_ne j k ne)
  lookup-insert_ne k j v ((a, u) ∷ m) ne = elim (Bool-cases (key.same k a)) [
    | inl t ↦
        let at : k ≡ a = (key.same_iff k a).0 t in
        let other : key.same j a ≡ false = same_ne j a (λ e. ne (e ∙ sym at)) in
        rw (t, same_ne j k ne, other)
    | inr t ↦ rw t (ap (λ r. if key.same j a then some u else r) (lookup-insert_ne k j v m ne))
  ]

  pub lookup-erase_self : (k : K) (m : List (K × V)) → lookup k (erase k m) ≡ none
  unfolding lookup erase
  lookup-erase_self k [] = refl
  lookup-erase_self k ((a, u) ∷ m) = elim (Bool-cases (key.same k a)) [
    | inl t ↦ rw t (lookup-erase_self k m)
    | inr t ↦ rw (t, t) (lookup-erase_self k m)
  ]

  pub lookup-erase_ne : (k j : K) (m : List (K × V)) → j ≢ k → lookup j (erase k m) ≡ lookup j m
  unfolding lookup erase
  lookup-erase_ne k j [] ne = refl
  lookup-erase_ne k j ((a, u) ∷ m) ne = elim (Bool-cases (key.same k a)) [
    | inl t ↦
        let at : k ≡ a = (key.same_iff k a).0 t in
        let other : key.same j a ≡ false = same_ne j a (λ e. ne (e ∙ sym at)) in
        rw (t, other) (lookup-erase_ne k j m ne)
    | inr t ↦ rw t (ap (λ r. if key.same j a then some u else r) (lookup-erase_ne k j m ne))
  ]

  pub lookup-insert :
      (k j : K) (v : V) (m : List (K × V))
      → lookup j (insert k v m) ≡ (if key.same j k then some v else lookup j m)
  lookup-insert k j v m = elim (Bool-cases (key.same j k)) [
    | inl t ↦
        rw t (ap (λ x. lookup x (insert k v m)) ((key.same_iff j k).0 t) ∙ lookup-insert_self k v m)
    | inr t ↦ rw t (lookup-insert_ne k j v m (λ e. true≢false (sym ((key.same_iff j k).1 e) ∙ t)))
  ]

  pub lookup-erase :
      (k j : K) (m : List (K × V))
      → lookup j (erase k m) ≡ (if key.same j k then none else lookup j m)
  lookup-erase k j m = elim (Bool-cases (key.same j k)) [
    | inl t ↦ rw t (ap (λ x. lookup x (erase k m)) ((key.same_iff j k).0 t) ∙ lookup-erase_self k m)
    | inr t ↦ rw t (lookup-erase_ne k j m (λ e. true≢false (sym ((key.same_iff j k).1 e) ∙ t)))
  ]

  -- No key twice.
  abbrev pub Distinct : List (K × V) → Type κ
  Distinct [] = Unit {κ}
  Distinct ((a, u) ∷ m) = (lookup a m ≡ none) × Distinct m

  pub Distinct-insert : (k : K) (v : V) (m : List (K × V)) → Distinct m → Distinct (insert k v m)
  unfolding lookup insert
  Distinct-insert k v [] d = (refl, tt)
  Distinct-insert k v ((a, u) ∷ m) d = elim (Bool-cases (key.same k a)) [
    | inl t ↦ rw t (ap (λ x. lookup x m) ((key.same_iff k a).0 t) ∙ d.0, d.1)
    | inr t ↦
        let away : a ≢ k = λ e. true≢false (sym ((key.same_iff k a).1 (sym e)) ∙ t) in
        rw t (lookup-insert_ne k a v m away ∙ d.0, Distinct-insert k v m d.1)
  ]

  pub Distinct-erase : (k : K) (m : List (K × V)) → Distinct m → Distinct (erase k m)
  unfolding lookup erase
  Distinct-erase k [] d = tt
  Distinct-erase k ((a, u) ∷ m) d = elim (Bool-cases (key.same k a)) [
    | inl t ↦ rw t (Distinct-erase k m d.1)
    | inr t ↦
        let away : a ≢ k = λ e. true≢false (sym ((key.same_iff k a).1 (sym e)) ∙ t) in
        rw t (lookup-erase_ne k a m away ∙ d.0, Distinct-erase k m d.1)
  ]

  -- The size grows exactly with a new key.
  pub length-insert_new :
      (k : K) (v : V) (m : List (K × V))
      → lookup k m ≡ none
      → length (insert k v m) ≡ suc (length m)
  unfolding lookup insert
  length-insert_new k v [] e = refl
  length-insert_new k v ((a, u) ∷ m) e = ground (arith, length-insert_new k v m)

  pub length-insert_old :
      (k : K) (v w : V) (m : List (K × V)) → lookup k m ≡ some w → length (insert k v m) ≡ length m
  unfolding lookup insert
  length-insert_old k v w [] e = ground arith
  length-insert_old k v w ((a, u) ∷ m) e = ground (arith, length-insert_old k v w m)

  pub erase_absent : (k : K) (m : List (K × V)) → lookup k m ≡ none → erase k m ≡ m
  unfolding lookup erase
  erase_absent k [] e = refl
  erase_absent k ((a, u) ∷ m) e = elim (Bool-cases (key.same k a)) [
    | inl t ↦ ground (arith, t)
    | inr t ↦
        let later : lookup k m ≡ none = ground (arith, t) in
        rw t (ap (λ r. (a, u) ∷ r) (erase_absent k m later))
  ]

  pub length-erase_old :
      (k : K) (w : V) (m : List (K × V))
      → Distinct m
      → lookup k m ≡ some w
      → suc (length (erase k m)) ≡ length m
  unfolding lookup erase
  length-erase_old k w [] d e = ground arith
  length-erase_old k w ((a, u) ∷ m) d e = elim (Bool-cases (key.same k a)) [
    | inl t ↦
        let absent : lookup k m ≡ none = ap (λ x. lookup x m) ((key.same_iff k a).0 t) ∙ d.0 in
        rw t (ap (λ r. suc (length r)) (erase_absent k m absent))
    | inr t ↦
        let later : lookup k m ≡ some w = ground (arith, t) in
        rw t (ap suc (length-erase_old k w m d.1 later))
  ]
