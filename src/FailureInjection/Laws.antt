-- ===== src/FailureInjection/Laws.antt =====
-- A rule fires as often as it says, and for its own key only.
use order_orchestrator.Base.{
  ℕ, zero, suc, ◌+◌, ◌-◌, ap, String, Option, none, some, List, [], ◌∷◌, ◌++◌, ◌≡◌, refl, ◌≢◌, ◌⊎◌,
  Bool, true, false, arith, inl, inr, Option-cases, Bool-cases, str_eq, eq_iff, subst, ◌∙◌,
}
use native.Mathlib.Nat.{zero-add, suc-add}
use order_orchestrator.Platform.{Platform}
use order_orchestrator.Exceptions.{Exception, Result, ok, err}
use order_orchestrator.World.{FailureRule, World}
use order_orchestrator.FailureInjection.{set_rule, throw_if_configured}
use order_orchestrator.FailureInjection.RuleMap
use order_orchestrator.FailureInjection.RuleMap.{
  get-set_self, get-set_other, get-delete_self, get-delete_other,
}

abbrev pub replicate {ℓ} : {A : Type ℓ} → ℕ → A → List A
replicate zero a = []
replicate (suc n) a = a ∷ replicate n a

abbrev pub is_err : {A : Type 0} → Result A → Bool
is_err (ok a) = false
is_err (err e) = true

-- What is left of a rule without expiry that had `n + 1` firings.
abbrev pub rule_left : ℕ → Option FailureRule
rule_left zero = none
rule_left (suc n) = some (record { fail_count = suc n; expires_at = none })

module _ {P : Platform} (key message : String) where
  -- Which of the next calls of `throw_if_configured` throw.
  abbrev pub outcomes : ℕ → World P → List Bool
  outcomes zero w = []
  outcomes (suc k) w = let (r, w') = throw_if_configured P key message w in is_err r ∷ outcomes k w'

  -- No rule: the call passes.
  pub pass_without_rule :
      (w : World P)
      → RuleMap.get key w.rules ≡ none
      → throw_if_configured P key message w ≡ (ok tt, w)
  unfolding throw_if_configured
  pass_without_rule w h = rw (h, throw_if_configured)

  -- A rule that does not expire fires, and has one firing less.
  pub fire :
      (n : ℕ) (w : World P)
      → RuleMap.get key w.rules ≡ rule_left (suc n)
      → ((throw_if_configured P key message w).0 ≡ err (Exception.error message))
        × (RuleMap.get key (throw_if_configured P key message w).1.rules ≡ rule_left n)
  unfolding throw_if_configured
  fire zero w h = ground (arith, get-delete_self key w.rules)
  fire (suc n) w h =
      ground (arith, get-set_self key (record { fail_count = suc n; expires_at = none }) w.rules)

  outcomes_spent :
      (m : ℕ) (w : World P) → RuleMap.get key w.rules ≡ none → outcomes m w ≡ replicate m false
  outcomes_spent zero w h = refl
  outcomes_spent (suc m) w h =
      rw (pass_without_rule w h) (ap (λ l. false ∷ l) (outcomes_spent m w h))

  pub outcomes_left :
      (n m : ℕ) (w : World P)
      → RuleMap.get key w.rules ≡ rule_left n
      → outcomes (n + m) w ≡ replicate n true ++ replicate m false
  outcomes_left zero m w h = rw zero-add (outcomes_spent m w h)
  outcomes_left (suc n) m w h =
      let (fired, left) = fire n w h in
      rw (suc-add, fired)
        (ap (λ l. true ∷ l) (outcomes_left n m (throw_if_configured P key message w).1 left))

  pub get-set_rule :
      (n : ℕ) (w : World P) → RuleMap.get key (set_rule P key n none w).1.rules ≡ rule_left n
  unfolding set_rule
  get-set_rule zero w = get-delete_self key w.rules
  get-set_rule (suc n) w =
      ground (arith, get-set_self key (record { fail_count = suc n; expires_at = none }) w.rules)

  pub set_rule_passes : (n : ℕ) (w : World P) → (set_rule P key n none w).0 ≡ ok tt
  unfolding set_rule
  set_rule_passes zero w = refl
  set_rule_passes (suc n) w = ground arith

  -- Once a rule without expiry has been set to a count, just that many of the following calls for
  -- its key throw, and those after them pass.
  pub set_rule_fires :
      (n m : ℕ) (w : World P)
      → outcomes (n + m) (set_rule P key n none w).1 ≡ replicate n true ++ replicate m false
  set_rule_fires n m w = outcomes_left n m (set_rule P key n none w).1 (get-set_rule n w)

  -- A call for one key leaves the rules of the other keys alone.
  pub throw_if_configured-other :
      (w : World P) (j : String)
      → j ≢ key
      → RuleMap.get j (throw_if_configured P key message w).1.rules ≡ RuleMap.get j w.rules
  unfolding throw_if_configured
  throw_if_configured-other w j ne = elim (Option-cases (RuleMap.get key w.rules)) [
    | inl missing ↦ rw (pass_without_rule w missing)
    | inr (rule, found) ↦ ground (
      arith,
      get-delete_other j key w.rules ne,
      get-set_other j key (record rule { fail_count = rule.fail_count - 1 }) w.rules ne,
    )
  ]

  -- A call throws the given message or passes; it touches neither the database nor the counters,
  -- and it throws only if there is a rule for its key.
  pub throw_if_configured-cases :
      (w : World P)
      → let (r, w') = throw_if_configured P key message w in
        (w'.db ≡ w.db)
        × (w'.metrics ≡ w.metrics)
        × ((r ≡ ok tt) ⊎ ((r ≡ err (Exception.error message)) × (RuleMap.get key w.rules ≢ none)))
  unfolding throw_if_configured
  throw_if_configured-cases w = ground arith

module _ {P : Platform} (key message : String) where
  pub throw_if_configured-processor :
      (w : World P) → (throw_if_configured P key message w).1.processor ≡ w.processor
  unfolding throw_if_configured
  throw_if_configured-processor w = ground arith

  -- A call sets no rule.
  pub throw_if_configured-no_new_rule :
      (w : World P) (j : String)
      → RuleMap.get j w.rules ≡ none
      → RuleMap.get j (throw_if_configured P key message w).1.rules ≡ none
  throw_if_configured-no_new_rule w j h = elim (Bool-cases (str_eq j key)) [
    | inl same ↦
        let here : RuleMap.get key w.rules ≡ none =
          subst (λ k. RuleMap.get k w.rules ≡ none) ((eq_iff j key).0 same) h in
        rw (pass_without_rule key message w here) h
    | inr other ↦ throw_if_configured-other key message w j (ground (arith, eq_iff j key)) ∙ h
  ]
