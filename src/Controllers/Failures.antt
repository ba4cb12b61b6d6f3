-- ===== src/Controllers/Failures.antt =====
-- A failure rule that a request sets, and the events that it makes fail.
use order_orchestrator.Base.{
  ℕ, zero, suc, ◌+◌, String, none, some, List, [], ◌∷◌, ◌++◌, ◌≡◌, refl, ap, ◌∙◌, Bool, true, false,
  not, arith, filter, str_eq, text_append, Bool-cases, inl, inr,
}
use order_orchestrator.Entities.{OutboxEvent, status_changed_event}
use order_orchestrator.Platform.{Platform}
use order_orchestrator.Exceptions.{Result, ok, err}
use order_orchestrator.World.{FailureRule, Rules, World, continue, pure}
use order_orchestrator.FailureInjection.{
  is_expired, set_rule, get_rules, purge_expired, throw_if_configured,
}
use order_orchestrator.FailureInjection.RuleMap
use order_orchestrator.FailureInjection.Laws.{
  replicate, is_err, rule_left, outcomes, outcomes_left, get-set_rule, set_rule_passes,
}
use order_orchestrator.Consumer.{event_key, injected_text, consume}
use order_orchestrator.Controllers.{set_failure_rule}

-- Which of the next consumptions of an event throw.
abbrev pub deliveries : (P : Platform) → OutboxEvent → ℕ → World P → List Bool
deliveries P e zero w = []
deliveries P e (suc k) w = let (r, w') = consume P e w in is_err r ∷ deliveries P e k w'

get-filter_missing :
    (now : ℕ) (k : String) (m : Rules)
    → RuleMap.get k m ≡ none
    → RuleMap.get k (filter (λ (e : String × FailureRule). not (is_expired now e.1)) m) ≡ none
get-filter_missing now k [] h = refl
get-filter_missing now k ((j, r) ∷ m) h = ground (arith, get-filter_missing now k m)

some_inj : {r s : FailureRule} → some r ≡ some s → r ≡ s
some_inj h = cc

get-filter_found :
    (now : ℕ) (k : String) (m : Rules) (r : FailureRule)
    → RuleMap.get k m ≡ some r
    → is_expired now r ≡ false
    → RuleMap.get k (filter (λ (e : String × FailureRule). not (is_expired now e.1)) m) ≡ some r
get-filter_found now k [] r h kept = cc
get-filter_found now k ((j, s) ∷ m) r h kept = elim (Bool-cases (str_eq j k)) [
  | inl here ↦
      let found : some s ≡ some r = rw here at h in
      rw (ap (is_expired now) (some_inj found) ∙ kept, here) found
  | inr there ↦
      let rest = get-filter_found now k m r (rw there at h) kept in
      elim (Bool-cases (is_expired now s)) [
        | inl expired ↦ rw expired rest
        | inr live ↦ rw (live, there) rest
      ]
]

-- A rule without expiry is left by the purge.
purged_left :
    (now n : ℕ) (k : String) (m : Rules)
    → RuleMap.get k m ≡ rule_left n
    → RuleMap.get k (filter (λ (e : String × FailureRule). not (is_expired now e.1)) m)
      ≡ rule_left n
purged_left now zero k m h = get-filter_missing now k m h
purged_left now (suc n) k m h =
    get-filter_found now k m (record { fail_count = suc n; expires_at = none }) h refl

module _ {P : Platform} where
  passed_on : (r : Result (Unit {0})) (v : World P) → continue (r, v) (λ _. pure tt) ≡ (r, v)
  passed_on (ok u) v = refl
  passed_on (err e) v = refl

  consume_changed :
      (e : OutboxEvent) (w : World P)
      → e.event_type ≡ status_changed_event
      → consume P e w ≡ throw_if_configured P (event_key e) (injected_text e) w
  unfolding consume
  consume_changed e w changed = rw changed (passed_on _ _)

  deliveries-outcomes :
      (e : OutboxEvent) (k : ℕ) (w : World P)
      → e.event_type ≡ status_changed_event
      → deliveries P e k w ≡ outcomes (event_key e) (injected_text e) k w
  deliveries-outcomes e zero w changed = refl
  deliveries-outcomes e (suc k) w changed = rw (consume_changed e w changed) (
      ap (λ l. is_err (throw_if_configured P (event_key e) (injected_text e) w).0 ∷ l)
        (deliveries-outcomes e k _ changed))

  set_failure_rule_left :
      (t : String) (n : ℕ) (w : World P)
      → RuleMap.get
          (text_append "EVENT:" t)
          (set_failure_rule P (record { event_type = t; fail_count = n; ttl_ms = none }) w).1.rules
        ≡ rule_left n
  unfolding set_failure_rule get_rules purge_expired
  set_failure_rule_left t n w =
      let key = text_append "EVENT:" t in
      let v = (set_rule P key n none w).1 in
      let runs : set_rule P key n none w ≡ (ok tt, v) =
        ap (λ r. (r, v)) (set_rule_passes key "" n w) in
      rw runs (purged_left (P.now v.host.clock_reads) n key v.rules (get-set_rule key "" n w))

  -- Once a request has set a failure rule for `ORDER_STATUS_CHANGED` to a count, without expiry,
  -- just that many of the following consumptions of such an event throw, and those after them
  -- pass.
  pub set_failure_rule_fires :
      (e : OutboxEvent) (n m : ℕ) (w : World P)
      → e.event_type ≡ status_changed_event
      → let w' =
          (set_failure_rule P
            (record { event_type = status_changed_event; fail_count = n; ttl_ms = none })
            w).1 in
        deliveries P e (n + m) w' ≡ replicate n true ++ replicate m false
  set_failure_rule_fires e n m w changed =
      let w' =
        (set_failure_rule P
          (record { event_type = status_changed_event; fail_count = n; ttl_ms = none }) w).1 in
      deliveries-outcomes e (n + m) w' changed
      ∙ outcomes_left (event_key e) (injected_text e) n m w' (
          ap (λ k. RuleMap.get (text_append "EVENT:" k) w'.rules) changed
          ∙ set_failure_rule_left status_changed_event n w)
