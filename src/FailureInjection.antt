-- ===== src/FailureInjection.antt =====
-- Failure rules, which make a saga step or the consumption of an event fail on purpose
-- (src/orders/failure-injection.service.ts).
pub mod RuleMap
pub mod Laws
pub mod Calls
use order_orchestrator.Base.{
  ℕ, ◌+◌, ◌-◌, String, Option, none, some, List, [], ◌∷◌, Bool, false, ltb, ◌==◌, filter, not,
  if◌then◌else◌,
}
use order_orchestrator.Platform.{Platform}
use order_orchestrator.Exceptions.{Exception, ok}
use order_orchestrator.World.{
  FailureRule, Rules, World, Action, pure, throw, ◌>>=◌, ◌>>◌, current_time,
}
use order_orchestrator.FailureInjection.RuleMap

-- `rule.expiresAt && rule.expiresAt.getTime() < now`
abbrev pub is_expired : ℕ → FailureRule → Bool
is_expired now rule = elim rule.expires_at [ none ↦ false | some t ↦ ltb t now ]

module _ (P : Platform) where
  -- an assignment to `this.rules`
  abbrev modify_rules : (Rules → Rules) → Action P (Unit {0})
  modify_rules f w = (ok tt, record w { rules = f w.rules })

  -- `ttlMs && ttlMs > 0 ? new Date(Date.now() + ttlMs) : null`
  expiry : Option ℕ → Action P (Option ℕ)
  expiry none = pure none
  expiry (some ttl) = if ltb 0 ttl then (current_time >>= λ t. pure (some (t + ttl))) else pure none

  unfoldable pub set_rule : String → ℕ → Option ℕ → Action P (Unit {0})
  unfolding expiry
  set_rule key fail_count ttl = if fail_count == 0 then modify_rules (RuleMap.delete key) else do
    expires_at ← expiry ttl
    modify_rules (RuleMap.set key (record { fail_count = fail_count; expires_at = expires_at }))

  unfoldable pub purge_expired : Action P (Unit {0})
  purge_expired = do
    now ← current_time
    modify_rules (filter (λ (e : String × FailureRule). not (is_expired now e.1)))

  unfoldable pub get_rules : Action P Rules
  unfolding purge_expired
  get_rules = do purge_expired; λ w. (ok w.rules, w)

  unfoldable pub clear : Action P (Unit {0})
  clear = modify_rules (λ _. [])

  -- Whether the rule has run out by now; the clock is read only if the rule has an expiry.
  has_expired : FailureRule → Action P Bool
  has_expired rule = elim rule.expires_at [
    | none ↦ pure false
    | some t ↦ current_time >>= λ now. pure (ltb t now)
  ]

  -- `rule.failCount -= 1`, and the rule's removal once it has reached 0
  abbrev use_up : String → FailureRule → Rules → Rules
  use_up key rule rules =
      let left = record rule { fail_count = rule.fail_count - 1 } in
      if left.fail_count == 0 then RuleMap.delete key rules else RuleMap.set key left rules

  fail_by : String → String → FailureRule → Action P (Unit {0})
  unfolding has_expired
  fail_by key message rule = if rule.fail_count == 0 then pure tt else do
    expired ← has_expired rule
    if expired
        then modify_rules (RuleMap.delete key)
        else modify_rules (use_up key rule) >> throw (Exception.error message)

  -- Every caller gives a message, so the fallback for a missing one is left out.
  unfoldable pub throw_if_configured : String → String → Action P (Unit {0})
  unfolding fail_by
  throw_if_configured key message w = elim (RuleMap.get key w.rules) [
    | none ↦ (ok tt, w)
    | some rule ↦ fail_by key message rule w
  ]
