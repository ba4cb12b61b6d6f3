-- ===== src/FailureInjection/Calls.antt =====
-- One call of `throwIfConfigured`: when it throws, and what it leaves of the rule.
use order_orchestrator.Base.{
  ℕ, zero, suc, ◌≤◌, ◌<◌, String, Option, none, some, ◌≡◌, refl, false, arith, ltb, inl, inr,
  Option-cases, Bool-cases,
}
use order_orchestrator.Platform.{Platform}
use order_orchestrator.Exceptions.{Exception, Result, ok, err}
use order_orchestrator.World.{FailureRule, World}
use order_orchestrator.FailureInjection.{throw_if_configured}
use order_orchestrator.FailureInjection.RuleMap
use order_orchestrator.FailureInjection.RuleMap.{get-set_self, get-delete_self}
use order_orchestrator.FailureInjection.Laws.{pass_without_rule}

-- The rule may still fire: it has no expiry, or the time is not behind it.
abbrev pub IsInTime : ℕ → FailureRule → Type 0
IsInTime now rule = elim rule.expires_at [ none ↦ Unit | some t ↦ now ≤ t ]

-- What a call at a time does, by the rule for its key: what it throws, and what is left of the rule.
pub data Firing (now : ℕ) (message : String) (before : Option FailureRule) (r : Result (Unit {0}))
    (after : Option FailureRule) : Type 0 where
  unset : before ≡ none → r ≡ ok tt → after ≡ none → Firing now message before r after
  spent :
      (rule : FailureRule)
      → before ≡ some rule
      → rule.fail_count ≡ 0
      → r ≡ ok tt
      → after ≡ some rule
      → Firing now message before r after
  late :
      (rule : FailureRule) (t : ℕ)
      → before ≡ some rule
      → 0 < rule.fail_count
      → rule.expires_at ≡ some t
      → t < now
      → r ≡ ok tt
      → after ≡ none
      → Firing now message before r after
  last :
      (rule : FailureRule)
      → before ≡ some rule
      → rule.fail_count ≡ 1
      → IsInTime now rule
      → r ≡ err (Exception.error message)
      → after ≡ none
      → Firing now message before r after
  again :
      (rule : FailureRule) (n : ℕ)
      → before ≡ some rule
      → rule.fail_count ≡ suc (suc n)
      → IsInTime now rule
      → r ≡ err (Exception.error message)
      → after ≡ some (record rule { fail_count = suc n })
      → Firing now message before r after

module _ {P : Platform} (key message : String) where
  -- A rule whose expiry is not behind the time that the clock shows.
  in_time :
      (w : World P) (n t : ℕ)
      → RuleMap.get key w.rules ≡ some (record { fail_count = suc n; expires_at = some t })
      → ltb t (P.now w.host.clock_reads) ≡ false
      → let (r, w') = throw_if_configured P key message w in
        Firing
          (P.now w.host.clock_reads)
          message
          (RuleMap.get key w.rules)
          r
          (RuleMap.get key w'.rules)
  unfolding throw_if_configured
  in_time w zero t h ahead =
      Firing.last _ h refl (ground arith) (ground arith)
        (ground (arith, get-delete_self key w.rules))
  in_time w (suc n) t h ahead =
      let left : FailureRule = record { fail_count = suc n; expires_at = some t } in
      Firing.again _ n h refl (ground arith) (ground arith)
        (ground (arith, get-set_self key left w.rules))

  by_count :
      (w : World P) (n : ℕ) (expires : Option ℕ)
      → RuleMap.get key w.rules ≡ some (record { fail_count = n; expires_at = expires })
      → let (r, w') = throw_if_configured P key message w in
        Firing
          (P.now w.host.clock_reads)
          message
          (RuleMap.get key w.rules)
          r
          (RuleMap.get key w'.rules)
  unfolding throw_if_configured
  by_count w zero expires h = rw (h, throw_if_configured) (Firing.spent _ refl refl refl h)
  by_count w (suc zero) none h =
      rw (h, throw_if_configured) (Firing.last _ refl refl tt refl (get-delete_self key w.rules))
  by_count w (suc (suc n)) none h =
      let left : FailureRule = record { fail_count = suc n; expires_at = none } in
      Firing.again _ n h refl tt (ground arith) (ground (arith, get-set_self key left w.rules))
  by_count w (suc n) (some t) h = elim (Bool-cases (ltb t (P.now w.host.clock_reads))) [
    | inl behind ↦
        Firing.late _ t h (omega arith) refl (ground arith) (ground arith)
          (ground (arith, get-delete_self key w.rules))
    | inr ahead ↦ in_time w n t h ahead
  ]

  -- A call throws the given message just if there is a rule for its key with a count above 0 and
  -- no expiry before the time that the clock shows. The rule then has one firing less, and is gone
  -- behind the last one; a rule whose expiry is before that time is removed, and the call passes,
  -- as it does, with nothing removed, without a rule or with a count of 0.
  pub throw_if_configured-Firing :
      (w : World P)
      → let (r, w') = throw_if_configured P key message w in
        Firing
          (P.now w.host.clock_reads)
          message
          (RuleMap.get key w.rules)
          r
          (RuleMap.get key w'.rules)
  throw_if_configured-Firing w = elim (Option-cases (RuleMap.get key w.rules)) [
    | inl missing ↦ rw (pass_without_rule key message w missing) (Firing.unset missing refl missing)
    | inr (rule, found) ↦ by_count w rule.fail_count rule.expires_at found
  ]
