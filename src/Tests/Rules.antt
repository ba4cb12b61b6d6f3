-- ===== src/Tests/Rules.antt =====
-- The state machine and the failure rules on concrete states.
use order_orchestrator.Base.{◌+◌, none, some, true, false, [], ◌∷◌, ◌++◌, ◌≡◌, arith, eq_iff}
use order_orchestrator.Entities.{OrderStatus}
use order_orchestrator.Platform.Memory.{memory_platform}
use order_orchestrator.Exceptions.{ok, err}
use order_orchestrator.StateMachine.{assert_transition, invalid_transition}
use order_orchestrator.StateMachine.Diagram.{IsAllowed, assert_transition_complete}
use order_orchestrator.World.{World}
use order_orchestrator.FailureInjection.{set_rule, throw_if_configured}
use order_orchestrator.FailureInjection.RuleMap
use order_orchestrator.FailureInjection.Laws.{
  outcomes, replicate, set_rule_fires, throw_if_configured-other,
}
use order_orchestrator.FailureInjection.Calls.{Firing, throw_if_configured-Firing}
use order_orchestrator.Saga.{payment_key, shipment_key}
use order_orchestrator.Tests.Worlds.{some_world, pending_world}

assert_transition_complete_example :
    (IsAllowed OrderStatus.shipped OrderStatus.paid
      → assert_transition OrderStatus.shipped OrderStatus.paid ≡ ok tt)
    × (¬ IsAllowed OrderStatus.shipped OrderStatus.paid
        → assert_transition OrderStatus.shipped OrderStatus.paid
          ≡ err (invalid_transition OrderStatus.shipped OrderStatus.paid))
assert_transition_complete_example = assert_transition_complete OrderStatus.shipped OrderStatus.paid

set_rule_fires_example :
    outcomes shipment_key "late"
      (2 + 3)
      (set_rule memory_platform shipment_key 2 none pending_world).1
    ≡ replicate 2 true ++ replicate 3 false
set_rule_fires_example = set_rule_fires shipment_key "late" 2 3 pending_world

abbrev old_rule_world : World memory_platform
old_rule_world =
    some_world OrderStatus.pending
      ((shipment_key, record { fail_count = 1; expires_at = some 5 }) ∷ [])

throw_if_configured-Firing_example :
    let (r, w') = throw_if_configured memory_platform shipment_key "late" old_rule_world in
    Firing
      (memory_platform.now old_rule_world.host.clock_reads)
      "late"
      (RuleMap.get shipment_key old_rule_world.rules)
      r
      (RuleMap.get shipment_key w'.rules)
throw_if_configured-Firing_example = throw_if_configured-Firing shipment_key "late" old_rule_world

throw_if_configured-other_example :
    RuleMap.get shipment_key
      (throw_if_configured memory_platform payment_key "late" pending_world).1.rules
    ≡ RuleMap.get shipment_key pending_world.rules
throw_if_configured-other_example =
    throw_if_configured-other payment_key "late" pending_world shipment_key
      (ground (arith, eq_iff shipment_key payment_key))
