-- ===== src/Tests/Requests.antt =====
-- Requests on concrete states.
use order_orchestrator.Base.{
  List, IsSorted, Permᴰ, arith, true, false, none, some, [], ◌∷◌, ◌≡◌, refl,
}
use order_orchestrator.Entities.{
  AuditLog, AuditRow, OrderStatus, OutboxEvent, Payload, event_row, status_changed_event,
}
use order_orchestrator.Platform.Memory.{memory_platform, memory_platform-IsPlatform}
use order_orchestrator.Controllers.{
  UpdateOrderStatusDto, ForceOrderStatusDto, SetFailureRuleDto, update_order_status,
  force_order_status, set_failure_rule,
}
use order_orchestrator.Controllers.Failures.{deliveries, set_failure_rule_fires}
use order_orchestrator.AuditTrail.{log, newest_first, find_by_order_id}
use order_orchestrator.AuditTrail.Contract.{find_by_order_id-log}
use order_orchestrator.Exceptions.{ok}
use order_orchestrator.Http.Errors.{Gets, Changes, Anything, Returns, requests-Changes}
use order_orchestrator.StateMachine.Diagram.{IsAllowed}
use order_orchestrator.World.Reads.{order_of, dead_letter_of}
use order_orchestrator.Tests.Worlds.{pending_world}

abbrev an_update : UpdateOrderStatusDto
an_update = record { status = OrderStatus.paid }

abbrev a_force : ForceOrderStatusDto
a_force = record { status = OrderStatus.failed; reason = none; actor = some "operator" }

requests-Changes_example :
    Gets "/orders/order-0001" "order-0001" pending_world (order_of pending_world "order-0001")
    × Changes "/orders/order-0001"
        (update_order_status memory_platform "order-0001" an_update)
        (λ s. IsAllowed s OrderStatus.paid)
        "order-0001"
        OrderStatus.paid
        pending_world
    × Changes "/orders/order-0001"
        (force_order_status memory_platform "order-0001" a_force)
        Anything
        "order-0001"
        OrderStatus.failed
        pending_world
    × Returns "/orders/order-0001" "order-0001" pending_world
        (dead_letter_of pending_world "order-0001")
requests-Changes_example =
    requests-Changes memory_platform-IsPlatform "/orders/order-0001" "order-0001" pending_world
      an_update a_force

abbrev changed_event : OutboxEvent
changed_event = event_row "event-3" 5 (record {
  aggregate_type = "Order";
  aggregate_id = "order-0001";
  event_type = status_changed_event;
  payload =
      Payload.status_changed "order-0001" OrderStatus.pending OrderStatus.paid false "system" none;
})

abbrev two_failures : SetFailureRuleDto
two_failures = record { event_type = status_changed_event; fail_count = 2; ttl_ms = none }

set_failure_rule_fires_example :
    deliveries memory_platform changed_event 3
      (set_failure_rule memory_platform two_failures pending_world).1
    ≡ true ∷ true ∷ false ∷ []
set_failure_rule_fires_example = set_failure_rule_fires changed_event 2 1 pending_world refl

find_by_order_id-log_example :
    let v =
      (log memory_platform "order-0001" "REPROCESS_REQUESTED" "admin" none none pending_world).1 in
    let a : AuditLog = record {
      order_id = "order-0001";
      action = "REPROCESS_REQUESTED";
      actor = "admin";
      reason = none;
      metadata = none;
    } in
    (l : List AuditRow) × ((find_by_order_id memory_platform "order-0001" 100 v).0 ≡ ok l)
    × IsSorted newest_first l
    × Permᴰ l (record { entry = a; created_at = 0 } ∷ [])
find_by_order_id-log_example =
    find_by_order_id-log memory_platform-IsPlatform "order-0001" pending_world "REPROCESS_REQUESTED"
      "admin" none none 100 (omega arith)
