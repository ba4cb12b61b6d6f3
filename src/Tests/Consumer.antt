-- ===== src/Tests/Consumer.antt =====
-- The consumer of events on a concrete state.
use order_orchestrator.Base.{none, [], ◌∷◌}
use order_orchestrator.World.{World}
use order_orchestrator.Entities.{OrderStatus, OutboxEvent, Payload, event_row, created_event}
use order_orchestrator.Platform.Memory.{memory_platform}
use order_orchestrator.Consumer.{event_key, consume}
use order_orchestrator.Consumer.Contract.{ConsumeEnd, consume-ConsumeEnd}
use order_orchestrator.Tests.Worlds.{some_world}

abbrev created_order : OutboxEvent
created_order = event_row "event-1" 5 (record {
  aggregate_type = "Order";
  aggregate_id = "order-0001";
  event_type = created_event;
  payload = Payload.order_created "order-0001" "customer-1" 1000 OrderStatus.pending;
})

-- The next two created events are to fail.
abbrev armed_world : World memory_platform
armed_world =
    some_world OrderStatus.pending
      ((event_key created_order, record { fail_count = 2; expires_at = none }) ∷ [])

consume-ConsumeEnd_example :
    let (r, w') = consume memory_platform created_order armed_world in
    ConsumeEnd created_order armed_world r w'
consume-ConsumeEnd_example = consume-ConsumeEnd created_order armed_world
