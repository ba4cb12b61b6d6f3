-- ===== src/Tests/Outbox.antt =====
-- The outbox on concrete states.
use order_orchestrator.Base.{
  ◌+◌, ◌-◌, ℕ, suc, ◌*◌, ◌^◌, ◌≤◌, arith, true, false, some, List, [], ◌∷◌, ◌≡◌, refl,
}
use order_orchestrator.Entities.{
  OrderStatus, OutboxEvent, OutboxEventStatus, Payload, event_row, created_event,
}
use order_orchestrator.Platform.Memory.{memory_platform, memory_platform-IsPlatform}
use order_orchestrator.Exceptions.{ok}
use order_orchestrator.World.{World, find_event, update_events, save_event}
use order_orchestrator.World.Reads.{events, dead_letters}
use order_orchestrator.Aggregates.{Holds}
use order_orchestrator.FailureInjection.{throw_if_configured}
use order_orchestrator.Consumer.{consume}
use order_orchestrator.Outbox.{
  process_single_event, publish_event, fail_event, retry_event, calculate_next_retry_at,
  select_events, dispatch_pending,
}
use order_orchestrator.Outbox.Frame.{Framed}
use order_orchestrator.Outbox.ConsumeFrame.{Framed-consume}
use order_orchestrator.Outbox.Delivery.{claim_event, time_behind, AttemptEnd}
use order_orchestrator.Outbox.Attempt.{process_single_event-AttemptEnd}
use order_orchestrator.Outbox.Skipped.{process_single_event-exclusive}
use order_orchestrator.Outbox.Batch.{DispatchRuns, dispatch_pending-DispatchRuns}
use order_orchestrator.Outbox.Selection.{SelectsDue, select_events-oldest_first}
use order_orchestrator.Outbox.Dispatch.{DispatchEnd, dispatch_pending-DispatchEnd}
use order_orchestrator.Outbox.Retries.{attempts, SettlesWithin, attempts-IsSettled}
use order_orchestrator.Outbox.Waits.{IsUnsupported}
use order_orchestrator.Outbox.Poison.{Buried, attempts-Buried}
use order_orchestrator.Outbox.SagaDelivery.{PublishedAfter, created_event-PublishedAfter}
use order_orchestrator.Outbox.Backoff.{RetriesBetween, process_single_event-RetriesBetween}
use order_orchestrator.Outbox.Lifecycle.{on_module_destroy}
use order_orchestrator.Outbox.Lifecycle.Drain.{IsPause, Drained, on_module_destroy-Drained}
use order_orchestrator.Tests.Worlds.{some_rows, pending_world}

-- An event that the consumer does not support, after so many failures.
abbrev pub unknown_event : ℕ → OutboxEvent
unknown_event n =
    record (event_row "event-2" 5 (record {
      aggregate_type = "Order";
      aggregate_id = "order-0001";
      event_type = "ORDER_ARCHIVED";
      payload = Payload.order_created "order-0001" "customer-1" 1000 OrderStatus.pending;
    })) { retry_count = n }

abbrev with_event : OutboxEvent → World memory_platform → World memory_platform
with_event e w = record w { db = record (w.db) { outbox = e ∷ [] } }

abbrev some_event : OutboxEvent
some_event = event_row "event-1" 5 (record {
  aggregate_type = "Order";
  aggregate_id = "order-0001";
  event_type = created_event;
  payload = Payload.order_created "order-0001" "customer-1" 1000 OrderStatus.pending;
})

-- The saga of the order will fail at its last step.
abbrev created_world : World memory_platform
created_world = with_event some_event pending_world

abbrev pub unknown_world : ℕ → World memory_platform
unknown_world n = with_event (unknown_event n) pending_world

created_world-Holds : Holds "order-0001" created_world (some_rows OrderStatus.pending)
created_world-Holds = record {
  order_found = refl;
  payment_found = refl;
  reservation_found = refl;
  shipment_found = refl;
}

unknown_event-IsUnsupported : IsUnsupported (unknown_event 0)
unknown_event-IsUnsupported = record { not_created = λ e. cc e; not_changed = λ e. cc e }

-- The first failure leaves the event another attempt.
unknown_retried :
    (process_single_event memory_platform "event-2" (unknown_world 0)).0
    ≡ ok OutboxEventStatus.pending
unfolding process_single_event update_events find_event consume publish_event fail_event retry_event
    calculate_next_retry_at save_event throw_if_configured
unknown_retried = refl

process_single_event-AttemptEnd_example :
    let (r, w') = process_single_event memory_platform "event-1" created_world in
    AttemptEnd "event-1" some_event created_world r w'
process_single_event-AttemptEnd_example =
    process_single_event-AttemptEnd memory_platform-IsPlatform "event-1" some_event created_world
      refl refl

process_single_event-exclusive_example :
    let v = claim_event "event-1" created_world in
    let (r, w') = process_single_event memory_platform "event-1" v in
    (r ≡ ok OutboxEventStatus.pending)
    × (events w' ≡ events v)
    × (dead_letters w' ≡ dead_letters v)
    × (w'.metrics ≡ v.metrics)
process_single_event-exclusive_example =
    process_single_event-exclusive memory_platform-IsPlatform "event-1" created_world

Framed-consume_example : Framed (consume memory_platform some_event)
Framed-consume_example = Framed-consume memory_platform-IsPlatform some_event

-- Three pending events: one waits for a retry in another year, and of the others the last one is
-- the oldest.
abbrev queue_world : World memory_platform
queue_world = record pending_world {
  db = record (pending_world.db) {
    outbox =
        record some_event { id = "event-3"; created_at = 9 }
        ∷ record some_event {
          id = "event-4";
          created_at = 2;
          next_retry_at = some 1_800_000_000_000;
        }
        ∷ some_event
        ∷ [];
  };
}

select_events-oldest_first_example :
    (l : List OutboxEvent) × ((select_events memory_platform 1 false queue_world).0 ≡ ok l)
    × SelectsDue 1 false queue_world l
select_events-oldest_first_example =
    select_events-oldest_first memory_platform-IsPlatform 1 false queue_world (omega arith)

dispatch_pending-DispatchRuns_example :
    let (r, w') = dispatch_pending memory_platform 2 false queue_world in
    DispatchRuns 2 false queue_world r w'
dispatch_pending-DispatchRuns_example =
    dispatch_pending-DispatchRuns memory_platform-IsPlatform 2 false queue_world (omega arith) refl

dispatch_pending-DispatchEnd_example :
    let (r, w') = dispatch_pending memory_platform 20 true created_world in
    DispatchEnd 20 created_world r w'
dispatch_pending-DispatchEnd_example =
    dispatch_pending-DispatchEnd memory_platform-IsPlatform 20 true created_world (omega arith)

attempts-IsSettled_example : SettlesWithin "event-1" 2 created_world
attempts-IsSettled_example =
    attempts-IsSettled memory_platform-IsPlatform "event-1" 2 created_world some_event refl refl
      (omega arith)

attempts-Buried_example :
    Buried "event-2"
      (unknown_event 0)
      (unknown_world 0)
      (attempts memory_platform "event-2" 3 (unknown_world 0))
attempts-Buried_example =
    attempts-Buried memory_platform-IsPlatform "event-2" 2 (unknown_world 0) (unknown_event 0) refl
      refl unknown_event-IsUnsupported refl

created_event-PublishedAfter_example :
    (k : ℕ) × (k ≤ 1)
    × PublishedAfter "event-1" created_world
        (attempts memory_platform "event-1" (suc k) created_world)
created_event-PublishedAfter_example =
    created_event-PublishedAfter memory_platform-IsPlatform "event-1" some_event created_world
      (some_rows OrderStatus.pending) refl refl refl refl created_world-Holds (omega arith)

process_single_event-RetriesBetween_example :
    RetriesBetween "event-2"
      (time_behind "event-2" (unknown_event 0) (unknown_world 0))
      1000
      (1000 * 2 ^ 1)
      (process_single_event memory_platform "event-2" (unknown_world 0)).1
process_single_event-RetriesBetween_example =
    process_single_event-RetriesBetween memory_platform-IsPlatform "event-2" (unknown_event 0)
      (unknown_world 0) refl refl unknown_retried

-- Two dispatches are running; during a pause one of them ends.
abbrev busy_world : World memory_platform
busy_world = record created_world {
  processor = record { active_dispatch_count = 2; shutting_down = false; polls_every = some 3000 };
}

abbrev one_ends : World memory_platform → World memory_platform
one_ends w = record w {
  host = record (w.host) { clock_reads = w.host.clock_reads + 100 };
  processor = record (w.processor) {
    active_dispatch_count = w.processor.active_dispatch_count - 1;
  };
}

one_ends-IsPause : IsPause one_ends
one_ends-IsPause = record { waits = λ u. omega arith; stays_shut = λ u shut. shut }

on_module_destroy-Drained_example :
    (v : World memory_platform) × (on_module_destroy memory_platform one_ends busy_world ≡ some v)
    × Drained 1_700_000_010_000 v
on_module_destroy-Drained_example =
    on_module_destroy-Drained one_ends one_ends-IsPause (λ k. omega arith) busy_world
