-- ===== src/Tests/DeadLetters.antt =====
-- The dead letters on concrete states.
use order_orchestrator.Base.{eq_iff, String, none, some, [], ◌∷◌, ◌≡◌, refl}
use order_orchestrator.Entities.{
  OrderStatus, OutboxEventStatus, DeadLetterEvent, Payload, created_event,
}
use order_orchestrator.Platform.Memory.{memory_platform, memory_platform-IsPlatform}
use order_orchestrator.Exceptions.{ok}
use order_orchestrator.World.{World, find_event, update_events, save_event, insert_dead_letter}
use order_orchestrator.World.Reads.{event_of, dead_letters}
use order_orchestrator.FailureInjection.{throw_if_configured}
use order_orchestrator.Consumer.{consume}
use order_orchestrator.Outbox.{process_single_event, publish_event, fail_event, bury_event}
use order_orchestrator.DeadLetters.{restored_event, reprocess_dlq_event, reprocess_dlq_batch}
use order_orchestrator.DeadLetters.Reprocess.{
  ReprocessEnd, reprocess_dlq_event-ReprocessEnd, reprocess_dlq_event-buried,
}
use order_orchestrator.DeadLetters.Batch.{
  BatchEnd, AllReturn, reprocess_dlq_batch-BatchEnd, reprocess_dlq_batch-AllReturn,
}
use order_orchestrator.Tests.Worlds.{pending_world}
use order_orchestrator.Tests.Outbox.{unknown_event, unknown_world}

abbrev some_letter : String → DeadLetterEvent
some_letter id = record {
  id = id;
  source_event_id = "event-9";
  aggregate_type = "Order";
  aggregate_id = "order-0001";
  event_type = created_event;
  payload = Payload.order_created "order-0001" "customer-1" 1000 OrderStatus.pending;
  failed_attempt_count = 3;
  error_message = "Injected failure for ORDER_CREATED";
  dead_lettered_at = 7;
}

abbrev letters_world : World memory_platform
letters_world = record pending_world {
  db = record (pending_world.db) {
    dead_letters = some_letter "letter-1" ∷ some_letter "letter-2" ∷ [];
  };
}

-- The last failure buries the event.
unknown_buried :
    (process_single_event memory_platform "event-2" (unknown_world 2)).0
    ≡ ok OutboxEventStatus.dead_letter
unfolding process_single_event update_events find_event consume publish_event fail_event bury_event
    save_event insert_dead_letter throw_if_configured
unknown_buried = refl

reprocess_dlq_event-ReprocessEnd_example :
    let (r, w') = reprocess_dlq_event memory_platform "letter-1" letters_world in
    ReprocessEnd "letter-1" letters_world r w'
reprocess_dlq_event-ReprocessEnd_example =
    reprocess_dlq_event-ReprocessEnd memory_platform-IsPlatform "letter-1" letters_world

reprocess_dlq_event-buried_example :
    (letter : String) × (let (r, u) =
        reprocess_dlq_event memory_platform letter
          (process_single_event memory_platform "event-2" (unknown_world 2)).1 in
      (r ≡ ok tt)
      × (event_of u "event-2" ≡ some (restored_event (unknown_event 2)))
      × (dead_letters u ≡ []))
reprocess_dlq_event-buried_example =
    reprocess_dlq_event-buried memory_platform-IsPlatform "event-2" (unknown_world 2)
      (unknown_event 2) refl refl unknown_buried

reprocess_dlq_batch-BatchEnd_example :
    let (out, w') =
      reprocess_dlq_batch memory_platform ("letter-2" ∷ "letter-3" ∷ []) none letters_world in
    BatchEnd ("letter-2" ∷ "letter-3" ∷ []) none letters_world out w'
reprocess_dlq_batch-BatchEnd_example =
    reprocess_dlq_batch-BatchEnd memory_platform-IsPlatform ("letter-2" ∷ "letter-3" ∷ []) none
      letters_world

reprocess_dlq_batch-AllReturn_example :
    let (out, w') = reprocess_dlq_batch memory_platform [] (some created_event) letters_world in
    AllReturn [] (some created_event) letters_world out w'
reprocess_dlq_batch-AllReturn_example =
    reprocess_dlq_batch-AllReturn memory_platform-IsPlatform [] (some created_event) letters_world
      (((λ e. absurd (cc ((eq_iff "letter-2" "letter-1").1 e))), tt), (tt, tt))
