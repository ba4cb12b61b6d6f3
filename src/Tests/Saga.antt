-- ===== src/Tests/Saga.antt =====
-- The saga on concrete states.
use order_orchestrator.Base.{ℕ, true, [], ◌∷◌, ◌≡◌, refl}
use order_orchestrator.Entities.{OrderStatus}
use order_orchestrator.Platform.Memory.{memory_platform, memory_platform-IsPlatform}
use order_orchestrator.Exceptions.{Exception, ok}
use order_orchestrator.Aggregates.{Aggregate, Holds}
use order_orchestrator.Saga.{
  execute_saga, handle_order_created, reprocess_failed_order, compensate, context_of,
}
use order_orchestrator.Saga.Compensation.{undone, compensation_logs, compensate-Undoes}
use order_orchestrator.Saga.Undoing.{Undoes, failed_payload}
use order_orchestrator.Saga.Outcome.{SagaEnd, fulfilled}
use order_orchestrator.Saga.Contract.{execute_saga-SagaEnd}
use order_orchestrator.Saga.Handlers.{
  AllOrNothing, execute_saga-AllOrNothing, handle_order_created-redelivered,
}
use order_orchestrator.Saga.Reprocess.{
  Reprocesses, reprocess_failed_order-Reprocesses, reprocess_failed_order-recovers,
}
use order_orchestrator.Saga.Reset.{reset}
use order_orchestrator.Tests.Worlds.{
  some_rows, some_world-Holds, one_failure, pending_world, failed_world,
}

execute_saga-SagaEnd_example :
    let (r, w') = execute_saga memory_platform "order-0001" "saga" pending_world in
    SagaEnd "order-0001" "saga" pending_world (some_rows OrderStatus.pending) r w'
execute_saga-SagaEnd_example =
    execute_saga-SagaEnd memory_platform-IsPlatform "order-0001" "saga" pending_world
      (some_rows OrderStatus.pending) (some_world-Holds OrderStatus.pending one_failure) refl

execute_saga-AllOrNothing_example :
    let (r, w') = execute_saga memory_platform "order-0001" "saga" pending_world in
    (b : Aggregate) × Holds "order-0001" w' b × AllOrNothing b r
execute_saga-AllOrNothing_example =
    execute_saga-AllOrNothing memory_platform-IsPlatform "order-0001" pending_world
      (some_rows OrderStatus.pending) "saga" (some_world-Holds OrderStatus.pending one_failure) refl
      refl refl

compensate-Undoes_example :
    (t : ℕ) × Undoes "order-0001"
      (compensate memory_platform "order-0001" "saga"
        (context_of true true)
        (Exception.error "late"))
      pending_world
      (undone true t (some_rows OrderStatus.pending))
      (compensation_logs "order-0001" "saga" (context_of true true) "late")
      (failed_payload "order-0001" "saga" OrderStatus.pending "late" ∷ [])
compensate-Undoes_example =
    compensate-Undoes memory_platform-IsPlatform "order-0001" "saga" pending_world
      (some_rows OrderStatus.pending) (some_world-Holds OrderStatus.pending one_failure)
      (context_of true true) (Exception.error "late")

handle_order_created-redelivered_example :
    let w' = (handle_order_created memory_platform "order-0001" pending_world).1 in
    handle_order_created memory_platform "order-0001" w' ≡ (ok tt, w')
handle_order_created-redelivered_example =
    handle_order_created-redelivered memory_platform-IsPlatform "order-0001" pending_world
      (some_rows OrderStatus.pending) (some_world-Holds OrderStatus.pending one_failure)

reprocess_failed_order-Reprocesses_example :
    let (r, w') = reprocess_failed_order memory_platform "order-0001" "admin" failed_world in
    Reprocesses "order-0001" "admin" failed_world (some_rows OrderStatus.failed) r w'
reprocess_failed_order-Reprocesses_example =
    reprocess_failed_order-Reprocesses memory_platform-IsPlatform "order-0001" "admin" failed_world
      (some_rows OrderStatus.failed) (some_world-Holds OrderStatus.failed [])

reprocess_failed_order-recovers_example :
    let (r, w') = reprocess_failed_order memory_platform "order-0001" "admin" failed_world in
    (t s : ℕ) × (r ≡ ok (fulfilled "order-0001" t s (reset (some_rows OrderStatus.failed))).order)
    × Holds "order-0001" w' (fulfilled "order-0001" t s (reset (some_rows OrderStatus.failed)))
reprocess_failed_order-recovers_example =
    reprocess_failed_order-recovers memory_platform-IsPlatform "order-0001" "admin" failed_world
      (some_rows OrderStatus.failed) (some_world-Holds OrderStatus.failed []) refl refl refl refl
