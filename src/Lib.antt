-- ===== src/Lib.antt =====
-- Order orchestrator: a model of the order services, and what they promise.
--
-- The program is a NestJS service over TypeORM and SQLite. `OrdersService` keeps orders and changes
-- their status under a state machine; each order has a payment, an inventory reservation and a
-- shipment. `SagaOrchestratorService` takes a new order through payment, inventory and shipment and
-- compensates when a step fails; `FailureInjectionService` makes steps fail on purpose, and
-- `AuditLogService` keeps a log. Events are written to an outbox table in the transaction of the
-- change that they report; `OutboxProcessorService` claims them one by one and hands them to
-- `OrderEventConsumerService`, which starts the saga, and it retries the failed ones with a growing
-- delay and moves them to the dead letters at the end.
--
-- The files:
-- Entities: the rows (src/orders/entities, src/orders/order-status.enum.ts,
--   src/orders/order-events.constants.ts), with the columns that the services read or write.
-- Platform: the libraries below the program, as a parameter: a table with its `findOne`, `save`,
--   `remove`, queries and bulk updates, transactions, the clock, random bytes, the text
--   of a time in a column, the comparison of texts, and the base of the retry delay. Platform/Laws
--   states what their documentation promises, and Platform/Memory is an instance of it.
-- DateText: times as texts, with `toISOString()`.
-- Host, World: the state of a run (database, failure rules, clock, counters), methods as actions
--   that pass it on and may throw, and the calls of the repositories.
-- Exceptions: what a method throws.
-- StateMachine: src/orders/order-state-machine.service.ts, and its diagram as a relation.
-- FailureInjection: src/orders/failure-injection.service.ts. Laws is about series of calls and what
--   they leave alone, Calls about a single one.
-- AuditTrail: src/orders/audit-log.service.ts.
-- Orders/Status: `findById`, `updateStatus`, `forceStatus` and `persistStatusChange` of
--   src/orders/orders.service.ts.
-- Orders/Create: `create` of the same file, with its idempotency key and its attempts.
-- Uuid: src/common/utils/uuidv7.util.ts.
-- Aggregates: the four rows of one order, and how an action moves them and leaves those of other
--   orders alone.
-- Saga: src/orders/saga-orchestrator.service.ts, with `executeStep`, the three steps,
--   `compensate`, `executeSaga`, `handleOrderCreated` and `reprocessFailedOrder`.
-- Consumer: src/orders/order-event-consumer.service.ts, which takes the events of the outbox.
-- Outbox: the dispatch of src/orders/outbox-processor.service.ts. Frame, SagaFrame and ConsumeFrame
--   show what the consumption of an event leaves alone; Claim, Delivery, Runs, Attempt and Skipped
--   are about one attempt; Selection about the events of a batch, Dispatch and
--   Batch about the batch; Retries, Waits and Poison about repeated
--   attempts; Behind and SagaDelivery about the event that starts the saga, and OrderFlow about
--   an order from its creation to its shipment; Backoff about the time of a retry; Lifecycle about
--   `onModuleInit` and `onModuleDestroy`.
-- DeadLetters: `getDeadLetterEvents`, `reprocessDlqEvent` and `reprocessDlqBatch` of the same file.
--   Reprocess is about one dead letter; Targets, Loop, Returns and Batch about a batch of them.
-- Http: src/common/filters/http-exception.filter.ts around a handler.
-- Controllers: the handlers of src/orders/orders.controller.ts, admin-orders.controller.ts and
--   outbox-admin.controller.ts beside it, and the data of src/orders/dto.
-- Base: shared names, tests and lemmas. Tests: concrete runs.
--
-- Conventions: a method is a function from a state to a result and a state, and what it wrote before
-- a throw stays written unless a transaction takes it back. Times are milliseconds
-- since 1970, and as texts those up to the year 9999; the clock
-- answers its n-th reading by a function of n. Amounts and counts are natural numbers, without the
-- bound of a JavaScript number. The three attempts of `create` are recursion on their number; the
-- wait of the id generator has as fuel the number of readings after which the laws of the platform
-- say that the clock has passed, and reads the clock once more at its end.
-- Methods of one process run one after the other; there is no interleaving inside a method. That an
-- event may be claimed by another process is a statement about the state behind a claim.
-- `OUTBOX_RETRY_BASE_MS` is taken to be a whole number, and a limit to be above 0, since TypeORM
-- leaves out a limit of 0.
--
-- `save` of an order with an id that is taken updates that row, as TypeORM does. An `Order` that a
-- method returns is its row, without the relations that TypeORM loads with it.
--
-- The loop of `onModuleDestroy` has fuel for 101 rounds: its deadline is 10 seconds off, and each
-- round sleeps for 100 ms. What the other methods do meanwhile is a parameter.
--
-- Not modelled: the routing and the validation of requests, which the framework does by
-- declarations; the wiring and start-up, spans and duration timers, and the columns that only the
-- database uses (generated ids of the rows of an order and of the audit log, update times).
pub mod Base
pub mod DateText
pub mod Entities
pub mod Platform
pub mod Exceptions
pub mod StateMachine
pub mod Host
pub mod World
pub mod FailureInjection
pub mod AuditTrail
pub mod Orders
pub mod Saga
pub mod Tests
pub mod Consumer
pub mod Outbox
pub mod DeadLetters
pub mod Http
pub mod Controllers
pub mod Uuid
pub mod Aggregates
