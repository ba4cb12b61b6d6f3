-- ===== src/Entities/Events.antt =====
-- Events, dead letters and the audit log (outbox-event.entity.ts, dead-letter-event.entity.ts,
-- audit-log.entity.ts, order-events.constants.ts).
use order_orchestrator.Base.{ℕ, String, Option, Bool, true, false}
use order_orchestrator.Entities.Aggregate.{OrderStatus}

-- `OrderEventType`
abbrev pub created_event : String
created_event = "ORDER_CREATED"

abbrev pub status_changed_event : String
status_changed_event = "ORDER_STATUS_CHANGED"

-- The JSON objects that the services write into `payload`.
pub data Payload : Type 0 where
  order_created : String → String → ℕ → OrderStatus → Payload
  status_changed : String → OrderStatus → OrderStatus → Bool → String → Option String → Payload

pub data OutboxEventStatus : Type 0 where
  pending processing published dead_letter : OutboxEventStatus

-- `a === b` on `OutboxEventStatus`.
abbrev pub event_status_eq : OutboxEventStatus → OutboxEventStatus → Bool
event_status_eq OutboxEventStatus.pending OutboxEventStatus.pending = true
event_status_eq OutboxEventStatus.processing OutboxEventStatus.processing = true
event_status_eq OutboxEventStatus.published OutboxEventStatus.published = true
event_status_eq OutboxEventStatus.dead_letter OutboxEventStatus.dead_letter = true
event_status_eq _ _ = false

pub record OutboxEvent : Type 0 where
  pub id : String
  pub aggregate_type : String
  pub aggregate_id : String
  pub event_type : String
  pub payload : Payload
  pub status : OutboxEventStatus
  pub retry_count : ℕ
  pub max_retries : ℕ
  pub next_retry_at : Option ℕ
  pub last_error : Option String
  pub published_at : Option ℕ
  pub created_at : ℕ

-- What a service gives to `manager.create(OutboxEvent, …)`; the other columns have defaults.
pub record NewEvent : Type 0 where
  pub aggregate_type : String
  pub aggregate_id : String
  pub event_type : String
  pub payload : Payload

-- The row of a new event, with the columns' defaults (`status`, `retryCount`, `maxRetries`).
abbrev pub event_row : String → ℕ → NewEvent → OutboxEvent
event_row id created_at e = record {
  id = id;
  aggregate_type = e.aggregate_type;
  aggregate_id = e.aggregate_id;
  event_type = e.event_type;
  payload = e.payload;
  status = OutboxEventStatus.pending;
  retry_count = 0;
  max_retries = 3;
  next_retry_at = Option.none;
  last_error = Option.none;
  published_at = Option.none;
  created_at = created_at;
}

pub record DeadLetterEvent : Type 0 where
  pub id : String
  pub source_event_id : String
  pub aggregate_type : String
  pub aggregate_id : String
  pub event_type : String
  pub payload : Payload
  pub failed_attempt_count : ℕ
  pub error_message : String
  pub dead_lettered_at : ℕ

-- What a service gives to `manager.create(DeadLetterEvent, …)`.
pub record NewDeadLetter : Type 0 where
  pub source_event_id : String
  pub aggregate_type : String
  pub aggregate_id : String
  pub event_type : String
  pub payload : Payload
  pub failed_attempt_count : ℕ
  pub error_message : String

abbrev pub dead_letter_row : String → ℕ → NewDeadLetter → DeadLetterEvent
dead_letter_row id dead_lettered_at e = record {
  id = id;
  source_event_id = e.source_event_id;
  aggregate_type = e.aggregate_type;
  aggregate_id = e.aggregate_id;
  event_type = e.event_type;
  payload = e.payload;
  failed_attempt_count = e.failed_attempt_count;
  error_message = e.error_message;
  dead_lettered_at = dead_lettered_at;
}

-- The JSON objects that the services write into `metadata`.
pub data Metadata : Type 0 where
  previous_status : OrderStatus → Metadata
  empty : Metadata
  error : String → Metadata

pub record AuditLog : Type 0 where
  pub order_id : String
  pub action : String
  pub actor : String
  pub reason : Option String
  pub metadata : Option Metadata

-- The row of an entry, with the time that the database gives to it.
pub record AuditRow : Type 0 where
  pub entry : AuditLog
  pub created_at : ℕ
