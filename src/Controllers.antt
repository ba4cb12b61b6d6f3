-- ===== src/Controllers.antt =====
-- The handlers of the controllers (src/orders/orders.controller.ts, admin-orders.controller.ts and
-- outbox-admin.controller.ts), behind the routing and the validation of the framework. The text of
-- a `limit` or `offset` in a query is taken to be that of a number.
pub mod Failures
use order_orchestrator.Base.{ℕ, String, Option, none, List, [], Bool, false, text_append}
use order_orchestrator.Platform.{Platform}
use order_orchestrator.Entities.{Order, OrderStatus, OutboxEvent, DeadLetterEvent, AuditRow}
use order_orchestrator.World.{Rules, Action, ◌>>=◌, ◌>>◌, pure}
use order_orchestrator.AuditTrail.{find_by_order_id}
use order_orchestrator.Orders.Status.{find_by_id, update_status, force_status}
use order_orchestrator.Orders.Create.{CreateOrderDto, create}
use order_orchestrator.Saga.{or_else, reprocess_failed_order}
use order_orchestrator.FailureInjection.{set_rule, get_rules}
use order_orchestrator.Outbox.{DispatchResult, dispatch_pending, get_pending_events}
use order_orchestrator.DeadLetters.{
  DlqReprocessResult, get_dead_letter_events, reprocess_dlq_event, reprocess_dlq_batch,
}

pub record UpdateOrderStatusDto : Type 0 where
  pub status : OrderStatus

pub record ForceOrderStatusDto : Type 0 where
  pub status : OrderStatus
  pub reason : Option String
  pub actor : Option String

pub record ReprocessOrderDto : Type 0 where
  pub actor : Option String

pub record SetFailurePointDto : Type 0 where
  pub key : String
  pub fail_count : ℕ
  pub ttl_ms : Option ℕ

pub record SetFailureRuleDto : Type 0 where
  pub event_type : String
  pub fail_count : ℕ
  pub ttl_ms : Option ℕ

pub record DispatchOutboxDto : Type 0 where
  pub limit : Option ℕ
  pub force : Option Bool

pub record ReprocessDlqBatchDto : Type 0 where
  pub ids : Option (List String)
  pub event_type : Option String

-- `{ id, status: 'reprocessed' }`
pub record ReprocessedBody : Type 0 where
  pub id : String
  pub status : String

module _ (P : Platform) where
  -- `OrdersController`
  unfoldable pub create_order : CreateOrderDto → Option String → Action P Order
  create_order dto idempotency_key = create P dto idempotency_key

  unfoldable pub get_order : String → Action P Order
  get_order id = find_by_id P id

  unfoldable pub update_order_status : String → UpdateOrderStatusDto → Action P Order
  update_order_status id dto = update_status P id dto.status

  -- `AdminOrdersController`
  unfoldable pub reprocess_order : String → ReprocessOrderDto → Action P Order
  reprocess_order id dto = reprocess_failed_order P id (or_else dto.actor "admin")

  unfoldable pub force_order_status : String → ForceOrderStatusDto → Action P Order
  force_order_status id dto = force_status P id dto.status (or_else dto.actor "admin") dto.reason

  unfoldable pub get_audit_logs : String → Option ℕ → Action P (List AuditRow)
  get_audit_logs id limit = find_by_order_id P id (or_else limit 100)

  unfoldable pub get_failure_points : Action P Rules
  get_failure_points = get_rules P

  unfoldable pub set_failure_point : SetFailurePointDto → Action P Rules
  set_failure_point dto = set_rule P dto.key dto.fail_count dto.ttl_ms >> get_rules P

  -- `OutboxAdminController`
  unfoldable pub get_pending : Option ℕ → Action P (List OutboxEvent)
  get_pending limit = get_pending_events P (or_else limit 50)

  unfoldable pub dispatch : DispatchOutboxDto → Action P DispatchResult
  dispatch dto = dispatch_pending P (or_else dto.limit 20) (or_else dto.force false)

  unfoldable pub get_dlq : Option ℕ → Option ℕ → Option String → Action P (List DeadLetterEvent × ℕ)
  get_dlq limit offset event_type =
      get_dead_letter_events P (or_else limit 50) (or_else offset 0) event_type

  unfoldable pub reprocess_dlq : String → Action P ReprocessedBody
  reprocess_dlq id = do reprocess_dlq_event P id; pure (record { id = id; status = "reprocessed" })

  unfoldable pub reprocess_dlq_many : ReprocessDlqBatchDto → Action P DlqReprocessResult
  reprocess_dlq_many dto = reprocess_dlq_batch P (or_else dto.ids []) dto.event_type

  unfoldable pub set_failure_rule : SetFailureRuleDto → Action P Rules
  set_failure_rule dto =
      set_rule P (text_append "EVENT:" dto.event_type) dto.fail_count dto.ttl_ms >> get_rules P

  unfoldable pub get_failure_rules : Action P Rules
  get_failure_rules = get_rules P
