-- ===== src/World/Tables.antt =====
-- The calls of the repositories and of the transaction's `manager`, table by table.
use order_orchestrator.Base.{ℕ, String, Option, none, some, List, Bool, Sort, has_key}
use order_orchestrator.Entities.{
  Order, Payment, InventoryReservation, Shipment, OutboxEvent, NewEvent, event_row, AuditLog,
  AuditRow,
}
use order_orchestrator.Platform.{Table, Platform}
use order_orchestrator.Platform.Laws.{has_idempotency_key}
use order_orchestrator.Exceptions.{Exception, Result, ok, err}
use order_orchestrator.World.State.{World}
use order_orchestrator.World.Monad.{Action}

-- `save` of an entity that `create` has made: the new rows, or a `QueryFailedError`.
abbrev pub insert_row : {E : Type 0} (T : Table E) → T.Rows → E → Result T.Rows
insert_row T t e = elim (T.insert_error t e) [
  | none ↦ ok (T.insert t e)
  | some m ↦ err (Exception.query_failed m)
]

module _ (P : Platform) where
  -- `findOne(Order, { where: { id } })`
  unfoldable pub find_order : String → Action P (Option Order)
  find_order id w = (ok (P.schema.orders.find_one w.db.orders (has_key (λ o. o.id) id)), w)

  -- `findOne(Order, { where: { idempotencyKey } })`
  unfoldable pub find_order_by_key : String → Action P (Option Order)
  find_order_by_key k w = (ok (P.schema.orders.find_one w.db.orders (has_idempotency_key k)), w)

  -- `findOne(Payment, { where: { orderId } })`, and so for the next two tables
  unfoldable pub find_payment : String → Action P (Option Payment)
  find_payment id w =
      (ok (P.schema.payments.find_one w.db.payments (has_key (λ e. e.order_id) id)), w)

  unfoldable pub find_reservation : String → Action P (Option InventoryReservation)
  find_reservation id w =
      (ok (P.schema.reservations.find_one w.db.reservations (has_key (λ e. e.order_id) id)), w)

  unfoldable pub find_shipment : String → Action P (Option Shipment)
  find_shipment id w =
      (ok (P.schema.shipments.find_one w.db.shipments (has_key (λ e. e.order_id) id)), w)

  -- `save` of a row that was read
  unfoldable pub save_order : Order → Action P (Unit {0})
  save_order o w =
      (ok tt, record w { db = record (w.db) { orders = P.schema.orders.update w.db.orders o } })

  unfoldable pub save_payment : Payment → Action P (Unit {0})
  save_payment p w = (
    ok tt,
    record w { db = record (w.db) { payments = P.schema.payments.update w.db.payments p } },
  )

  unfoldable pub save_reservation : InventoryReservation → Action P (Unit {0})
  save_reservation r w = (
    ok tt,
    record w {
      db = record (w.db) { reservations = P.schema.reservations.update w.db.reservations r };
    },
  )

  unfoldable pub save_shipment : Shipment → Action P (Unit {0})
  save_shipment s w = (
    ok tt,
    record w { db = record (w.db) { shipments = P.schema.shipments.update w.db.shipments s } },
  )

  -- `save` of a new row
  unfoldable pub insert_order : Order → Action P (Unit {0})
  insert_order o w = elim (insert_row P.schema.orders w.db.orders o) [
    | ok t ↦ (ok tt, record w { db = record (w.db) { orders = t } })
    | err e ↦ (err e, w)
  ]

  unfoldable pub insert_payment : Payment → Action P (Unit {0})
  insert_payment p w = elim (insert_row P.schema.payments w.db.payments p) [
    | ok t ↦ (ok tt, record w { db = record (w.db) { payments = t } })
    | err e ↦ (err e, w)
  ]

  unfoldable pub insert_reservation : InventoryReservation → Action P (Unit {0})
  insert_reservation r w = elim (insert_row P.schema.reservations w.db.reservations r) [
    | ok t ↦ (ok tt, record w { db = record (w.db) { reservations = t } })
    | err e ↦ (err e, w)
  ]

  unfoldable pub insert_shipment : Shipment → Action P (Unit {0})
  insert_shipment s w = elim (insert_row P.schema.shipments w.db.shipments s) [
    | ok t ↦ (ok tt, record w { db = record (w.db) { shipments = t } })
    | err e ↦ (err e, w)
  ]

  -- The row that the database makes of a new event.
  abbrev pub new_event_row : World P → NewEvent → OutboxEvent
  new_event_row w e =
      event_row (P.schema.outbox.generated_id w.db.outbox)
        (P.schema.outbox.generated_at w.db.outbox) e

  unfoldable pub insert_event : NewEvent → Action P (Unit {0})
  insert_event e w = elim (insert_row P.schema.outbox w.db.outbox (new_event_row w e)) [
    | ok t ↦ (ok tt, record w { db = record (w.db) { outbox = t } })
    | err x ↦ (err x, w)
  ]

  -- The row that the database makes of a new entry of the audit log.
  abbrev pub new_audit_row : World P → AuditLog → AuditRow
  new_audit_row w a = record {
    entry = a;
    created_at = P.schema.audit_logs.generated_at w.db.audit_logs;
  }

  unfoldable pub insert_audit_log : AuditLog → Action P (Unit {0})
  insert_audit_log a w = elim (insert_row P.schema.audit_logs w.db.audit_logs (new_audit_row w a)) [
    | ok t ↦ (ok tt, record w { db = record (w.db) { audit_logs = t } })
    | err e ↦ (err e, w)
  ]

  unfoldable pub find_audit_logs :
      (AuditRow → Bool) → Sort AuditRow → ℕ → Option ℕ → Action P (List AuditRow)
  find_audit_logs p s skip limit w =
      (ok (P.schema.audit_logs.find_many w.db.audit_logs p s skip limit), w)
