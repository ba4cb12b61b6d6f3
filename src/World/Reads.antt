-- ===== src/World/Reads.antt =====
-- What the tables of a state hold, as the theorems speak of it.
use order_orchestrator.Base.{String, Option, List, map, first, has_key}
use order_orchestrator.Entities.{
  Order, Payment, InventoryReservation, Shipment, OutboxEvent, DeadLetterEvent, AuditLog, AuditRow,
}
use order_orchestrator.Platform.{Platform}
use order_orchestrator.Platform.Laws.{has_idempotency_key}
use order_orchestrator.World.State.{World}

module _ {P : Platform} (w : World P) where
  abbrev pub orders : List Order
  orders = P.schema.orders.rows w.db.orders

  abbrev pub payments : List Payment
  payments = P.schema.payments.rows w.db.payments

  abbrev pub reservations : List InventoryReservation
  reservations = P.schema.reservations.rows w.db.reservations

  abbrev pub shipments : List Shipment
  shipments = P.schema.shipments.rows w.db.shipments

  abbrev pub events : List OutboxEvent
  events = P.schema.outbox.rows w.db.outbox

  abbrev pub audit_logs : List AuditLog
  audit_logs = map (λ r. r.entry) (P.schema.audit_logs.rows w.db.audit_logs)

  abbrev pub audit_rows : List AuditRow
  audit_rows = P.schema.audit_logs.rows w.db.audit_logs

  abbrev pub event_of : String → Option OutboxEvent
  event_of id = first (has_key (λ e. e.id) id) events

  abbrev pub dead_letters : List DeadLetterEvent
  dead_letters = P.schema.dead_letters.rows w.db.dead_letters

  abbrev pub dead_letter_of : String → Option DeadLetterEvent
  dead_letter_of id = first (has_key (λ e. e.id) id) dead_letters

  abbrev pub order_of : String → Option Order
  order_of id = first (has_key (λ o. o.id) id) orders

  abbrev pub order_of_key : String → Option Order
  order_of_key k = first (has_idempotency_key k) orders

  abbrev pub payment_of : String → Option Payment
  payment_of id = first (has_key (λ e. e.order_id) id) payments

  abbrev pub reservation_of : String → Option InventoryReservation
  reservation_of id = first (has_key (λ e. e.order_id) id) reservations

  abbrev pub shipment_of : String → Option Shipment
  shipment_of id = first (has_key (λ e. e.order_id) id) shipments
