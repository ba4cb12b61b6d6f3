-- ===== src/World/Writes.antt =====
-- The states that the writes of the tables leave.
use order_orchestrator.Base.{suc}
use order_orchestrator.Entities.{Order, Payment, InventoryReservation, Shipment, NewEvent, AuditLog}
use order_orchestrator.Platform.{Platform}
use order_orchestrator.World.State.{World}
use order_orchestrator.World.Tables.{new_event_row, new_audit_row}

module _ {P : Platform} (w : World P) where
  -- The clock has been read once more.
  abbrev pub tick : World P
  tick = record w { host = record (w.host) { clock_reads = suc w.host.clock_reads } }

  abbrev pub put_order : Order → World P
  put_order o = record w { db = record (w.db) { orders = P.schema.orders.update w.db.orders o } }

  abbrev pub put_payment : Payment → World P
  put_payment p = record w {
    db = record (w.db) { payments = P.schema.payments.update w.db.payments p };
  }

  abbrev pub put_reservation : InventoryReservation → World P
  put_reservation r = record w {
    db = record (w.db) { reservations = P.schema.reservations.update w.db.reservations r };
  }

  abbrev pub put_shipment : Shipment → World P
  put_shipment s = record w {
    db = record (w.db) { shipments = P.schema.shipments.update w.db.shipments s };
  }

  abbrev pub add_order : Order → World P
  add_order o = record w { db = record (w.db) { orders = P.schema.orders.insert w.db.orders o } }

  abbrev pub add_payment : Payment → World P
  add_payment p = record w {
    db = record (w.db) { payments = P.schema.payments.insert w.db.payments p };
  }

  abbrev pub add_reservation : InventoryReservation → World P
  add_reservation r = record w {
    db = record (w.db) { reservations = P.schema.reservations.insert w.db.reservations r };
  }

  abbrev pub add_shipment : Shipment → World P
  add_shipment s = record w {
    db = record (w.db) { shipments = P.schema.shipments.insert w.db.shipments s };
  }

  abbrev pub add_event : NewEvent → World P
  add_event e = record w {
    db = record (w.db) { outbox = P.schema.outbox.insert w.db.outbox (new_event_row P w e) };
  }

  abbrev pub add_audit_log : AuditLog → World P
  add_audit_log a = record w {
    db = record (w.db) {
      audit_logs = P.schema.audit_logs.insert w.db.audit_logs (new_audit_row P w a);
    };
  }
