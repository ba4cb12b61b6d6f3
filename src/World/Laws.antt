-- ===== src/World/Laws.antt =====
-- What each call of a repository answers, and the state that it leaves.
use order_orchestrator.Base.{
  ℕ, String, Option, List, Bool, Sort, IsLimit, Selects, filter, ◌≡◌, refl, has_key, ap,
}
use order_orchestrator.Entities.{
  Order, Payment, InventoryReservation, Shipment, NewEvent, AuditLog, AuditRow,
}
use order_orchestrator.Platform.{Platform}
use order_orchestrator.Platform.Laws.{IsPlatform, has_idempotency_key}
use order_orchestrator.Exceptions.{ok}
use order_orchestrator.World.State.{World}
use order_orchestrator.World.Tables.{
  insert_row, new_event_row, find_order, find_order_by_key, find_payment, find_reservation,
  find_shipment, save_order, save_payment, save_reservation, save_shipment, insert_event,
  insert_audit_log, new_audit_row, find_audit_logs,
}
use order_orchestrator.World.Reads.{
  order_of, order_of_key, payment_of, reservation_of, shipment_of, audit_rows,
}
use order_orchestrator.World.Writes.{
  put_order, put_payment, put_reservation, put_shipment, add_event, add_audit_log,
}

module _ {P : Platform} (w : World P) where
  pub save_order_run : (e : Order) → save_order P e w ≡ (ok tt, put_order w e)
  unfolding save_order
  save_order_run e = refl

  pub save_payment_run : (e : Payment) → save_payment P e w ≡ (ok tt, put_payment w e)
  unfolding save_payment
  save_payment_run e = refl

  pub save_reservation_run :
      (e : InventoryReservation) → save_reservation P e w ≡ (ok tt, put_reservation w e)
  unfolding save_reservation
  save_reservation_run e = refl

  pub save_shipment_run : (e : Shipment) → save_shipment P e w ≡ (ok tt, put_shipment w e)
  unfolding save_shipment
  save_shipment_run e = refl

module _ {P : Platform} (lawful : IsPlatform P) (w : World P) where
  pub find_order_run : (id : String) → find_order P id w ≡ (ok (order_of w id), w)
  unfolding find_order
  find_order_run id =
      ap (λ o. (ok o, w))
        (lawful.schema.orders.table.find_one_lem w.db.orders (has_key (λ o. o.id) id))

  pub find_payment_run : (id : String) → find_payment P id w ≡ (ok (payment_of w id), w)
  unfolding find_payment
  find_payment_run id =
      ap (λ o. (ok o, w))
        (lawful.schema.payments.table.find_one_lem w.db.payments (has_key (λ e. e.order_id) id))

  pub find_reservation_run : (id : String) → find_reservation P id w ≡ (ok (reservation_of w id), w)
  unfolding find_reservation
  find_reservation_run id =
      ap (λ o. (ok o, w))
        (lawful.schema.reservations.table.find_one_lem w.db.reservations
          (has_key (λ e. e.order_id) id))

  pub find_shipment_run : (id : String) → find_shipment P id w ≡ (ok (shipment_of w id), w)
  unfolding find_shipment
  find_shipment_run id =
      ap (λ o. (ok o, w))
        (lawful.schema.shipments.table.find_one_lem w.db.shipments (has_key (λ e. e.order_id) id))

  pub find_order_by_key_run : (k : String) → find_order_by_key P k w ≡ (ok (order_of_key w k), w)
  unfolding find_order_by_key
  find_order_by_key_run k =
      ap (λ o. (ok o, w))
        (lawful.schema.orders.table.find_one_lem w.db.orders (has_idempotency_key k))

  pub insert_event_run : (e : NewEvent) → insert_event P e w ≡ (ok tt, add_event w e)
  unfolding insert_event
  insert_event_run e =
      rw (
        lawful.schema.outbox.insert_free w.db.outbox (new_event_row P w e),
        insert_event,
        insert_row,
      )

  pub insert_audit_log_run : (a : AuditLog) → insert_audit_log P a w ≡ (ok tt, add_audit_log w a)
  unfolding insert_audit_log
  insert_audit_log_run a = rw (
    lawful.schema.audit_logs.insert_free w.db.audit_logs (new_audit_row P w a),
    insert_audit_log,
    insert_row,
  )

  pub find_audit_logs_run :
      (p : AuditRow → Bool) (s : Sort AuditRow) (skip : ℕ) (limit : Option ℕ)
      → IsLimit limit
      → (l : List AuditRow) × (find_audit_logs P p s skip limit w ≡ (ok l, w))
        × Selects s (filter p (audit_rows w)) skip limit l
  unfolding find_audit_logs
  find_audit_logs_run p s skip limit h =
      (_, refl, lawful.schema.audit_logs.find_many_lem w.db.audit_logs p s skip limit h)
