-- ===== src/Saga/Reset.antt =====
-- The reset of a failed order: `reprocessFailedOrder` up to its call of the saga.
use order_orchestrator.Base.{String, none, some, false, [], ◌∷◌, ◌≡◌, ◌≢◌, refl}
use order_orchestrator.Entities.{
  OrderStatus, status_eq, PaymentStatus, InventoryReservationStatus, ShipmentStatus, AuditLog,
  Metadata,
}
use order_orchestrator.Platform.{Platform}
use order_orchestrator.Platform.Laws.{IsPlatform}
use order_orchestrator.Exceptions.{ok, err}
use order_orchestrator.World.{World, continue, transaction}
use order_orchestrator.World.Writes.{
  put_order, put_payment, put_reservation, put_shipment, add_audit_log,
}
use order_orchestrator.World.Laws.{
  find_order_run, find_payment_run, find_reservation_run, find_shipment_run, save_order_run,
  save_payment_run, save_reservation_run, save_shipment_run,
}
use order_orchestrator.Aggregates.{Aggregate, Holds, Moves}
use order_orchestrator.Aggregates.Compose.{
  then_move, put_order-Moves, put_payment-Moves, put_reservation-Moves, put_shipment-Moves,
  add_audit_log-Moves,
}
use order_orchestrator.Aggregates.Effects.{own_order, own_payment, own_reservation, own_shipment}
use order_orchestrator.Orders.Status.{find_by_id}
use order_orchestrator.Saga.{execute_saga, reset_order, not_failed, reprocess_failed_order}
use order_orchestrator.Saga.Work.{log_run}

-- The rows of an order that is put back to its start.
abbrev pub reset : Aggregate → Aggregate
reset a = record {
  order = record (a.order) { status = OrderStatus.pending };
  payment = record (a.payment) { status = PaymentStatus.pending; processed_at = none };
  reservation = record (a.reservation) { status = InventoryReservationStatus.reserved };
  shipment = record (a.shipment) {
    status = ShipmentStatus.requested;
    carrier = none;
    tracking_number = none;
    shipped_at = none;
  };
}

-- What the reprocessing logs before and behind the reset.
abbrev pub requested_entry : String → String → AuditLog
requested_entry id actor = record {
  order_id = id;
  action = "REPROCESS_REQUESTED";
  actor = actor;
  reason = none;
  metadata = some (Metadata.previous_status OrderStatus.failed);
}

abbrev pub reset_entry : String → String → AuditLog
reset_entry id actor = record {
  order_id = id;
  action = "REPROCESS_RESET_COMPLETED";
  actor = actor;
  reason = none;
  metadata = some Metadata.empty;
}

abbrev reset_world : {P : Platform} → Aggregate → World P → World P
reset_world a w =
    let b = reset a in
    put_shipment (put_reservation (put_payment (put_order w b.order) b.payment) b.reservation)
      b.shipment

failed-ne : (s : OrderStatus) → s ≢ OrderStatus.failed → status_eq s OrderStatus.failed ≡ false
failed-ne OrderStatus.pending ne = refl
failed-ne OrderStatus.paid ne = refl
failed-ne OrderStatus.failed ne = absurd (ne refl)
failed-ne OrderStatus.shipped ne = refl

module _ {P : Platform} (lawful : IsPlatform P) (id : String) (w : World P) (a : Aggregate)
    (h : Holds id w a) where
  reset_order_run : transaction (reset_order P id) w ≡ (ok tt, reset_world a w)
  unfolding reset_order
  reset_order_run =
      let b = reset a in
      let w₁ = put_order w b.order in
      let w₂ = put_payment w₁ b.payment in
      let w₃ = put_reservation w₂ b.reservation in
      rw (find_order_run lawful w id, h.order_found)
        (rw (find_payment_run lawful w id, h.payment_found)
          (rw (find_reservation_run lawful w id, h.reservation_found)
            (rw (find_shipment_run lawful w id, h.shipment_found)
              (rw (save_order_run w b.order) (
                rw (save_payment_run w₁ b.payment) (
                  rw (save_reservation_run w₂ b.reservation) (
                    rw (save_shipment_run w₃ b.shipment)
                      (rw (lawful.commit_lem w.db (reset_world a w).db) refl))))))))

  reset-Moves : Moves id w (reset_world a w) (reset a) [] []
  reset-Moves =
      let b = reset a in
      let w₁ = put_order w b.order in
      let w₂ = put_payment w₁ b.payment in
      let w₃ = put_reservation w₂ b.reservation in
      let a₁ : Aggregate = record a { order = b.order } in
      let a₂ : Aggregate = record a₁ { payment = b.payment } in
      let a₃ : Aggregate = record a₂ { reservation = b.reservation } in
      let m₁ = put_order-Moves lawful id w a h b.order (own_order id w a h) in
      let m₂ = put_payment-Moves lawful id w₁ a₁ m₁.holds b.payment (own_payment id w a h) in
      let m₃ =
        put_reservation-Moves lawful id w₂ a₂ m₂.holds b.reservation (own_reservation id w a h) in
      let m₄ = put_shipment-Moves lawful id w₃ a₃ m₃.holds b.shipment (own_shipment id w a h) in
      then_move id w w₁ _ a₁ b [] [] [] [] m₁
        (then_move id w₁ w₂ _ a₂ b [] [] [] [] m₂ (then_move id w₂ w₃ _ a₃ b [] [] [] [] m₃ m₄))

module _ {P : Platform} (lawful : IsPlatform P) (id actor : String) (w : World P) (a : Aggregate)
    (h : Holds id w a) where
  -- The state in which the saga starts again.
  abbrev pub restarted : World P
  restarted =
      add_audit_log (reset_world a (add_audit_log w (requested_entry id actor)))
        (reset_entry id actor)

  pub restarted-Moves :
      Moves id w restarted (reset a) (requested_entry id actor ∷ reset_entry id actor ∷ []) []
  restarted-Moves =
      let v = add_audit_log w (requested_entry id actor) in
      let m = add_audit_log-Moves lawful id w a h (requested_entry id actor) in
      let n = reset-Moves lawful id v a m.holds in
      then_move id w v restarted a (reset a) _ _ [] [] m (
        then_move id v (reset_world a v) restarted (reset a) (reset a) [] _ [] [] n (
          add_audit_log-Moves lawful id (reset_world a v) (reset a) n.holds (reset_entry id actor)))

  pub restarts :
      a.order.status ≡ OrderStatus.failed
      → reprocess_failed_order P id actor w
        ≡ continue (execute_saga P id actor restarted) (λ _. find_by_id P id)
  unfolding reprocess_failed_order
  restarts failed =
      let v = add_audit_log w (requested_entry id actor) in
      let m = add_audit_log-Moves lawful id w a h (requested_entry id actor) in
      rw (find_order_run lawful w id, h.order_found)
        (rw failed (
          rw
            (log_run lawful id "REPROCESS_REQUESTED" actor
              (some (Metadata.previous_status OrderStatus.failed)) none w)
            (rw (reset_order_run lawful id v a m.holds) (
              rw
                (log_run lawful id "REPROCESS_RESET_COMPLETED" actor (some Metadata.empty) none
                  (reset_world a v))
                refl))))

  pub refuses :
      a.order.status ≢ OrderStatus.failed
      → reprocess_failed_order P id actor w ≡ (err (not_failed a.order.status), w)
  unfolding reprocess_failed_order
  refuses ne =
      rw (find_order_run lawful w id, h.order_found) (rw (failed-ne a.order.status ne) refl)
