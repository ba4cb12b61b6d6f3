-- ===== src/Saga/Steps.antt =====
-- The three steps of the saga on an order that has all its rows.
use order_orchestrator.Base.{ℕ, String, some, refl}
use order_orchestrator.Entities.{PaymentStatus, InventoryReservationStatus}
use order_orchestrator.Platform.{Platform}
use order_orchestrator.Platform.Laws.{IsPlatform}
use order_orchestrator.World.{World}
use order_orchestrator.Aggregates.{Aggregate, Holds}
use order_orchestrator.Saga.{
  payment_key, inventory_key, shipment_key, requested_shipment, payment_work, inventory_work,
  shipment_work, authorize_payment, confirm_inventory, request_shipment,
}
use order_orchestrator.Saga.Work.{
  StepEnd, guarded_step, payment_work_run, inventory_work_run, shipment_work_run,
}

-- The row that each step leaves, at the time `t`.
abbrev pub authorized : Aggregate → ℕ → Aggregate
authorized a t = record a {
  payment = record (a.payment) { status = PaymentStatus.authorized; processed_at = some t };
}

abbrev pub confirmed : Aggregate → ℕ → Aggregate
confirmed a t = record a {
  reservation = record (a.reservation) { status = InventoryReservationStatus.confirmed };
}

abbrev pub requested : String → Aggregate → ℕ → Aggregate
requested id a t = record a { shipment = requested_shipment id t a.shipment }

module _ {P : Platform} (lawful : IsPlatform P) (id actor : String) (w : World P) (a : Aggregate)
    (h : Holds id w a) where
  pub authorize_payment-StepEnd :
      let (r, w') = authorize_payment P id actor w in
      StepEnd id actor payment_key "Injected failure at payment authorize step" "PAYMENT_AUTHORIZED"
        w a
        (authorized a)
        r
        w'
  unfolding authorize_payment
  authorize_payment-StepEnd =
      guarded_step id actor payment_key "Injected failure at payment authorize step"
        "PAYMENT_AUTHORIZED" w a h (authorized a) (payment_work P id actor)
        λ v hv.
          let (runs, m) = payment_work_run lawful id actor v a hv in
          (P.now v.host.clock_reads, _, runs, m, refl, refl)

  pub confirm_inventory-StepEnd :
      let (r, w') = confirm_inventory P id actor w in
      StepEnd id actor inventory_key "Injected failure at inventory confirm step"
        "INVENTORY_CONFIRMED" w a
        (confirmed a)
        r
        w'
  unfolding confirm_inventory
  confirm_inventory-StepEnd =
      guarded_step id actor inventory_key "Injected failure at inventory confirm step"
        "INVENTORY_CONFIRMED" w a h (confirmed a) (inventory_work P id actor)
        λ v hv.
          let (runs, m) = inventory_work_run lawful id actor v a hv in
          (P.now v.host.clock_reads, _, runs, m, refl, refl)

  pub request_shipment-StepEnd :
      let (r, w') = request_shipment P id actor w in
      StepEnd id actor shipment_key "Injected failure at shipment request step" "SHIPMENT_REQUESTED"
        w a
        (requested id a)
        r
        w'
  unfolding request_shipment
  request_shipment-StepEnd =
      guarded_step id actor shipment_key "Injected failure at shipment request step"
        "SHIPMENT_REQUESTED" w a h (requested id a) (shipment_work P id actor)
        λ v hv.
          let (runs, m) = shipment_work_run lawful id actor v a hv in
          (P.now v.host.clock_reads, _, runs, m, refl, refl)
