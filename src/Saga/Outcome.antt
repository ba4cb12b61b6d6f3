-- ===== src/Saga/Outcome.antt =====
-- The four ways in which a saga ends on a pending order that has all its rows.

use order_orchestrator.Base.{ℕ, String, none, some, true, false, [], ◌∷◌, ◌++◌, ◌≡◌, ◌≢◌, refl, ap}
use order_orchestrator.Entities.{OrderStatus, PaymentStatus, InventoryReservationStatus}
use order_orchestrator.Platform.{Platform}
use order_orchestrator.Platform.Laws.{IsPlatform}
use order_orchestrator.Exceptions.{Exception, message, Result, ok, err}
use order_orchestrator.World.{World, Metric}
use order_orchestrator.FailureInjection.RuleMap
use order_orchestrator.Aggregates.{Aggregate, Holds}
use order_orchestrator.Aggregates.Compose.{on_db}
use order_orchestrator.Saga.{
  CompensationContext, payment_key, inventory_key, shipment_key, requested_shipment, end_saga,
}
use order_orchestrator.Saga.Work.{entry}
use order_orchestrator.Saga.Compensation.{undone, compensation_logs, compensate-Undoes}
use order_orchestrator.Saga.Undoing.{failed_entry, failed_payload}
use order_orchestrator.Saga.Parts.{saga_payload, payment_text, inventory_text, shipment_text}
use order_orchestrator.Saga.Pieces.{Part, succeeded, stopped}

-- The rows of an order that has gone through: paid at `t`, shipped at `s`.
abbrev pub fulfilled : String → ℕ → ℕ → Aggregate → Aggregate
fulfilled id t s a = record {
  order = record (a.order) { status = OrderStatus.shipped };
  payment = record (a.payment) { status = PaymentStatus.authorized; processed_at = some t };
  reservation = record (a.reservation) { status = InventoryReservationStatus.confirmed };
  shipment = requested_shipment id s a.shipment;
}

module _ {P : Platform} (lawful : IsPlatform P) (id actor : String) (w : World P) (a : Aggregate)
    (h : Holds id w a) where
  -- The `catch`: it compensates, counts, and throws the error on.
  pub catch-Part :
      (context : CompensationContext) (e : Exception)
      → (t : ℕ) × (w' : World P) × (end_saga P id actor
            (record { result = err e; context = context; world = w })
          ≡ (err e, w'))
        × Part id w w'
            (undone context.inventory_confirmed t a)
            (compensation_logs id actor context (message e))
            (failed_payload id actor a.order.status (message e) ∷ [])
            (Metric.saga_total "compensated" ∷ [])
  unfolding end_saga
  catch-Part context e =
      let (t, u) = compensate-Undoes lawful id actor w a h context e in
      let w' : World P = record (u.end) {
        metrics = u.end.metrics ++ Metric.saga_total "compensated" ∷ [];
      } in
      (
        t,
        w',
        rw (u.runs),
        record {
          moves =
              on_db id w u.end w w' (undone context.inventory_confirmed t a)
                (compensation_logs id actor context (message e))
                (failed_payload id actor a.order.status (message e) ∷ []) refl refl u.moves;
          counted = ap (λ x. x ++ Metric.saga_total "compensated" ∷ []) u.same_metrics;
        },
      )

-- How a saga ends, with all that it has written: it completes, or the failure rule of one of its
-- steps makes it throw, and then what was done before is compensated.
pub data SagaEnd {P : Platform} (id actor : String) (w : World P) (a : Aggregate)
    (r : Result (Unit {0})) (w' : World P) : Type 0 where
  completed :
      (t s : ℕ)
      → r ≡ ok tt
      → Part id w w'
          (fulfilled id t s a)
          (entry id actor "SAGA_STARTED"
            ∷ entry id actor "PAYMENT_AUTHORIZED"
            ∷ entry id actor "ORDER_MARKED_PAID"
            ∷ entry id actor "INVENTORY_CONFIRMED"
            ∷ entry id actor "SHIPMENT_REQUESTED"
            ∷ entry id actor "SAGA_COMPLETED"
            ∷ [])
          (saga_payload id a.order.status OrderStatus.paid
            ∷ saga_payload id OrderStatus.paid OrderStatus.shipped
            ∷ [])
          (succeeded "payment_authorize"
            ∷ succeeded "inventory_confirm"
            ∷ succeeded "shipment_request"
            ∷ Metric.saga_total "success"
            ∷ [])
      → SagaEnd id actor w a r w'
  payment_failed :
      (t : ℕ)
      → RuleMap.get payment_key w.rules ≢ none
      → r ≡ err (Exception.error payment_text)
      → Part id w w'
          (undone false t a)
          (entry id actor "SAGA_STARTED" ∷ failed_entry id actor payment_text ∷ [])
          (failed_payload id actor a.order.status payment_text ∷ [])
          (stopped "payment_authorize" ∷ Metric.saga_total "compensated" ∷ [])
      → SagaEnd id actor w a r w'
  inventory_failed :
      (t : ℕ)
      → RuleMap.get inventory_key w.rules ≢ none
      → r ≡ err (Exception.error inventory_text)
      → Part id w w'
          (undone false t a)
          (entry id actor "SAGA_STARTED"
            ∷ entry id actor "PAYMENT_AUTHORIZED"
            ∷ entry id actor "ORDER_MARKED_PAID"
            ∷ entry id actor "COMPENSATION_PAYMENT_CANCELLED"
            ∷ failed_entry id actor inventory_text
            ∷ [])
          (saga_payload id a.order.status OrderStatus.paid
            ∷ failed_payload id actor OrderStatus.paid inventory_text
            ∷ [])
          (succeeded "payment_authorize"
            ∷ stopped "inventory_confirm"
            ∷ Metric.saga_total "compensated"
            ∷ [])
      → SagaEnd id actor w a r w'
  shipment_failed :
      (t : ℕ)
      → RuleMap.get shipment_key w.rules ≢ none
      → r ≡ err (Exception.error shipment_text)
      → Part id w w'
          (undone true t a)
          (entry id actor "SAGA_STARTED"
            ∷ entry id actor "PAYMENT_AUTHORIZED"
            ∷ entry id actor "ORDER_MARKED_PAID"
            ∷ entry id actor "INVENTORY_CONFIRMED"
            ∷ entry id actor "COMPENSATION_INVENTORY_RELEASED"
            ∷ entry id actor "COMPENSATION_PAYMENT_CANCELLED"
            ∷ failed_entry id actor shipment_text
            ∷ [])
          (saga_payload id a.order.status OrderStatus.paid
            ∷ failed_payload id actor OrderStatus.paid shipment_text
            ∷ [])
          (succeeded "payment_authorize"
            ∷ succeeded "inventory_confirm"
            ∷ stopped "shipment_request"
            ∷ Metric.saga_total "compensated"
            ∷ [])
      → SagaEnd id actor w a r w'
