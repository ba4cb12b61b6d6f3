-- ===== src/Saga.antt =====
-- `SagaOrchestratorService` (src/orders/saga-orchestrator.service.ts). The spans and the timer of
-- the telemetry are left out; the counters are kept.
pub mod Work
pub mod Steps
pub mod Undoing
pub mod Compensation
pub mod Pieces
pub mod Parts
pub mod Outcome
pub mod Contract
pub mod Handlers
pub mod Reset
pub mod Reprocess
use order_orchestrator.Base.{
  ℕ, String, Option, none, some, Bool, true, false, str_eq, text_append, slice_to, to_upper,
  if◌then◌else◌,
}
use order_orchestrator.Entities.{
  Order, OrderStatus, status_eq, status_text, Payment, PaymentStatus, InventoryReservationStatus,
  ShipmentStatus, Shipment, Metadata,
}
use order_orchestrator.Platform.{Platform}
use order_orchestrator.Exceptions.{Exception, message, Result, ok, err}
use order_orchestrator.World.{
  World, Metric, Action, continue, ◌>>=◌, ◌>>◌, pure, throw, or_throw, when, when_some, recover,
  try_catch, transaction, current_time, record_metric, find_order, find_payment, find_reservation,
  find_shipment, save_order, save_payment, save_reservation, save_shipment,
}
use order_orchestrator.AuditTrail.{log}
use order_orchestrator.FailureInjection.{throw_if_configured}
use order_orchestrator.Orders.Status.{
  order_not_found, find_by_id, settle_payment, update_status, force_status,
}

-- `CompensationContext`
pub record CompensationContext : Type 0 where
  pub payment_authorized : Bool
  pub inventory_confirmed : Bool

-- How the body of a `try` ends: its result, and the variables that the `catch` reads.
pub record Attempt (P : Platform) : Type 0 where
  pub result : Result (Unit {0})
  pub context : CompensationContext
  pub world : World P

-- `TRK-${orderId.slice(0, 8).toUpperCase()}`
abbrev pub tracking_number_of : String → String
tracking_number_of order_id = text_append "TRK-" (to_upper (slice_to order_id 8))

-- `a ?? b`
abbrev pub or_else : {A : Type 0} → Option A → A → A
or_else none b = b
or_else (some a) b = a

-- The assignments of `requestShipment`.
abbrev pub requested_shipment : String → ℕ → Shipment → Shipment
requested_shipment order_id t shipment = record shipment {
  status = ShipmentStatus.shipped;
  shipped_at = some t;
  carrier = some (or_else shipment.carrier "TOY-DELIVERY");
  tracking_number = some (or_else shipment.tracking_number (tracking_number_of order_id));
}

abbrev pub payment_key : String
payment_key = "SAGA:PAYMENT_AUTHORIZE"

abbrev pub inventory_key : String
inventory_key = "SAGA:INVENTORY_CONFIRM"

abbrev pub shipment_key : String
shipment_key = "SAGA:SHIPMENT_REQUEST"

abbrev pub context_of : Bool → Bool → CompensationContext
context_of paid confirmed = record { payment_authorized = paid; inventory_confirmed = confirmed }

-- `Only FAILED orders can be reprocessed. current=${order.status}`
abbrev pub not_failed : OrderStatus → Exception
not_failed status =
    Exception.conflict
      (text_append "Only FAILED orders can be reprocessed. current=" (status_text status))

module _ (P : Platform) where
  -- `log` with no metadata and no reason
  abbrev pub note : String → String → String → Action P (Unit {0})
  note order_id action actor = log P order_id action actor none none

  -- The step's counter, by how the step has ended.
  abbrev pub count_step : String → Result (Unit {0}) × World P → Result (Unit {0}) × World P
  count_step step (ok u, w) = record_metric (Metric.saga_step_total step "success") w
  count_step step (err e, w) =
      continue (record_metric (Metric.saga_step_total step "failed") w) (λ _. throw e)

  abbrev pub execute_step : String → Action P (Unit {0}) → Action P (Unit {0})
  execute_step step m w = count_step step (m w)

  -- The rest of `authorizePayment`, behind its failure rule; so for the next two steps.
  unfoldable pub payment_work : String → String → Action P (Unit {0})
  payment_work order_id actor = do
    found ← find_payment P order_id
    payment ←
        or_throw found (Exception.not_found (text_append "Payment not found for order: " order_id))
    t ← current_time
    save_payment P (record payment { status = PaymentStatus.authorized; processed_at = some t })
    note order_id "PAYMENT_AUTHORIZED" actor

  unfoldable pub authorize_payment : String → String → Action P (Unit {0})
  authorize_payment order_id actor =
      throw_if_configured P payment_key "Injected failure at payment authorize step"
      >> payment_work order_id actor

  -- The rest of `confirmInventory`.
  unfoldable pub inventory_work : String → String → Action P (Unit {0})
  inventory_work order_id actor = do
    found ← find_reservation P order_id
    inventory ←
        or_throw found
          (Exception.not_found (text_append "Inventory reservation not found for order: " order_id))
    save_reservation P (record inventory { status = InventoryReservationStatus.confirmed })
    note order_id "INVENTORY_CONFIRMED" actor

  unfoldable pub confirm_inventory : String → String → Action P (Unit {0})
  confirm_inventory order_id actor =
      throw_if_configured P inventory_key "Injected failure at inventory confirm step"
      >> inventory_work order_id actor

  -- The rest of `requestShipment`.
  unfoldable pub shipment_work : String → String → Action P (Unit {0})
  shipment_work order_id actor = do
    found ← find_shipment P order_id
    shipment ←
        or_throw found (Exception.not_found (text_append "Shipment not found for order: " order_id))
    t ← current_time
    save_shipment P (requested_shipment order_id t shipment)
    note order_id "SHIPMENT_REQUESTED" actor

  unfoldable pub request_shipment : String → String → Action P (Unit {0})
  request_shipment order_id actor =
      throw_if_configured P shipment_key "Injected failure at shipment request step"
      >> shipment_work order_id actor

  -- `if (context.inventoryConfirmed) { … }`
  unfoldable pub release_inventory : String → String → Action P (Unit {0})
  release_inventory order_id actor = do
    found ← find_reservation P order_id
    when_some found (λ inventory. do
      save_reservation P (record inventory { status = InventoryReservationStatus.released })
      note order_id "COMPENSATION_INVENTORY_RELEASED" actor)

  -- `if (context.paymentAuthorized) { … }`
  unfoldable pub cancel_payment : String → String → Action P (Unit {0})
  cancel_payment order_id actor = do
    found ← find_payment P order_id
    when_some found (λ payment. do
      t ← current_time
      save_payment P (record payment { status = PaymentStatus.cancelled; processed_at = some t })
      note order_id "COMPENSATION_PAYMENT_CANCELLED" actor)

  unfoldable pub compensate :
      String → String → CompensationContext → Exception → Action P (Unit {0})
  compensate order_id actor context e = do
    when context.inventory_confirmed (release_inventory order_id actor)
    when context.payment_authorized (cancel_payment order_id actor)
    force_status P order_id OrderStatus.failed actor
        (some (text_append "Saga failed: " (message e)))
    log P order_id "SAGA_FAILED" actor (some (Metadata.error (message e))) (some (message e))

  -- The rest of the `try` runs if this part of it has not thrown.
  abbrev pub attempt :
      CompensationContext → Result (Unit {0}) × World P → (World P → Attempt P) → Attempt P
  attempt context (ok u, w) rest = rest w
  attempt context (err e, w) rest = record { result = err e; context = context; world = w }

  -- The `try` of `executeSaga`, cut where it assigns to the context.
  unfoldable pub ship_order : String → String → Action P (Unit {0})
  ship_order order_id actor = do
    execute_step "shipment_request" (request_shipment order_id actor)
    update_status P order_id OrderStatus.shipped
    note order_id "SAGA_COMPLETED" actor
    record_metric (Metric.saga_total "success")

  unfoldable pub confirm_order : String → String → Action P (Unit {0})
  confirm_order order_id actor = do
    update_status P order_id OrderStatus.paid
    note order_id "ORDER_MARKED_PAID" actor
    execute_step "inventory_confirm" (confirm_inventory order_id actor)

  unfoldable pub saga_body : String → String → World P → Attempt P
  saga_body order_id actor w =
      attempt (context_of false false)
        (execute_step "payment_authorize" (authorize_payment order_id actor) w)
        (λ w₁. attempt (context_of true false) (confirm_order order_id actor w₁) (λ w₂.
          attempt (context_of true true) (ship_order order_id actor w₂)
            (λ w₃. record { result = ok tt; context = context_of true true; world = w₃ })))

  -- The `catch` of `executeSaga`.
  unfoldable pub end_saga : String → String → Attempt P → Result (Unit {0}) × World P
  end_saga order_id actor a = elim a.result [
    | ok _ ↦ (ok tt, a.world)
    | err e ↦
        (compensate order_id actor a.context e
            >> record_metric (Metric.saga_total "compensated")
            >> throw e)
          a.world
  ]

  unfoldable pub execute_saga : String → String → Action P (Unit {0})
  execute_saga order_id actor = do
    note order_id "SAGA_STARTED" actor
    λ w. end_saga order_id actor (saga_body order_id actor w)

  unfoldable pub handle_order_created : String → Action P (Unit {0})
  handle_order_created order_id = do
    found ← find_order P order_id
    order ← or_throw found (order_not_found order_id)
    if status_eq order.status OrderStatus.pending then execute_saga order_id "saga" else pure tt

  -- The callback of the transaction of `reprocessFailedOrder`: the four rows are read before the
  -- first of them is missed.
  unfoldable pub reset_order : String → Action P (Unit {0})
  reset_order order_id = do
    found_order ← find_order P order_id
    found_payment ← find_payment P order_id
    found_inventory ← find_reservation P order_id
    found_shipment ← find_shipment P order_id
    let incomplete = Exception.not_found (text_append "Order aggregate not complete: " order_id)
    order ← or_throw found_order incomplete
    payment ← or_throw found_payment incomplete
    inventory ← or_throw found_inventory incomplete
    shipment ← or_throw found_shipment incomplete
    save_order P (record order { status = OrderStatus.pending })
    save_payment P (record payment { status = PaymentStatus.pending; processed_at = none })
    save_reservation P (record inventory { status = InventoryReservationStatus.reserved })
    save_shipment P (record shipment {
      status = ShipmentStatus.requested;
      carrier = none;
      tracking_number = none;
      shipped_at = none;
    })

  unfoldable pub reprocess_failed_order : String → String → Action P Order
  reprocess_failed_order order_id actor = do
    found ← find_order P order_id
    order ← or_throw found (order_not_found order_id)
    if status_eq order.status OrderStatus.failed then pure tt else throw (not_failed order.status)
    log P order_id "REPROCESS_REQUESTED" actor (some (Metadata.previous_status order.status)) none
    transaction (reset_order order_id)
    log P order_id "REPROCESS_RESET_COMPLETED" actor (some Metadata.empty) none
    execute_saga order_id actor
    find_by_id P order_id
