-- ===== src/Orders/Status.antt =====
-- `findById`, `updateStatus`, `forceStatus` and what they call (orders.service.ts).
pub mod Runs
pub mod Effects
pub mod Laws
pub mod Contract
pub mod Walk
use order_orchestrator.Base.{ℕ, String, Option, none, some, Bool, true, false, text_append}
use order_orchestrator.Platform.{Platform}
use order_orchestrator.Entities.{
  Order, OrderStatus, status_eq, Payment, PaymentStatus, Shipment, ShipmentStatus, Payload,
  status_changed_event,
}
use order_orchestrator.Exceptions.{Exception}
use order_orchestrator.World.{
  Action, ◌>>=◌, ◌>>◌, pure, or_throw, lift, when, when_some, transaction, current_time, find_order,
  find_payment, find_shipment, save_order, save_payment, save_shipment, insert_event,
}
use order_orchestrator.StateMachine.{assert_transition}

-- `Order not found: ${id}`
abbrev pub order_not_found : String → Exception
order_not_found id = Exception.not_found (text_append "Order not found: " id)

-- `shipment.shippedAt ?? new Date()`
abbrev pub or_now : (P : Platform) → Option ℕ → Action P ℕ
or_now P none = current_time
or_now P (some t) = pure t

module _ (P : Platform) where
  unfoldable pub find_by_id : String → Action P Order
  find_by_id id = do or_throw (← find_order P id) (order_not_found id)

  -- `payment.status = status; payment.processedAt = new Date(); save(payment)`, if there is one
  unfoldable pub settle_payment : String → PaymentStatus → Action P (Unit {0})
  settle_payment order_id status = do
    payment ← find_payment P order_id
    when_some payment (λ p. do
      t ← current_time
      save_payment P (record p { status = status; processed_at = some t }))

  unfoldable pub ship_shipment : String → Action P (Unit {0})
  ship_shipment order_id = do
    shipment ← find_shipment P order_id
    when_some shipment (λ s. do
      t ← or_now P s.shipped_at
      save_shipment P (record s { status = ShipmentStatus.shipped; shipped_at = some t }))

  unfoldable pub apply_status_side_effects : String → OrderStatus → Action P (Unit {0})
  apply_status_side_effects order_id status = do
    when (status_eq status OrderStatus.paid) (settle_payment order_id PaymentStatus.authorized)
    when (status_eq status OrderStatus.failed) (settle_payment order_id PaymentStatus.cancelled)
    when (status_eq status OrderStatus.shipped) (ship_shipment order_id)

  -- The callback of the transaction of `persistStatusChange`.
  unfoldable pub change_status :
      String → OrderStatus → Bool → String → Option String → Action P (Unit {0})
  change_status id next_status forced actor reason = do
    order ← find_order P id
    target ← or_throw order (order_not_found id)
    save_order P (record target { status = next_status })
    apply_status_side_effects id next_status
    insert_event P (record {
      aggregate_type = "Order";
      aggregate_id = id;
      event_type = status_changed_event;
      payload = Payload.status_changed id target.status next_status forced actor reason;
    })

  unfoldable pub persist_status_change :
      String → OrderStatus → Bool → String → Option String → Action P (Unit {0})
  persist_status_change id next_status forced actor reason =
      transaction (change_status id next_status forced actor reason)

  unfoldable pub update_status : String → OrderStatus → Action P Order
  update_status id status = do
    order ← find_by_id id
    lift (assert_transition order.status status)
    persist_status_change id status false "system" none
    find_by_id id

  unfoldable pub force_status : String → OrderStatus → String → Option String → Action P Order
  force_status id status actor reason = do
    persist_status_change id status true actor reason
    find_by_id id
