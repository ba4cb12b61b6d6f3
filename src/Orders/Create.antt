-- ===== src/Orders/Create.antt =====
-- `OrdersService.create` (src/orders/orders.service.ts).
pub mod Rows
pub mod Attempts
pub mod Contract
pub mod Race
pub mod Collision
use order_orchestrator.Base.{
  ℕ, zero, suc, ◌+◌, ◌*◌, String, Option, none, some, List, [], ◌∷◌, Bool, true, false, not, str_eq,
  includes, text_append, map, if◌then◌else◌,
}
use order_orchestrator.Platform.{Platform}
use order_orchestrator.Entities.{
  Order, OrderLineItem, OrderStatus, PaymentStatus, InventoryReservationStatus, ReservedItem,
  ShipmentStatus, Payload, created_event,
}
use order_orchestrator.Exceptions.{Exception, message, describe, Result, ok, err}
use order_orchestrator.World.{
  World, Action, ◌>>=◌, ◌>>◌, pure, throw, transaction, find_order_by_key, insert_order,
  insert_payment, insert_reservation, insert_shipment, insert_event,
}
use order_orchestrator.Uuid.{generate_uuid_v7}
use order_orchestrator.Orders.Status.{find_by_id}

-- `CreateOrderDto`
pub record CreateOrderDto : Type 0 where
  pub customer_id : String
  pub items : List OrderLineItem

-- `dto.items.reduce((sum, item) => sum + item.qty * item.price, …)`
abbrev pub total_from : ℕ → List OrderLineItem → ℕ
total_from sum [] = sum
total_from sum (item ∷ items) = total_from (sum + item.qty * item.price) items

abbrev pub reserved_item : OrderLineItem → ReservedItem
reserved_item item = record { sku = item.sku; qty = item.qty }

abbrev pub is_order_id_violation : Exception → Bool
is_order_id_violation e = includes (message e) "UNIQUE constraint failed: orders.id"

abbrev pub is_idempotency_violation : Exception → Bool
is_idempotency_violation e = includes (message e) "UNIQUE constraint failed: orders.idempotencyKey"

-- `String(lastError)`
abbrev pub last_error_text : Option Exception → String
last_error_text none = "undefined"
last_error_text (some e) = describe e

-- The first order of `create`, as its transaction saves it.
abbrev pub new_order : CreateOrderDto → Option String → String → Order
new_order dto key id = record {
  id = id;
  customer_id = dto.customer_id;
  status = OrderStatus.pending;
  items = dto.items;
  total_amount = total_from 0 dto.items;
  idempotency_key = key;
}

module _ (P : Platform) where
  -- The callback of the transaction: an order with its three rows and its event.
  unfoldable pub create_rows : CreateOrderDto → Option String → String → Action P (Unit {0})
  create_rows dto key id = do
    insert_order P (new_order dto key id)
    insert_payment P (record {
      order_id = id;
      status = PaymentStatus.pending;
      amount = total_from 0 dto.items;
      processed_at = none;
    })
    insert_reservation P (record {
      order_id = id;
      status = InventoryReservationStatus.reserved;
      reservations = map reserved_item dto.items;
    })
    insert_shipment P (record {
      order_id = id;
      status = ShipmentStatus.requested;
      carrier = none;
      tracking_number = none;
      shipped_at = none;
    })
    insert_event P (record {
      aggregate_type = "Order";
      aggregate_id = id;
      event_type = created_event;
      payload =
          Payload.order_created id dto.customer_id (total_from 0 dto.items) OrderStatus.pending;
    })

  -- `generateUuidV7()`, on the process's state
  unfoldable pub next_id : Action P String
  next_id w = let (id, h) = generate_uuid_v7 P w.host in (ok id, record w { host = h })

  -- `findOne({ where: { idempotencyKey } })`, if there is a key
  unfoldable pub find_existing : Option String → Action P (Option Order)
  find_existing none = pure none
  find_existing (some k) = if str_eq k "" then pure none else find_order_by_key P k

  -- `if (existing) return existing`, and what follows it
  abbrev pub return_or : Option Order → Action P Order → Action P Order
  return_or none rest = rest
  return_or (some existing) rest = pure existing

  -- `if (this.isOrderIdViolation(error)) { …; continue; } throw error`
  abbrev pub retry_or_throw : Exception → (Exception → Action P Order) → Action P Order
  retry_or_throw e retry = if is_order_id_violation e then retry e else throw e

  -- The `catch`: after a violation of the key, the order that has it; otherwise another attempt,
  -- which is `retry`, or the error.
  unfoldable pub recover_create :
      Option String → Exception → (Exception → Action P Order) → Action P Order
  recover_create key e retry =
      if is_idempotency_violation e
      then find_existing key >>= (λ found. return_or found (retry_or_throw e retry))
      else retry_or_throw e retry

  -- How an attempt goes on when its transaction has ended. `return this.findById(…)` stands in the
  -- `try` without `await`, so what it throws does not come to the `catch`.
  abbrev pub end_attempt :
      Option String
      → String
      → (Exception → Action P Order)
      → Result (Unit {0}) × World P
      → Result Order × World P
  end_attempt key id retry (ok u, w) = find_by_id P id w
  end_attempt key id retry (err e, w) = recover_create key e retry w

  -- The loop, by the number of attempts that are left.
  unfoldable pub try_create : CreateOrderDto → Option String → ℕ → Option Exception → Action P Order
  try_create dto key zero last_error = throw (
      Exception.error
        (text_append "Failed to generate unique order id: " (last_error_text last_error)))
  try_create dto key (suc attempts) last_error = do
    id ← next_id
    λ w.
        end_attempt key id (λ e. try_create dto key attempts (some e))
          (transaction (create_rows dto key id) w)

  -- `maxIdGenerationAttempts` is 3.
  unfoldable pub create : CreateOrderDto → Option String → Action P Order
  create dto key = do existing ← find_existing key; return_or existing (try_create dto key 3 none)
