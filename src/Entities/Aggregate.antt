-- ===== src/Entities/Aggregate.antt =====
-- The order and the three rows that belong to it (order.entity.ts, payment.entity.ts,
-- inventory-reservation.entity.ts, shipment.entity.ts).
use order_orchestrator.Base.{ℕ, String, Option, List, Bool, true, false}

pub data OrderStatus : Type 0 where
  pending paid failed shipped : OrderStatus

-- An amount is a whole number of the smallest currency unit, as the `integer` column stores it.
pub record OrderLineItem : Type 0 where
  pub sku : String
  pub qty : ℕ
  pub price : ℕ

pub record Order : Type 0 where
  pub id : String
  pub customer_id : String
  pub status : OrderStatus
  pub items : List OrderLineItem
  pub total_amount : ℕ
  pub idempotency_key : Option String

pub data PaymentStatus : Type 0 where
  pending authorized cancelled : PaymentStatus

pub record Payment : Type 0 where
  pub order_id : String
  pub status : PaymentStatus
  pub amount : ℕ
  pub processed_at : Option ℕ

pub data InventoryReservationStatus : Type 0 where
  reserved confirmed released : InventoryReservationStatus

-- The element type of the `reservations` column.
pub record ReservedItem : Type 0 where
  pub sku : String
  pub qty : ℕ

pub record InventoryReservation : Type 0 where
  pub order_id : String
  pub status : InventoryReservationStatus
  pub reservations : List ReservedItem

pub data ShipmentStatus : Type 0 where
  requested shipped : ShipmentStatus

pub record Shipment : Type 0 where
  pub order_id : String
  pub status : ShipmentStatus
  pub carrier : Option String
  pub tracking_number : Option String
  pub shipped_at : Option ℕ

pub OrderStatus-discrete : Discrete OrderStatus
OrderStatus-discrete = hlevel

-- The strings of the enum.
abbrev pub status_text : OrderStatus → String
status_text OrderStatus.pending = "PENDING"
status_text OrderStatus.paid = "PAID"
status_text OrderStatus.failed = "FAILED"
status_text OrderStatus.shipped = "SHIPPED"

-- `a === b` on `OrderStatus`.
abbrev pub status_eq : OrderStatus → OrderStatus → Bool
status_eq OrderStatus.pending OrderStatus.pending = true
status_eq OrderStatus.paid OrderStatus.paid = true
status_eq OrderStatus.failed OrderStatus.failed = true
status_eq OrderStatus.shipped OrderStatus.shipped = true
status_eq _ _ = false
