-- ===== src/Aggregates/Effects.antt =====
-- The rows after a status change, and the moves of its side effects.
use order_orchestrator.Base.{ℕ, String, Option, none, some, [], ◌≡◌, refl, first_key}
use order_orchestrator.Entities.{OrderStatus, PaymentStatus, ShipmentStatus}
use order_orchestrator.Platform.{Platform}
use order_orchestrator.Platform.Laws.{IsPlatform}
use order_orchestrator.World.{World}
use order_orchestrator.World.Reads.{orders, payments, reservations, shipments}
use order_orchestrator.World.Writes.{tick, put_payment, put_shipment}
use order_orchestrator.Aggregates.{Aggregate, Holds, Moves}
use order_orchestrator.Aggregates.Compose.{on_db, put_payment-Moves, put_shipment-Moves}
use order_orchestrator.Orders.Status.Runs.{after_settling, shipping_at}
use order_orchestrator.Orders.Status.Effects.{or_time}

-- The rows after a change to a status at the time `t`.
abbrev pub moved : OrderStatus → ℕ → Aggregate → Aggregate
moved OrderStatus.pending t a = record a {
  order = record (a.order) { status = OrderStatus.pending };
}
moved OrderStatus.paid t a = record a {
  order = record (a.order) { status = OrderStatus.paid };
  payment = record (a.payment) { status = PaymentStatus.authorized; processed_at = some t };
}
moved OrderStatus.failed t a = record a {
  order = record (a.order) { status = OrderStatus.failed };
  payment = record (a.payment) { status = PaymentStatus.cancelled; processed_at = some t };
}
moved OrderStatus.shipped t a = record a {
  order = record (a.order) { status = OrderStatus.shipped };
  shipment = record (a.shipment) {
    status = ShipmentStatus.shipped;
    shipped_at = some (or_time a.shipment.shipped_at t);
  };
}

module _ {P : Platform} (id : String) (w : World P) (a : Aggregate) (h : Holds id w a) where
  pub own_order : a.order.id ≡ id
  own_order = first_key (λ e. e.id) id (orders w) h.order_found

  pub own_payment : a.payment.order_id ≡ id
  own_payment = first_key (λ e. e.order_id) id (payments w) h.payment_found

  pub own_reservation : a.reservation.order_id ≡ id
  own_reservation = first_key (λ e. e.order_id) id (reservations w) h.reservation_found

  pub own_shipment : a.shipment.order_id ≡ id
  own_shipment = first_key (λ e. e.order_id) id (shipments w) h.shipment_found

module _ {P : Platform} (lawful : IsPlatform P) (id : String) (w : World P) (a : Aggregate)
    (h : Holds id w a) where
  -- the time at which the change is stamped
  abbrev pub now : ℕ
  now = P.now w.host.clock_reads

  pub after_settling-Moves :
      (status : PaymentStatus)
      → let p = record (a.payment) { status = status; processed_at = some now } in
        Moves id w (after_settling status (some a.payment) w) (record a { payment = p }) [] []
  after_settling-Moves status =
      let p = record (a.payment) { status = status; processed_at = some now } in
      on_db id w (put_payment w p) w (put_payment (tick w) p) (record a { payment = p }) [] [] refl
        refl (put_payment-Moves lawful id w a h p (own_payment id w a h))

  pub shipping_at-Moves :
      (at : Option ℕ)
      → let s = record (a.shipment) {
        status = ShipmentStatus.shipped;
        shipped_at = some (or_time at now);
      } in
        Moves id w (shipping_at at a.shipment w) (record a { shipment = s }) [] []
  shipping_at-Moves at =
      let s = record (a.shipment) {
        status = ShipmentStatus.shipped;
        shipped_at = some (or_time at now);
      } in
      on_db id w (put_shipment w s) w (shipping_at at a.shipment w) (record a { shipment = s }) []
        [] refl (same at) (put_shipment-Moves lawful id w a h s (own_shipment id w a h))
    where
      same :
          (at : Option ℕ)
          → (shipping_at at a.shipment w).db
            ≡ (put_shipment w (record (a.shipment) {
              status = ShipmentStatus.shipped;
              shipped_at = some (or_time at now);
            })).db
      same none = refl
      same (some t) = refl
