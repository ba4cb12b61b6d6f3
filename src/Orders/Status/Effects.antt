-- ===== src/Orders/Status/Effects.antt =====
-- What a status change leaves in the tables.
use order_orchestrator.Base.{ℕ, Option, none, some, List, [], ◌∷◌, ◌++◌, ◌≡◌, replace}
use order_orchestrator.Entities.{
  Order, OrderStatus, Payment, PaymentStatus, Shipment, ShipmentStatus, NewEvent,
}
use order_orchestrator.Platform.{Platform}
use order_orchestrator.World.{World, new_event_row}
use order_orchestrator.World.Reads.{orders, payments, payment_of, shipments, shipment_of, events}

-- The payments and shipments after a status change, at the time `t`.
abbrev pub settled : PaymentStatus → ℕ → Option Payment → List Payment → List Payment
settled status t none ps = ps
settled status t (some p) ps =
    replace (λ e. e.order_id) (record p { status = status; processed_at = some t }) ps

abbrev pub payments_after : OrderStatus → ℕ → Option Payment → List Payment → List Payment
payments_after OrderStatus.paid t p ps = settled PaymentStatus.authorized t p ps
payments_after OrderStatus.failed t p ps = settled PaymentStatus.cancelled t p ps
payments_after OrderStatus.pending t p ps = ps
payments_after OrderStatus.shipped t p ps = ps

-- `shipment.shippedAt ?? new Date()`
abbrev pub or_time : Option ℕ → ℕ → ℕ
or_time none t = t
or_time (some u) t = u

abbrev pub marked_shipped : ℕ → Option Shipment → List Shipment → List Shipment
marked_shipped t none ss = ss
marked_shipped t (some s) ss =
    replace (λ e. e.order_id)
      (record s { status = ShipmentStatus.shipped; shipped_at = some (or_time s.shipped_at t) }) ss

abbrev pub shipments_after : OrderStatus → ℕ → Option Shipment → List Shipment → List Shipment
shipments_after OrderStatus.shipped t s ss = marked_shipped t s ss
shipments_after OrderStatus.paid t s ss = ss
shipments_after OrderStatus.failed t s ss = ss
shipments_after OrderStatus.pending t s ss = ss

-- What the side effects of a status change leave: new payments and shipments, and all else kept.
pub record Touched {P : Platform} (w w' : World P) (ps : List Payment) (ss : List Shipment)
    : Type 0 where
  pub payment_rows : payments w' ≡ ps
  pub shipment_rows : shipments w' ≡ ss
  pub orders_kept : w'.db.orders ≡ w.db.orders
  pub outbox_kept : w'.db.outbox ≡ w.db.outbox
  pub reservations_kept : w'.db.reservations ≡ w.db.reservations
  pub dead_letters_kept : w'.db.dead_letters ≡ w.db.dead_letters
  pub audit_logs_kept : w'.db.audit_logs ≡ w.db.audit_logs
  pub rules_kept : w'.rules ≡ w.rules
  pub metrics_kept : w'.metrics ≡ w.metrics

-- The whole effect on the database and the process of a change of `o` to `next`.
pub record StatusChanged {P : Platform} (w : World P) (o : Order) (next : OrderStatus)
    (e : NewEvent) (w' : World P) : Type 0 where
  pub order_rows : orders w' ≡ replace (λ p. p.id) (record o { status = next }) (orders w)
  pub payment_rows :
      payments w' ≡ payments_after next (P.now w.host.clock_reads) (payment_of w o.id) (payments w)
  pub shipment_rows :
      shipments w'
      ≡ shipments_after next (P.now w.host.clock_reads) (shipment_of w o.id) (shipments w)
  pub event_rows : events w' ≡ events w ++ new_event_row P w e ∷ []
  pub reservations_kept : w'.db.reservations ≡ w.db.reservations
  pub dead_letters_kept : w'.db.dead_letters ≡ w.db.dead_letters
  pub audit_logs_kept : w'.db.audit_logs ≡ w.db.audit_logs
  pub rules_kept : w'.rules ≡ w.rules
  pub metrics_kept : w'.metrics ≡ w.metrics
