-- ===== src/Orders/Status/Laws.antt =====
-- What `updateStatus` and `forceStatus` do, on every branch.
use order_orchestrator.Base.{
  ℕ, String, Option, none, some, Bool, true, false, ◌≡◌, refl, ap, ◌∙◌, subst, replace, first_key,
  first-replace_self,
}
use order_orchestrator.Entities.{
  Order, OrderStatus, Payment, PaymentStatus, Shipment, ShipmentStatus, NewEvent,
}
use order_orchestrator.Host.{Host}
use order_orchestrator.Platform.{Platform}
use order_orchestrator.Platform.Laws.{IsPlatform}
use order_orchestrator.Exceptions.{Result, ok, err}
use order_orchestrator.StateMachine.{invalid_transition}
use order_orchestrator.StateMachine.Diagram.{IsAllowed}
use order_orchestrator.World.{World}
use order_orchestrator.World.Reads.{orders, order_of, payments, payment_of, shipments, shipment_of}
use order_orchestrator.World.Writes.{tick, put_order, put_payment, put_shipment}
use order_orchestrator.World.Laws.{find_order_run}
use order_orchestrator.Orders.Status.{order_not_found, find_by_id, persist_status_change}
use order_orchestrator.Orders.Status.Runs.{
  after_settling, shipping_at, after_shipping, after_effects, after_change, status_event,
  persist_status_change_run,
}
use order_orchestrator.Orders.Status.Effects.{
  settled, payments_after, or_time, marked_shipped, shipments_after, Touched, StatusChanged,
}

module _ {P : Platform} (lawful : IsPlatform P) where
  Touched-same : (w : World P) → Touched w w (payments w) (shipments w)
  Touched-same w = record {
    payment_rows = refl;
    shipment_rows = refl;
    orders_kept = refl;
    outbox_kept = refl;
    reservations_kept = refl;
    dead_letters_kept = refl;
    audit_logs_kept = refl;
    rules_kept = refl;
    metrics_kept = refl;
  }

  put_payment-Touched :
      (w : World P) (h : Host) (p : Payment)
      → Touched w
          (put_payment (record w { host = h }) p)
          (replace (λ e. e.order_id) p (payments w))
          (shipments w)
  put_payment-Touched w h p = record {
    payment_rows = lawful.schema.payments.table.rows-update w.db.payments p;
    shipment_rows = refl;
    orders_kept = refl;
    outbox_kept = refl;
    reservations_kept = refl;
    dead_letters_kept = refl;
    audit_logs_kept = refl;
    rules_kept = refl;
    metrics_kept = refl;
  }

  put_shipment-Touched :
      (w : World P) (h : Host) (s : Shipment)
      → Touched w
          (put_shipment (record w { host = h }) s)
          (payments w)
          (replace (λ e. e.order_id) s (shipments w))
  put_shipment-Touched w h s = record {
    payment_rows = refl;
    shipment_rows = lawful.schema.shipments.table.rows-update w.db.shipments s;
    orders_kept = refl;
    outbox_kept = refl;
    reservations_kept = refl;
    dead_letters_kept = refl;
    audit_logs_kept = refl;
    rules_kept = refl;
    metrics_kept = refl;
  }

  after_settling-Touched :
      (s : PaymentStatus) (found : Option Payment) (w : World P)
      → Touched w
          (after_settling s found w)
          (settled s (P.now w.host.clock_reads) found (payments w))
          (shipments w)
  after_settling-Touched s none w = Touched-same w
  after_settling-Touched s (some p) w = put_payment-Touched w (tick w).host _

  shipping_at-Touched :
      (at : Option ℕ) (s : Shipment) (w : World P)
      → Touched w (shipping_at at s w) (payments w) (
          replace
            (λ e. e.order_id)
            (record s {
              status = ShipmentStatus.shipped;
              shipped_at = some (or_time at (P.now w.host.clock_reads));
            })
            (shipments w))
  shipping_at-Touched none s w = put_shipment-Touched w (tick w).host _
  shipping_at-Touched (some t) s w = put_shipment-Touched w w.host _

  after_shipping-Touched :
      (found : Option Shipment) (w : World P)
      → Touched w
          (after_shipping found w)
          (payments w)
          (marked_shipped (P.now w.host.clock_reads) found (shipments w))
  after_shipping-Touched none w = Touched-same w
  after_shipping-Touched (some s) w = shipping_at-Touched s.shipped_at s w

  pub after_effects-Touched :
      (next : OrderStatus) (id : String) (w : World P)
      → Touched w
          (after_effects next id w)
          (payments_after next (P.now w.host.clock_reads) (payment_of w id) (payments w))
          (shipments_after next (P.now w.host.clock_reads) (shipment_of w id) (shipments w))
  after_effects-Touched OrderStatus.pending id w = Touched-same w
  after_effects-Touched OrderStatus.paid id w =
      after_settling-Touched PaymentStatus.authorized (payment_of w id) w
  after_effects-Touched OrderStatus.failed id w =
      after_settling-Touched PaymentStatus.cancelled (payment_of w id) w
  after_effects-Touched OrderStatus.shipped id w = after_shipping-Touched (shipment_of w id) w

  after_change-StatusChanged :
      (o : Order) (next : OrderStatus) (e : NewEvent) (w : World P)
      → StatusChanged w o next e (after_change o.id next e o w)
  after_change-StatusChanged o next e w =
      let t = after_effects-Touched next o.id (put_order w (record o { status = next })) in
      record {
        order_rows =
            ap P.schema.orders.rows t.orders_kept
            ∙ lawful.schema.orders.table.rows-update w.db.orders _;
        payment_rows = t.payment_rows;
        shipment_rows = t.shipment_rows;
        event_rows = rw (t.outbox_kept) (lawful.schema.outbox.rows-insert w.db.outbox _);
        reservations_kept = t.reservations_kept;
        dead_letters_kept = t.dead_letters_kept;
        audit_logs_kept = t.audit_logs_kept;
        rules_kept = t.rules_kept;
        metrics_kept = t.metrics_kept;
      }

  -- `findById` after the change returns the order with its new status.
  pub order_of-StatusChanged :
      (w w' : World P) (o : Order) (next : OrderStatus) (e : NewEvent) (id : String)
      → order_of w id ≡ some o
      → StatusChanged w o next e w'
      → order_of w' id ≡ some (record o { status = next })
  order_of-StatusChanged w w' o next e id found changed = rw (changed.order_rows) (
      first-replace_self (λ p. p.id) (record o { status = next }) (orders w) o id
        (first_key (λ p. p.id) id (orders w) found) found)

  pub find_by_id_run :
      (id : String) (w : World P) (o : Order)
      → order_of w id ≡ some o
      → find_by_id P id w ≡ (ok o, w)
  unfolding find_by_id
  find_by_id_run id w o found = rw (find_order_run lawful w id, found)

  pub find_by_id_missing :
      (id : String) (w : World P)
      → order_of w id ≡ none
      → find_by_id P id w ≡ (err (order_not_found id), w)
  unfolding find_by_id
  find_by_id_missing id w missing = rw (find_order_run lawful w id, missing)

  -- A change that goes through, by `persistStatusChange` and the `findById` behind it.
  pub change_then_find :
      (id : String) (next : OrderStatus) (forced : Bool) (actor : String) (reason : Option String)
      (w : World P) (o : Order)
      → order_of w id ≡ some o
      → (w' : World P) × (persist_status_change P id next forced actor reason w ≡ (ok tt, w'))
        × (find_by_id P id w' ≡ (ok (record o { status = next }), w'))
        × StatusChanged w o next (status_event id o.status next forced actor reason) w'
  change_then_find id next forced actor reason w o found =
      let e = status_event id o.status next forced actor reason in
      let w' = after_change id next e o w in
      let changed : StatusChanged w o next e w' =
        subst (λ i. StatusChanged w o next e (after_change i next e o w))
          (first_key (λ p. p.id) id (orders w) found) (after_change-StatusChanged o next e w) in
      (
        w',
        persist_status_change_run lawful id next forced actor reason o w found,
        find_by_id_run id w' (record o { status = next })
            (order_of-StatusChanged w w' o next e id found changed),
        changed,
      )

-- What `updateStatus` does, by what it finds.
pub data Updates {P : Platform} (w : World P) (id : String) (next : OrderStatus) (r : Result Order)
    (w' : World P) : Type 0 where
  missing : order_of w id ≡ none → r ≡ err (order_not_found id) → w' ≡ w → Updates w id next r w'
  refused :
      (o : Order)
      → order_of w id ≡ some o
      → ¬ IsAllowed o.status next
      → r ≡ err (invalid_transition o.status next)
      → w' ≡ w
      → Updates w id next r w'
  changed :
      (o : Order)
      → order_of w id ≡ some o
      → IsAllowed o.status next
      → r ≡ ok (record o { status = next })
      → StatusChanged w o next (status_event id o.status next false "system" none) w'
      → Updates w id next r w'

-- What `forceStatus` does: it asks the state machine nothing.
pub data Forces {P : Platform} (w : World P) (id : String) (next : OrderStatus) (actor : String)
    (reason : Option String) (r : Result Order) (w' : World P) : Type 0 where
  missing :
      order_of w id ≡ none
      → r ≡ err (order_not_found id)
      → w' ≡ w
      → Forces w id next actor reason r w'
  changed :
      (o : Order)
      → order_of w id ≡ some o
      → r ≡ ok (record o { status = next })
      → StatusChanged w o next (status_event id o.status next true actor reason) w'
      → Forces w id next actor reason r w'
