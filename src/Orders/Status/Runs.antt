-- ===== src/Orders/Status/Runs.antt =====
-- The state in which each part of a status change ends.
use order_orchestrator.Base.{ℕ, String, Option, none, some, Bool, ◌≡◌, refl, Option-cases, inl, inr}
use order_orchestrator.Entities.{
  Order, OrderStatus, Payment, PaymentStatus, Shipment, ShipmentStatus, Payload, NewEvent,
  status_changed_event,
}
use order_orchestrator.Platform.{Platform}
use order_orchestrator.Platform.Laws.{IsPlatform}
use order_orchestrator.Exceptions.{ok, err}
use order_orchestrator.World.{World}
use order_orchestrator.World.Reads.{order_of, payment_of, shipment_of}
use order_orchestrator.World.Writes.{tick, put_order, put_payment, put_shipment, add_event}
use order_orchestrator.World.Laws.{
  find_order_run, find_payment_run, find_shipment_run, save_order_run, save_payment_run,
  save_shipment_run, insert_event_run,
}
use order_orchestrator.Orders.Status.{
  settle_payment, ship_shipment, apply_status_side_effects, change_status, persist_status_change,
  order_not_found,
}

-- The event of a status change.
abbrev pub status_event :
    String → OrderStatus → OrderStatus → Bool → String → Option String → NewEvent
status_event id previous next forced actor reason = record {
  aggregate_type = "Order";
  aggregate_id = id;
  event_type = status_changed_event;
  payload = Payload.status_changed id previous next forced actor reason;
}

module _ {P : Platform} where
  -- the payment with its new status, processed at the clock's next answer
  abbrev pub after_settling : PaymentStatus → Option Payment → World P → World P
  after_settling status none w = w
  after_settling status (some p) w =
      put_payment (tick w)
        (record p { status = status; processed_at = some (P.now w.host.clock_reads) })

  -- the shipment, which keeps the time of shipping that it has
  abbrev pub shipping_at : Option ℕ → Shipment → World P → World P
  shipping_at none s w =
      put_shipment (tick w)
        (record s { status = ShipmentStatus.shipped; shipped_at = some (P.now w.host.clock_reads) })
  shipping_at (some t) s w =
      put_shipment w (record s { status = ShipmentStatus.shipped; shipped_at = some t })

  abbrev pub after_shipping : Option Shipment → World P → World P
  after_shipping none w = w
  after_shipping (some s) w = shipping_at s.shipped_at s w

  -- The rows that a status change takes along with the order.
  abbrev pub after_effects : OrderStatus → String → World P → World P
  after_effects OrderStatus.pending id w = w
  after_effects OrderStatus.paid id w = after_settling PaymentStatus.authorized (payment_of w id) w
  after_effects OrderStatus.failed id w = after_settling PaymentStatus.cancelled (payment_of w id) w
  after_effects OrderStatus.shipped id w = after_shipping (shipment_of w id) w

  -- The state after a change of the order `o`, which reports it by the event `e`.
  abbrev pub after_change : String → OrderStatus → NewEvent → Order → World P → World P
  after_change id next e o w =
      add_event (after_effects next id (put_order w (record o { status = next }))) e

module _ {P : Platform} (lawful : IsPlatform P) where
  pub settle_payment_run :
      (id : String) (status : PaymentStatus) (w : World P)
      → settle_payment P id status w ≡ (ok tt, after_settling status (payment_of w id) w)
  unfolding settle_payment
  settle_payment_run id status w =
      rw (find_payment_run lawful w id) (elim (Option-cases (payment_of w id)) [
        | inl e ↦ rw e
        | inr (p, e) ↦ rw e (save_payment_run _ _)
      ])

  pub ship_shipment_run :
      (id : String) (w : World P)
      → ship_shipment P id w ≡ (ok tt, after_shipping (shipment_of w id) w)
  unfolding ship_shipment
  ship_shipment_run id w =
      rw (find_shipment_run lawful w id) (elim (Option-cases (shipment_of w id)) [
        | inl e ↦ rw e
        | inr (s, e) ↦ rw e (elim (Option-cases s.shipped_at) [
          | inl f ↦ rw f (save_shipment_run _ _)
          | inr (t, f) ↦ rw f (save_shipment_run _ _)
        ])
      ])

  pub apply_status_side_effects_run :
      (id : String) (status : OrderStatus) (w : World P)
      → apply_status_side_effects P id status w ≡ (ok tt, after_effects status id w)
  unfolding apply_status_side_effects
  apply_status_side_effects_run id OrderStatus.pending w = refl
  apply_status_side_effects_run id OrderStatus.paid w =
      rw (settle_payment_run id PaymentStatus.authorized w)
  apply_status_side_effects_run id OrderStatus.failed w =
      rw (settle_payment_run id PaymentStatus.cancelled w)
  apply_status_side_effects_run id OrderStatus.shipped w = rw (ship_shipment_run id w)

  module _ (id : String) (next : OrderStatus) (forced : Bool) (actor : String)
      (reason : Option String) where
    pub change_status_run :
        (o : Order) (w : World P)
        → order_of w id ≡ some o
        → change_status P id next forced actor reason w
          ≡ (ok tt, after_change id next (status_event id o.status next forced actor reason) o w)
    unfolding change_status
    change_status_run o w found =
        rw (find_order_run lawful w id, found)
          (rw (save_order_run w (record o { status = next })) (
            rw (apply_status_side_effects_run id next (put_order w (record o { status = next })))
              (insert_event_run lawful _ _)))

    pub change_status_missing :
        (w : World P)
        → order_of w id ≡ none
        → change_status P id next forced actor reason w ≡ (err (order_not_found id), w)
    unfolding change_status
    change_status_missing w missing = rw (find_order_run lawful w id, missing)

    pub persist_status_change_run :
        (o : Order) (w : World P)
        → order_of w id ≡ some o
        → persist_status_change P id next forced actor reason w
          ≡ (ok tt, after_change id next (status_event id o.status next forced actor reason) o w)
    unfolding persist_status_change
    persist_status_change_run o w found = rw (change_status_run o w found) (
        rw (
          lawful.commit_lem w.db
            (after_change id next (status_event id o.status next forced actor reason) o w).db))

    pub persist_status_change_missing :
        (w : World P)
        → order_of w id ≡ none
        → persist_status_change P id next forced actor reason w ≡ (err (order_not_found id), w)
    unfolding persist_status_change
    persist_status_change_missing w missing =
        rw (change_status_missing w missing) (rw (lawful.rollback_lem w.db w.db))
