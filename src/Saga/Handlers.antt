-- ===== src/Saga/Handlers.antt =====
-- What calls the saga: the event handler of the broker, and the reprocessing of a failed order.

use order_orchestrator.Base.{
  ℕ, String, none, Bool, true, false, ◌≡◌, ◌≢◌, refl, sym, ◌∙◌, ◌⊎◌, inl, inr,
}
use order_orchestrator.Entities.{
  OrderStatus, status_eq, PaymentStatus, InventoryReservationStatus, ShipmentStatus,
}
use order_orchestrator.Platform.{Platform}
use order_orchestrator.Platform.Laws.{IsPlatform}
use order_orchestrator.Exceptions.{Exception, Result, ok, err}
use order_orchestrator.World.{World}
use order_orchestrator.World.Reads.{order_of}
use order_orchestrator.World.Laws.{find_order_run}
use order_orchestrator.FailureInjection.RuleMap
use order_orchestrator.Aggregates.{Aggregate, Holds}
use order_orchestrator.Orders.Status.{order_not_found}
use order_orchestrator.Saga.{
  execute_saga, handle_order_created, payment_key, inventory_key, shipment_key,
}
use order_orchestrator.Saga.Compensation.{undone}
use order_orchestrator.Saga.Outcome.{fulfilled, SagaEnd}
use order_orchestrator.Saga.Contract.{execute_saga-SagaEnd}

pending-cases :
    (s : OrderStatus) → (s ≡ OrderStatus.pending) ⊎ (status_eq s OrderStatus.pending ≡ false)
pending-cases OrderStatus.pending = inl refl
pending-cases OrderStatus.paid = inr refl
pending-cases OrderStatus.failed = inr refl
pending-cases OrderStatus.shipped = inr refl

-- Every row of the order is done.
pub record IsDelivered (a : Aggregate) : Type 0 where
  pub order_shipped : a.order.status ≡ OrderStatus.shipped
  pub payment_authorized : a.payment.status ≡ PaymentStatus.authorized
  pub inventory_confirmed : a.reservation.status ≡ InventoryReservationStatus.confirmed
  pub shipment_shipped : a.shipment.status ≡ ShipmentStatus.shipped

-- Nothing of the order is left done.
pub record IsUndone (a : Aggregate) : Type 0 where
  pub order_failed : a.order.status ≡ OrderStatus.failed
  pub payment_cancelled : a.payment.status ≡ PaymentStatus.cancelled
  pub inventory_unconfirmed : a.reservation.status ≢ InventoryReservationStatus.confirmed
  pub shipment_requested : a.shipment.status ≡ ShipmentStatus.requested

-- How the call has ended decides which of the two holds.
pub data AllOrNothing (a : Aggregate) (r : Result (Unit {0})) : Type 0 where
  all : r ≡ ok tt → IsDelivered a → AllOrNothing a r
  nothing : (e : Exception) → r ≡ err e → IsUndone a → AllOrNothing a r

fulfilled-IsDelivered : (id : String) (t s : ℕ) (a : Aggregate) → IsDelivered (fulfilled id t s a)
fulfilled-IsDelivered id t s a = record {
  order_shipped = refl;
  payment_authorized = refl;
  inventory_confirmed = refl;
  shipment_shipped = refl;
}

undone-IsUndone :
    (b : Bool) (t : ℕ) (a : Aggregate)
    → a.reservation.status ≡ InventoryReservationStatus.reserved
    → a.shipment.status ≡ ShipmentStatus.requested
    → IsUndone (undone b t a)
undone-IsUndone true t a reserved waiting = record {
  order_failed = refl;
  payment_cancelled = refl;
  inventory_unconfirmed = λ e. cc e;
  shipment_requested = waiting;
}
undone-IsUndone false t a reserved waiting = record {
  order_failed = refl;
  payment_cancelled = refl;
  inventory_unconfirmed = λ e. cc (sym reserved ∙ e);
  shipment_requested = waiting;
}

module _ {P : Platform} (id actor : String) (w : World P) (a : Aggregate) where
  ends-AllOrNothing :
      (r : Result (Unit {0})) (w' : World P)
      → a.reservation.status ≡ InventoryReservationStatus.reserved
      → a.shipment.status ≡ ShipmentStatus.requested
      → SagaEnd id actor w a r w'
      → (b : Aggregate) × Holds id w' b × AllOrNothing b r
  ends-AllOrNothing r w' reserved waiting (SagaEnd.completed t s e p) =
      (fulfilled id t s a, p.moves.holds, AllOrNothing.all e (fulfilled-IsDelivered id t s a))
  ends-AllOrNothing r w' reserved waiting (SagaEnd.payment_failed t armed e p) = (
    undone false t a,
    p.moves.holds,
    AllOrNothing.nothing _ e (undone-IsUndone false t a reserved waiting),
  )
  ends-AllOrNothing r w' reserved waiting (SagaEnd.inventory_failed t armed e p) = (
    undone false t a,
    p.moves.holds,
    AllOrNothing.nothing _ e (undone-IsUndone false t a reserved waiting),
  )
  ends-AllOrNothing r w' reserved waiting (SagaEnd.shipment_failed t armed e p) = (
    undone true t a,
    p.moves.holds,
    AllOrNothing.nothing _ e (undone-IsUndone true t a reserved waiting),
  )

  -- A saga that has ended leaves the order in a status that starts no other.
  not_pending :
      (r : Result (Unit {0})) (w' : World P)
      → SagaEnd id actor w a r w'
      → (b : Aggregate) × Holds id w' b × (status_eq b.order.status OrderStatus.pending ≡ false)
  not_pending r w' (SagaEnd.completed t s e p) = (fulfilled id t s a, p.moves.holds, refl)
  not_pending r w' (SagaEnd.payment_failed t armed e p) = (undone false t a, p.moves.holds, refl)
  not_pending r w' (SagaEnd.inventory_failed t armed e p) = (undone false t a, p.moves.holds, refl)
  not_pending r w' (SagaEnd.shipment_failed t armed e p) = (undone true t a, p.moves.holds, refl)

  pub completes_unarmed :
      (r : Result (Unit {0})) (w' : World P)
      → RuleMap.get payment_key w.rules ≡ none
      → RuleMap.get inventory_key w.rules ≡ none
      → RuleMap.get shipment_key w.rules ≡ none
      → SagaEnd id actor w a r w'
      → (r ≡ ok tt) × ((t s : ℕ) × Holds id w' (fulfilled id t s a))
  completes_unarmed r w' no_payment no_inventory no_shipment (SagaEnd.completed t s e p) =
      (e, (t, s, p.moves.holds))
  completes_unarmed r w' no_payment no_inventory no_shipment (SagaEnd.payment_failed t armed e p) =
      absurd (armed no_payment)
  completes_unarmed r w' no_payment no_inventory no_shipment
        (SagaEnd.inventory_failed t armed e p) =
      absurd (armed no_inventory)
  completes_unarmed r w' no_payment no_inventory no_shipment (SagaEnd.shipment_failed t armed e p) =
      absurd (armed no_shipment)

module _ {P : Platform} (lawful : IsPlatform P) (id : String) (w : World P) (a : Aggregate) where
  -- `executeSaga` on a pending order with a reserved reservation and a requested shipment leaves
  -- nothing half done: if it returns, the order and the shipment are shipped, the payment is
  -- authorized and the reservation confirmed; if it throws, the order has failed, the payment is
  -- cancelled, the reservation is not confirmed and the shipment is still only requested.
  pub execute_saga-AllOrNothing :
      (actor : String)
      → Holds id w a
      → a.order.status ≡ OrderStatus.pending
      → a.reservation.status ≡ InventoryReservationStatus.reserved
      → a.shipment.status ≡ ShipmentStatus.requested
      → let (r, w') = execute_saga P id actor w in
        (b : Aggregate) × Holds id w' b × AllOrNothing b r
  execute_saga-AllOrNothing actor h pending reserved waiting =
      ends-AllOrNothing id actor w a _ _ reserved waiting
        (execute_saga-SagaEnd lawful id actor w a h pending)

  -- `executeSaga` on a pending order that has all its rows, with no failure rule for any of its
  -- three steps, returns, and the rows are those of a fulfilled order.
  pub execute_saga-unarmed :
      (actor : String)
      → Holds id w a
      → a.order.status ≡ OrderStatus.pending
      → RuleMap.get payment_key w.rules ≡ none
      → RuleMap.get inventory_key w.rules ≡ none
      → RuleMap.get shipment_key w.rules ≡ none
      → let (r, w') = execute_saga P id actor w in
        (r ≡ ok tt) × ((t s : ℕ) × Holds id w' (fulfilled id t s a))
  execute_saga-unarmed actor h pending no_payment no_inventory no_shipment =
      completes_unarmed id actor w a _ _ no_payment no_inventory no_shipment
        (execute_saga-SagaEnd lawful id actor w a h pending)

  pub ignores :
      Holds id w a
      → status_eq a.order.status OrderStatus.pending ≡ false
      → handle_order_created P id w ≡ (ok tt, w)
  unfolding handle_order_created
  ignores h done = rw (find_order_run lawful w id, h.order_found) (rw done refl)

  pub starts :
      Holds id w a
      → a.order.status ≡ OrderStatus.pending
      → handle_order_created P id w ≡ execute_saga P id "saga" w
  unfolding handle_order_created
  starts h pending = rw (find_order_run lawful w id, h.order_found) (rw pending refl)

module _ {P : Platform} (lawful : IsPlatform P) (id : String) (w : World P) where
  -- `handleOrderCreated` for an order that is not there throws and changes nothing.
  pub handle_order_created-missing :
      order_of w id ≡ none → handle_order_created P id w ≡ (err (order_not_found id), w)
  unfolding handle_order_created
  handle_order_created-missing missing = rw (find_order_run lawful w id, missing) refl

  -- Whatever the call has done to an order that has all its rows, it is not pending behind it.
  pub decides :
      (a : Aggregate)
      → Holds id w a
      → let w' = (handle_order_created P id w).1 in
        (b : Aggregate) × Holds id w' b × (status_eq b.order.status OrderStatus.pending ≡ false)
  decides a h = elim (pending-cases a.order.status) [
    | inl pending ↦
        rw (starts lawful id w a h pending)
          (not_pending id "saga" w a _ _ (execute_saga-SagaEnd lawful id "saga" w a h pending))
    | inr done ↦ rw (ignores lawful id w a h done) (a, h, done)
  ]

  -- The event of an order that has all its rows may be delivered again: whatever the first
  -- `handleOrderCreated` has done, and whether it has returned or thrown, a second one returns and
  -- changes nothing.
  pub handle_order_created-redelivered :
      (a : Aggregate)
      → Holds id w a
      → let w' = (handle_order_created P id w).1 in handle_order_created P id w' ≡ (ok tt, w')
  handle_order_created-redelivered a h =
      let (b, hb, done) = decides a h in ignores lawful id (handle_order_created P id w).1 b hb done
