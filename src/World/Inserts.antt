-- ===== src/World/Inserts.antt =====
-- The inserts of `create`: each one adds its row, or it is refused and changes nothing.
use order_orchestrator.Base.{String, none, some, ◌≡◌, ◌≢◌, sym, ◌∙◌, ◌⊎◌, inl, inr, Option-cases}
use order_orchestrator.Platform.{Platform}
use order_orchestrator.Platform.Laws.{IsPlatform, unique_failed}
use order_orchestrator.Entities.{Order, Payment, InventoryReservation, Shipment}
use order_orchestrator.Exceptions.{Exception, ok, err}
use order_orchestrator.World.State.{World}
use order_orchestrator.World.Tables.{
  insert_row, insert_order, insert_payment, insert_reservation, insert_shipment,
}
use order_orchestrator.World.Reads.{payment_of, reservation_of, shipment_of}
use order_orchestrator.World.Writes.{add_order, add_payment, add_reservation, add_shipment}

module _ {P : Platform} (w : World P) (o : Order) where
  pub insert_order_run :
      P.schema.orders.insert_error w.db.orders o ≡ none
      → insert_order P o w ≡ (ok tt, add_order w o)
  unfolding insert_order
  insert_order_run free = rw (free, insert_order, insert_row)

  pub insert_order_fails :
      (m : String)
      → P.schema.orders.insert_error w.db.orders o ≡ some m
      → insert_order P o w ≡ (err (Exception.query_failed m), w)
  unfolding insert_order
  insert_order_fails m taken = rw (taken, insert_order, insert_row)

module _ {P : Platform} (lawful : IsPlatform P) (w : World P) where
  pub insert_payment_cases :
      (p : Payment)
      → ((payment_of w p.order_id ≡ none) × (insert_payment P p w ≡ (ok tt, add_payment w p)))
        ⊎ ((x : Exception) × (insert_payment P p w ≡ (err x, w)) × (payment_of w p.order_id ≢ none))
  unfolding insert_payment
  insert_payment_cases p = elim (Option-cases (payment_of w p.order_id)) [
    | inl free ↦ inl (
      free,
      rw (lawful.schema.payments.insert_free w.db.payments p free, insert_payment, insert_row),
    )
    | inr (x, taken) ↦ inr (
      Exception.query_failed (unique_failed "payments.orderId"),
      rw (lawful.schema.payments.insert_taken w.db.payments p x taken, insert_payment, insert_row),
      (λ e. cc (sym taken ∙ e)),
    )
  ]

  pub insert_reservation_cases :
      (p : InventoryReservation)
      → ((reservation_of w p.order_id ≡ none)
          × (insert_reservation P p w ≡ (ok tt, add_reservation w p)))
        ⊎ ((x : Exception) × (insert_reservation P p w ≡ (err x, w))
            × (reservation_of w p.order_id ≢ none))
  unfolding insert_reservation
  insert_reservation_cases p = elim (Option-cases (reservation_of w p.order_id)) [
    | inl free ↦ inl (
      free,
      rw (
        lawful.schema.reservations.insert_free w.db.reservations p free,
        insert_reservation,
        insert_row,
      ),
    )
    | inr (x, taken) ↦ inr (
      Exception.query_failed (unique_failed "inventory_reservations.orderId"),
      rw (
        lawful.schema.reservations.insert_taken w.db.reservations p x taken,
        insert_reservation,
        insert_row,
      ),
      (λ e. cc (sym taken ∙ e)),
    )
  ]

  pub insert_shipment_cases :
      (p : Shipment)
      → ((shipment_of w p.order_id ≡ none) × (insert_shipment P p w ≡ (ok tt, add_shipment w p)))
        ⊎ ((x : Exception) × (insert_shipment P p w ≡ (err x, w))
            × (shipment_of w p.order_id ≢ none))
  unfolding insert_shipment
  insert_shipment_cases p = elim (Option-cases (shipment_of w p.order_id)) [
    | inl free ↦ inl (
      free,
      rw (lawful.schema.shipments.insert_free w.db.shipments p free, insert_shipment, insert_row),
    )
    | inr (x, taken) ↦ inr (
      Exception.query_failed (unique_failed "shipments.orderId"),
      rw (
        lawful.schema.shipments.insert_taken w.db.shipments p x taken,
        insert_shipment,
        insert_row,
      ),
      (λ e. cc (sym taken ∙ e)),
    )
  ]

  pub insert_payment_fails :
      (p x : Payment)
      → payment_of w p.order_id ≡ some x
      → insert_payment P p w ≡ (err (Exception.query_failed (unique_failed "payments.orderId")), w)
  unfolding insert_payment
  insert_payment_fails p x taken =
      rw (lawful.schema.payments.insert_taken w.db.payments p x taken, insert_payment, insert_row)
