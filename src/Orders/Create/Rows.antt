-- ===== src/Orders/Create/Rows.antt =====
-- What the transaction of `create` leaves: the four rows and the event, or nothing.
use order_orchestrator.Base.{
  String, Option, none, some, [], ◌∷◌, ◌≡◌, ◌≢◌, refl, sym, ◌∙◌, subst, inl, inr, map, Option-cases,
  first, has_key, first-append_self, first-append_other, first-replace_self, first-replace_other,
}
use mathlib.Core.List.{append-nil, map-append}
use order_orchestrator.Platform.{Platform}
use order_orchestrator.Platform.Laws.{IsPlatform}
use order_orchestrator.Entities.{
  Order, PaymentStatus, InventoryReservationStatus, ShipmentStatus, OrderStatus, NewEvent, Payload,
  created_event,
}
use order_orchestrator.Exceptions.{Exception, Result, ok, err}
use order_orchestrator.World.{World, new_event_row}
use order_orchestrator.World.Reads.{
  orders, order_of, payments, payment_of, reservations, reservation_of, shipments, shipment_of,
  events, audit_logs,
}
use order_orchestrator.World.Writes.{
  add_order, add_payment, add_reservation, add_shipment, add_event,
}
use order_orchestrator.World.Laws.{insert_event_run}
use order_orchestrator.World.Inserts.{
  insert_order_run, insert_order_fails, insert_payment_cases, insert_reservation_cases,
  insert_shipment_cases,
}
use order_orchestrator.Aggregates.{Aggregate, Moves}
use order_orchestrator.Orders.Create.{
  CreateOrderDto, new_order, total_from, reserved_item, create_rows,
}

-- The rows of a new order.
abbrev pub new_rows : CreateOrderDto → Option String → String → Aggregate
new_rows dto key id = record {
  order = new_order dto key id;
  payment = record {
    order_id = id;
    status = PaymentStatus.pending;
    amount = total_from 0 dto.items;
    processed_at = none;
  };
  reservation = record {
    order_id = id;
    status = InventoryReservationStatus.reserved;
    reservations = map reserved_item dto.items;
  };
  shipment = record {
    order_id = id;
    status = ShipmentStatus.requested;
    carrier = none;
    tracking_number = none;
    shipped_at = none;
  };
}

abbrev pub created_payload : CreateOrderDto → String → Payload
created_payload dto id =
    Payload.order_created id dto.customer_id (total_from 0 dto.items) OrderStatus.pending

abbrev pub new_event : CreateOrderDto → String → NewEvent
new_event dto id = record {
  aggregate_type = "Order";
  aggregate_id = id;
  event_type = created_event;
  payload = created_payload dto id;
}

-- All inserts of the transaction.
abbrev pub with_rows : {P : Platform} → Aggregate → NewEvent → World P → World P
with_rows a e w =
    add_event
      (add_shipment (add_reservation (add_payment (add_order w a.order) a.payment) a.reservation)
        a.shipment)
      e

-- Nothing stands in the way of the inserts.
pub record IsFree {P : Platform} (o : Order) (id : String) (w : World P) : Type 0 where
  pub order_fits : P.schema.orders.insert_error w.db.orders o ≡ none
  pub no_payment : payment_of w id ≡ none
  pub no_reservation : reservation_of w id ≡ none
  pub no_shipment : shipment_of w id ≡ none

-- How the callback ends.
pub data RowsEnd {P : Platform} (a : Aggregate) (e : NewEvent) (id : String) (w : World P)
    (r : Result (Unit {0})) (w' : World P) : Type 0 where
  added : IsFree a.order id w → r ≡ ok tt → w' ≡ with_rows a e w → RowsEnd a e id w r w'
  refused : (x : Exception) → ¬ IsFree a.order id w → r ≡ err x → RowsEnd a e id w r w'

module _ {P : Platform} (lawful : IsPlatform P) (dto : CreateOrderDto) (key : Option String)
    (id : String) (w : World P) where
  pub create_rows-RowsEnd :
      let (r, w') = create_rows P dto key id w in
      RowsEnd (new_rows dto key id) (new_event dto id) id w r w'
  unfolding create_rows
  create_rows-RowsEnd =
      let a = new_rows dto key id in
      let w₁ = add_order w a.order in
      let w₂ = add_payment w₁ a.payment in
      let w₃ = add_reservation w₂ a.reservation in
      let w₄ = add_shipment w₃ a.shipment in
      elim (Option-cases (P.schema.orders.insert_error w.db.orders a.order)) [
        | inr (m, taken) ↦
            rw (insert_order_fails w a.order m taken)
              (RowsEnd.refused _ (λ f. cc (sym taken ∙ f.order_fits)) refl)
        | inl fits ↦
            rw (insert_order_run w a.order fits) (elim (insert_payment_cases lawful w₁ a.payment) [
              | inr (x, fails, taken) ↦ rw fails (RowsEnd.refused x (λ f. taken f.no_payment) refl)
              | inl (free, runs) ↦
                  rw runs (elim (insert_reservation_cases lawful w₂ a.reservation) [
                    | inr (x, fails, taken) ↦
                        rw fails (RowsEnd.refused x (λ f. taken f.no_reservation) refl)
                    | inl (free', runs') ↦
                        rw runs' (elim (insert_shipment_cases lawful w₃ a.shipment) [
                          | inr (x, fails, taken) ↦
                              rw fails (RowsEnd.refused x (λ f. taken f.no_shipment) refl)
                          | inl (free'', runs'') ↦ rw runs'' (
                              rw (insert_event_run lawful w₄ (new_event dto id)) (
                                RowsEnd.added
                                  (record {
                                    order_fits = fits;
                                    no_payment = free;
                                    no_reservation = free';
                                    no_shipment = free'';
                                  })
                                  refl refl))
                        ])
                  ])
            ])
      ]

module _ {P : Platform} (lawful : IsPlatform P) (a : Aggregate) (e : NewEvent) (id : String)
    (w : World P) (own_order : a.order.id ≡ id) (own_payment : a.payment.order_id ≡ id)
    (own_reservation : a.reservation.order_id ≡ id) (own_shipment : a.shipment.order_id ≡ id) where
  -- Saving the new order adds it, or replaces the one with its id.
  added_order :
      (order_of (add_order w a.order) id ≡ some a.order)
      × ((j : String) → j ≢ id → order_of (add_order w a.order) j ≡ order_of w j)
  added_order =
      let O = lawful.schema.orders in
      elim (Option-cases (first (has_key (λ o. o.id) a.order.id) (orders w))) [
        | inl free ↦ rw (O.insert_new w.db.orders a.order free) (
          first-append_self (λ o. o.id) a.order (orders w) id own_order
              (subst (λ i. first (has_key (λ o. o.id) i) (orders w) ≡ none) own_order free),
          λ j ne. first-append_other (λ o. o.id) a.order (orders w) j (λ q. ne (sym q ∙ own_order)),
        )
        | inr (x, taken) ↦ rw (O.insert_old w.db.orders a.order x taken) (
          first-replace_self (λ o. o.id) a.order (orders w) x id own_order
              (subst (λ i. first (has_key (λ o. o.id) i) (orders w) ≡ some x) own_order taken),
          λ j ne.
              first-replace_other (λ o. o.id) a.order (orders w) j (λ q. ne (sym q ∙ own_order)),
        )
      ]

  pub with_rows-Moves :
      payment_of w id ≡ none
      → reservation_of w id ≡ none
      → shipment_of w id ≡ none
      → Moves id w (with_rows a e w) a [] (e.payload ∷ [])
  with_rows-Moves no_payment no_reservation no_shipment = record {
    holds = record {
      order_found = added_order.0;
      payment_found =
          rw (lawful.schema.payments.rows-insert w.db.payments a.payment)
            (first-append_self (λ p. p.order_id) a.payment (payments w) id own_payment no_payment);
      reservation_found =
          rw (lawful.schema.reservations.rows-insert w.db.reservations a.reservation) (
            first-append_self (λ p. p.order_id) a.reservation (reservations w) id own_reservation
              no_reservation);
      shipment_found = rw (lawful.schema.shipments.rows-insert w.db.shipments a.shipment) (
          first-append_self (λ p. p.order_id) a.shipment (shipments w) id own_shipment no_shipment);
    };
    elsewhere = λ j ne. record {
      same_order = added_order.1 j ne;
      same_payment = rw (lawful.schema.payments.rows-insert w.db.payments a.payment) (
          first-append_other (λ p. p.order_id) a.payment (payments w) j
            (λ q. ne (sym q ∙ own_payment)));
      same_reservation =
          rw (lawful.schema.reservations.rows-insert w.db.reservations a.reservation) (
            first-append_other (λ p. p.order_id) a.reservation (reservations w) j
              (λ q. ne (sym q ∙ own_reservation)));
      same_shipment = rw (lawful.schema.shipments.rows-insert w.db.shipments a.shipment) (
          first-append_other (λ p. p.order_id) a.shipment (shipments w) j
            (λ q. ne (sym q ∙ own_shipment)));
    };
    logged = sym (append-nil (audit_logs w));
    written =
        rw (lawful.schema.outbox.rows-insert w.db.outbox (new_event_row P w e))
          (map-append _ (events w) _);
  }
