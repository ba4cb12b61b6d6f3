-- ===== src/Aggregates/Compose.antt =====
-- Moves compose, and every write of a table is one.
use mathlib.Core.List.{append-nil, append_assoc, map, map-append}
use order_orchestrator.Base.{
  String, List, [], ◌∷◌, ◌++◌, ◌≡◌, refl, sym, subst, ap, ◌∙◌, first-replace_self,
  first-replace_other,
}
use order_orchestrator.Entities.{
  Order, Payment, InventoryReservation, Shipment, Payload, NewEvent, AuditLog, AuditRow,
}
use order_orchestrator.Platform.{Platform}
use order_orchestrator.Platform.Laws.{IsPlatform}
use order_orchestrator.World.{World, new_event_row, new_audit_row}
use order_orchestrator.World.Reads.{
  orders, payments, reservations, shipments, events, audit_logs, audit_rows,
}
use order_orchestrator.World.Writes.{
  put_order, put_payment, put_reservation, put_shipment, add_event, add_audit_log,
}
use order_orchestrator.Aggregates.{Aggregate, Holds, SameRows, sent, Moves}

module _ {P : Platform} where
  pub SameRows-trans :
      (id : String) (u v w : World P) → SameRows id u v → SameRows id v w → SameRows id u w
  SameRows-trans id u v w h k = record {
    same_order = k.same_order ∙ h.same_order;
    same_payment = k.same_payment ∙ h.same_payment;
    same_reservation = k.same_reservation ∙ h.same_reservation;
    same_shipment = k.same_shipment ∙ h.same_shipment;
  }

  -- A call that leaves the database alone.
  pub stay :
      (id : String) (w w' : World P) (a : Aggregate)
      → w'.db ≡ w.db
      → Holds id w a
      → Moves id w w' a [] []
  stay id w w' a same h =
      subst (λ d. Moves id w (record w' { db = d }) a [] []) (sym same)
        (record {
          holds = record {
            order_found = h.order_found;
            payment_found = h.payment_found;
            reservation_found = h.reservation_found;
            shipment_found = h.shipment_found;
          };
          elsewhere = λ j ne. record {
            same_order = refl;
            same_payment = refl;
            same_reservation = refl;
            same_shipment = refl;
          };
          logged = sym (append-nil (audit_logs w));
          written = sym (append-nil (sent w));
        })

  -- Moves speak of the databases alone.
  pub on_db :
      (id : String) (u v w x : World P) (a : Aggregate) (l : List AuditLog) (p : List Payload)
      → w.db ≡ u.db
      → x.db ≡ v.db
      → Moves id u v a l p
      → Moves id w x a l p
  on_db id u v w x a l p from to m =
      subst (λ d. Moves id (record w { db = d }) x a l p) (sym from)
        (subst (λ d. Moves id (record w { db = u.db }) (record x { db = d }) a l p) (sym to)
          (record {
            holds = record {
              order_found = m.holds.order_found;
              payment_found = m.holds.payment_found;
              reservation_found = m.holds.reservation_found;
              shipment_found = m.holds.shipment_found;
            };
            elsewhere = λ j ne. record {
              same_order = (m.elsewhere j ne).same_order;
              same_payment = (m.elsewhere j ne).same_payment;
              same_reservation = (m.elsewhere j ne).same_reservation;
              same_shipment = (m.elsewhere j ne).same_shipment;
            };
            logged = m.logged;
            written = m.written;
          }))

  pub then_move :
      (id : String) (u v w : World P) (a b : Aggregate) (k l : List AuditLog) (p q : List Payload)
      → Moves id u v a k p
      → Moves id v w b l q
      → Moves id u w b (k ++ l) (p ++ q)
  then_move id u v w a b k l p q m n = record {
    holds = n.holds;
    elsewhere = λ j ne. SameRows-trans j u v w (m.elsewhere j ne) (n.elsewhere j ne);
    logged = n.logged ∙ ap (λ x. x ++ l) m.logged ∙ append_assoc (audit_logs u) k l;
    written = n.written ∙ ap (λ x. x ++ q) m.written ∙ append_assoc (sent u) p q;
  }

module _ {P : Platform} (lawful : IsPlatform P) (id : String) (w : World P) (a : Aggregate)
    (h : Holds id w a) where
  pub put_order-Moves :
      (o : Order) → o.id ≡ id → Moves id w (put_order w o) (record a { order = o }) [] []
  put_order-Moves o own = record {
    holds = record {
      order_found =
          rw (lawful.schema.orders.table.rows-update w.db.orders o)
            (first-replace_self (λ e. e.id) o (orders w) a.order id own h.order_found);
      payment_found = h.payment_found;
      reservation_found = h.reservation_found;
      shipment_found = h.shipment_found;
    };
    elsewhere = λ j ne. record {
      same_order =
          rw (lawful.schema.orders.table.rows-update w.db.orders o)
            (first-replace_other (λ e. e.id) o (orders w) j (λ e. ne (sym e ∙ own)));
      same_payment = refl;
      same_reservation = refl;
      same_shipment = refl;
    };
    logged = sym (append-nil (audit_logs w));
    written = sym (append-nil (sent w));
  }

  pub put_payment-Moves :
      (p : Payment)
      → p.order_id ≡ id
      → Moves id w (put_payment w p) (record a { payment = p }) [] []
  put_payment-Moves p own = record {
    holds = record {
      order_found = h.order_found;
      payment_found =
          rw (lawful.schema.payments.table.rows-update w.db.payments p)
            (first-replace_self (λ e. e.order_id) p (payments w) a.payment id own h.payment_found);
      reservation_found = h.reservation_found;
      shipment_found = h.shipment_found;
    };
    elsewhere = λ j ne. record {
      same_order = refl;
      same_payment =
          rw (lawful.schema.payments.table.rows-update w.db.payments p)
            (first-replace_other (λ e. e.order_id) p (payments w) j (λ e. ne (sym e ∙ own)));
      same_reservation = refl;
      same_shipment = refl;
    };
    logged = sym (append-nil (audit_logs w));
    written = sym (append-nil (sent w));
  }

  pub put_reservation-Moves :
      (r : InventoryReservation)
      → r.order_id ≡ id
      → Moves id w (put_reservation w r) (record a { reservation = r }) [] []
  put_reservation-Moves r own = record {
    holds = record {
      order_found = h.order_found;
      payment_found = h.payment_found;
      reservation_found = rw (lawful.schema.reservations.table.rows-update w.db.reservations r) (
          first-replace_self (λ e. e.order_id) r (reservations w) a.reservation id own
            h.reservation_found);
      shipment_found = h.shipment_found;
    };
    elsewhere = λ j ne. record {
      same_order = refl;
      same_payment = refl;
      same_reservation =
          rw (lawful.schema.reservations.table.rows-update w.db.reservations r)
            (first-replace_other (λ e. e.order_id) r (reservations w) j (λ e. ne (sym e ∙ own)));
      same_shipment = refl;
    };
    logged = sym (append-nil (audit_logs w));
    written = sym (append-nil (sent w));
  }

  pub put_shipment-Moves :
      (s : Shipment)
      → s.order_id ≡ id
      → Moves id w (put_shipment w s) (record a { shipment = s }) [] []
  put_shipment-Moves s own = record {
    holds = record {
      order_found = h.order_found;
      payment_found = h.payment_found;
      reservation_found = h.reservation_found;
      shipment_found =
          rw (lawful.schema.shipments.table.rows-update w.db.shipments s) (
            first-replace_self (λ e. e.order_id) s (shipments w) a.shipment id own
              h.shipment_found);
    };
    elsewhere = λ j ne. record {
      same_order = refl;
      same_payment = refl;
      same_reservation = refl;
      same_shipment =
          rw (lawful.schema.shipments.table.rows-update w.db.shipments s)
            (first-replace_other (λ e. e.order_id) s (shipments w) j (λ e. ne (sym e ∙ own)));
    };
    logged = sym (append-nil (audit_logs w));
    written = sym (append-nil (sent w));
  }

  pub add_event-Moves : (x : NewEvent) → Moves id w (add_event w x) a [] (x.payload ∷ [])
  add_event-Moves x = record {
    holds = record {
      order_found = h.order_found;
      payment_found = h.payment_found;
      reservation_found = h.reservation_found;
      shipment_found = h.shipment_found;
    };
    elsewhere = λ j ne. record {
      same_order = refl;
      same_payment = refl;
      same_reservation = refl;
      same_shipment = refl;
    };
    logged = sym (append-nil (audit_logs w));
    written =
        rw (lawful.schema.outbox.rows-insert w.db.outbox (new_event_row P w x))
          (map-append _ (events w) _);
  }

  pub add_audit_log-Moves : (x : AuditLog) → Moves id w (add_audit_log w x) a (x ∷ []) []
  add_audit_log-Moves x = record {
    holds = record {
      order_found = h.order_found;
      payment_found = h.payment_found;
      reservation_found = h.reservation_found;
      shipment_found = h.shipment_found;
    };
    elsewhere = λ j ne. record {
      same_order = refl;
      same_payment = refl;
      same_reservation = refl;
      same_shipment = refl;
    };
    logged =
        ap (map (λ (r : AuditRow). r.entry))
          (lawful.schema.audit_logs.rows-insert w.db.audit_logs (new_audit_row P w x))
        ∙ map-append _ (audit_rows w) _;
    written = sym (append-nil (sent w));
  }
