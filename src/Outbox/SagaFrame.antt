-- ===== src/Outbox/SagaFrame.antt =====
-- The calls that the saga makes, and the saga, write no event that was there and no dead letter.
use order_orchestrator.Base.{ℕ, String, Option, none, some, Bool, [], ◌∷◌, refl}
use order_orchestrator.Platform.{Platform}
use order_orchestrator.Platform.Laws.{IsPlatform}
use order_orchestrator.Entities.{
  Order, OrderStatus, Payment, PaymentStatus, InventoryReservation, Shipment, ShipmentStatus,
  Payload, status_changed_event, NewEvent, Metadata,
}
use order_orchestrator.Exceptions.{Result, ok}
use order_orchestrator.World.{
  Metric, current_time, record_metric, lift, find_order, find_payment, find_reservation,
  find_shipment, save_order, save_payment, save_reservation, save_shipment, insert_event,
  new_event_row,
}
use order_orchestrator.World.Writes.{
  put_order, put_payment, put_reservation, put_shipment, add_event,
}
use order_orchestrator.World.Laws.{
  find_order_run, find_payment_run, find_reservation_run, find_shipment_run, save_order_run,
  save_payment_run, save_reservation_run, save_shipment_run, insert_event_run,
}
use order_orchestrator.AuditTrail.{log}
use order_orchestrator.FailureInjection.{throw_if_configured}
use order_orchestrator.FailureInjection.Laws.{
  throw_if_configured-cases, throw_if_configured-processor, throw_if_configured-no_new_rule,
}
use order_orchestrator.Orders.Status.{
  or_now, find_by_id, settle_payment, ship_shipment, apply_status_side_effects, change_status,
  persist_status_change, update_status, force_status,
}
use order_orchestrator.Saga.Work.{log_run}
use order_orchestrator.Outbox.Frame.{
  Framed, Appends-same_db, Appends-same_tables, Framed-run, Framed-read, Framed-pure, Framed-bind,
  Framed-then, Framed-when, Framed-when_some, Framed-or_throw, Framed-transaction,
}

module _ {P : Platform} where
  pub Framed-record_metric : (m : Metric) → Framed {P = P} (record_metric m)
  Framed-record_metric m = record { frame = λ w. Appends-same_db w _ refl refl (λ j h. h) }

  pub Framed-current_time : Framed {P = P} current_time
  Framed-current_time = record { frame = λ w. Appends-same_db w _ refl refl (λ j h. h) }

  pub Framed-lift : {A : Type 0} (r : Result A) → Framed {P = P} (lift r)
  Framed-lift r = record { frame = λ w. Appends-same_db w w refl refl (λ j h. h) }

  pub Framed-throw_if_configured : (key text : String) → Framed (throw_if_configured P key text)
  Framed-throw_if_configured key text = record {
    frame = λ w.
        Appends-same_db w _ (throw_if_configured-cases key text w).0
          (throw_if_configured-processor key text w)
          (λ j h. throw_if_configured-no_new_rule key text w j h);
  }

  pub Framed-save_order : (e : Order) → Framed (save_order P e)
  Framed-save_order e =
      Framed-run _ (λ _. ok tt) (λ w. put_order w e) (λ w. save_order_run w e)
        (λ w. Appends-same_tables w _ refl refl refl (λ j h. h))

  pub Framed-save_payment : (e : Payment) → Framed (save_payment P e)
  Framed-save_payment e =
      Framed-run _ (λ _. ok tt) (λ w. put_payment w e) (λ w. save_payment_run w e)
        (λ w. Appends-same_tables w _ refl refl refl (λ j h. h))

  pub Framed-save_reservation : (e : InventoryReservation) → Framed (save_reservation P e)
  Framed-save_reservation e =
      Framed-run _ (λ _. ok tt) (λ w. put_reservation w e) (λ w. save_reservation_run w e)
        (λ w. Appends-same_tables w _ refl refl refl (λ j h. h))

  pub Framed-save_shipment : (e : Shipment) → Framed (save_shipment P e)
  Framed-save_shipment e =
      Framed-run _ (λ _. ok tt) (λ w. put_shipment w e) (λ w. save_shipment_run w e)
        (λ w. Appends-same_tables w _ refl refl refl (λ j h. h))

module _ {P : Platform} (lawful : IsPlatform P) where
  pub Framed-find_order : (id : String) → Framed (find_order P id)
  Framed-find_order id = Framed-read _ _ (λ w. find_order_run lawful w id)

  pub Framed-find_payment : (id : String) → Framed (find_payment P id)
  Framed-find_payment id = Framed-read _ _ (λ w. find_payment_run lawful w id)

  pub Framed-find_reservation : (id : String) → Framed (find_reservation P id)
  Framed-find_reservation id = Framed-read _ _ (λ w. find_reservation_run lawful w id)

  pub Framed-find_shipment : (id : String) → Framed (find_shipment P id)
  Framed-find_shipment id = Framed-read _ _ (λ w. find_shipment_run lawful w id)

  pub Framed-log :
      (id action actor : String) (metadata : Option Metadata) (reason : Option String)
      → Framed (log P id action actor metadata reason)
  Framed-log id action actor metadata reason =
      Framed-run _ (λ _. ok tt) _ (λ w. log_run lawful id action actor metadata reason w)
        (λ w. Appends-same_tables w _ refl refl refl (λ j h. h))

  pub Framed-insert_event : (e : NewEvent) → Framed (insert_event P e)
  Framed-insert_event e =
      Framed-run _ (λ _. ok tt) (λ w. add_event w e) (λ w. insert_event_run lawful w e)
        λ w. record {
          new_events = new_event_row P w e ∷ [];
          appended = lawful.schema.outbox.rows-insert w.db.outbox (new_event_row P w e);
          dead_letters_kept = refl;
          processor_kept = refl;
          no_new_rule = λ j h. h;
        }

  Framed-or_now : (o : Option ℕ) → Framed (or_now P o)
  Framed-or_now none = Framed-current_time
  Framed-or_now (some t) = Framed-pure t

  pub Framed-find_by_id : (id : String) → Framed (find_by_id P id)
  unfolding find_by_id
  Framed-find_by_id id = Framed-bind (Framed-find_order id) (λ o. Framed-or_throw o _)

  Framed-settle_payment :
      (id : String) (status : PaymentStatus) → Framed (settle_payment P id status)
  unfolding settle_payment
  Framed-settle_payment id status = Framed-bind (Framed-find_payment id) (λ o.
      Framed-when_some o _ (λ p.
        Framed-bind Framed-current_time
          (λ t. Framed-save_payment (record p { status = status; processed_at = some t }))))

  Framed-ship_shipment : (id : String) → Framed (ship_shipment P id)
  unfolding ship_shipment
  Framed-ship_shipment id = Framed-bind (Framed-find_shipment id) (λ o. Framed-when_some o _ (λ s.
      Framed-bind (Framed-or_now s.shipped_at) (λ t.
        Framed-save_shipment (record s { status = ShipmentStatus.shipped; shipped_at = some t }))))

  Framed-apply_status_side_effects :
      (id : String) (status : OrderStatus) → Framed (apply_status_side_effects P id status)
  unfolding apply_status_side_effects
  Framed-apply_status_side_effects id status =
      Framed-then (Framed-when _ _ (Framed-settle_payment id PaymentStatus.authorized)) (
        Framed-then (Framed-when _ _ (Framed-settle_payment id PaymentStatus.cancelled))
          (Framed-when _ _ (Framed-ship_shipment id)))

  Framed-change_status :
      (id : String) (status : OrderStatus) (forced : Bool) (actor : String) (reason : Option String)
      → Framed (change_status P id status forced actor reason)
  unfolding change_status
  Framed-change_status id status forced actor reason = Framed-bind (Framed-find_order id) (λ o.
      Framed-bind (Framed-or_throw o _) (λ target.
        Framed-then (Framed-save_order (record target { status = status })) (
          Framed-then (Framed-apply_status_side_effects id status) (
            Framed-insert_event (record {
              aggregate_type = "Order";
              aggregate_id = id;
              event_type = status_changed_event;
              payload = Payload.status_changed id target.status status forced actor reason;
            })))))

  Framed-persist_status_change :
      (id : String) (status : OrderStatus) (forced : Bool) (actor : String) (reason : Option String)
      → Framed (persist_status_change P id status forced actor reason)
  unfolding persist_status_change
  Framed-persist_status_change id status forced actor reason =
      Framed-transaction lawful _ (Framed-change_status id status forced actor reason)

  pub Framed-update_status :
      (id : String) (status : OrderStatus) → Framed (update_status P id status)
  unfolding update_status
  Framed-update_status id status = Framed-bind (Framed-find_by_id id) (λ o.
      Framed-then (Framed-lift _)
        (Framed-then (Framed-persist_status_change id status _ _ _) (Framed-find_by_id id)))

  pub Framed-force_status :
      (id : String) (status : OrderStatus) (actor : String) (reason : Option String)
      → Framed (force_status P id status actor reason)
  unfolding force_status
  Framed-force_status id status actor reason =
      Framed-then (Framed-persist_status_change id status _ actor reason) (Framed-find_by_id id)
