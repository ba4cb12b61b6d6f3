-- ===== src/Outbox/ConsumeFrame.antt =====
-- The saga and the consumption of an event, which write no event that was there and no dead letter.
use order_orchestrator.Base.{String, none, some, true, false, str_eq, Bool-cases, inl, inr}
use order_orchestrator.Platform.{Platform}
use order_orchestrator.Platform.Laws.{IsPlatform}
use order_orchestrator.Entities.{
  OrderStatus, status_eq, PaymentStatus, InventoryReservationStatus, OutboxEvent, Metadata,
  created_event, status_changed_event,
}
use order_orchestrator.Exceptions.{Exception, message, Result, ok, err}
use order_orchestrator.World.{World, Metric, Action}
use order_orchestrator.Saga.{
  CompensationContext, Attempt, requested_shipment, note, count_step, execute_step, attempt,
  payment_work, inventory_work, shipment_work, authorize_payment, confirm_inventory,
  request_shipment, release_inventory, cancel_payment, compensate, ship_order, confirm_order,
  saga_body, end_saga, execute_saga, handle_order_created, context_of,
}
use order_orchestrator.Consumer.{unsupported, handle_event, consume}
use order_orchestrator.Outbox.Frame.{
  Appends, Framed, Appends-trans, Framed-pure, Framed-throw, Framed-bind, Framed-then, Framed-when,
  Framed-when_some, Framed-or_throw,
}
use order_orchestrator.Outbox.SagaFrame.{
  Framed-record_metric, Framed-current_time, Framed-throw_if_configured, Framed-save_payment,
  Framed-save_reservation, Framed-save_shipment, Framed-find_order, Framed-find_payment,
  Framed-find_reservation, Framed-find_shipment, Framed-log, Framed-update_status,
  Framed-force_status,
}

module _ {P : Platform} where
  count_step-Appends :
      (step : String) (w : World P) (r : Result (Unit {0})) (v : World P)
      → Appends w v
      → Appends w (count_step P step (r, v)).1
  count_step-Appends step w (ok u) v h =
      Appends-trans w v _ h ((Framed-record_metric (Metric.saga_step_total step "success")).frame v)
  count_step-Appends step w (err e) v h =
      Appends-trans w v _ h ((Framed-record_metric (Metric.saga_step_total step "failed")).frame v)

  Framed-execute_step :
      (step : String) {m : Action P (Unit {0})} → Framed m → Framed (execute_step P step m)
  Framed-execute_step step {m} h = record {
    frame = λ w. count_step-Appends step w (m w).0 (m w).1 (h.frame w);
  }

module _ {P : Platform} (lawful : IsPlatform P) (id actor : String) where
  Framed-note : (action : String) → Framed (note P id action actor)
  Framed-note action = Framed-log lawful id action actor none none

  Framed-payment_work : Framed (payment_work P id actor)
  unfolding payment_work
  Framed-payment_work = Framed-bind (Framed-find_payment lawful id) (λ o.
      Framed-bind (Framed-or_throw o _) (λ p. Framed-bind Framed-current_time (λ t.
        Framed-then
          (Framed-save_payment
            (record p { status = PaymentStatus.authorized; processed_at = some t }))
          (Framed-note "PAYMENT_AUTHORIZED"))))

  Framed-inventory_work : Framed (inventory_work P id actor)
  unfolding inventory_work
  Framed-inventory_work = Framed-bind (Framed-find_reservation lawful id) (λ o.
      Framed-bind (Framed-or_throw o _) (λ r.
        Framed-then
          (Framed-save_reservation (record r { status = InventoryReservationStatus.confirmed }))
          (Framed-note "INVENTORY_CONFIRMED")))

  Framed-shipment_work : Framed (shipment_work P id actor)
  unfolding shipment_work
  Framed-shipment_work = Framed-bind (Framed-find_shipment lawful id) (λ o.
      Framed-bind (Framed-or_throw o _) (λ s. Framed-bind Framed-current_time (λ t.
        Framed-then (Framed-save_shipment (requested_shipment id t s))
          (Framed-note "SHIPMENT_REQUESTED"))))

  Framed-authorize_payment : Framed (authorize_payment P id actor)
  unfolding authorize_payment
  Framed-authorize_payment = Framed-then (Framed-throw_if_configured _ _) Framed-payment_work

  Framed-confirm_inventory : Framed (confirm_inventory P id actor)
  unfolding confirm_inventory
  Framed-confirm_inventory = Framed-then (Framed-throw_if_configured _ _) Framed-inventory_work

  Framed-request_shipment : Framed (request_shipment P id actor)
  unfolding request_shipment
  Framed-request_shipment = Framed-then (Framed-throw_if_configured _ _) Framed-shipment_work

  Framed-release_inventory : Framed (release_inventory P id actor)
  unfolding release_inventory
  Framed-release_inventory = Framed-bind (Framed-find_reservation lawful id) (λ o.
      Framed-when_some o _ (λ r.
        Framed-then
          (Framed-save_reservation (record r { status = InventoryReservationStatus.released }))
          (Framed-note "COMPENSATION_INVENTORY_RELEASED")))

  Framed-cancel_payment : Framed (cancel_payment P id actor)
  unfolding cancel_payment
  Framed-cancel_payment = Framed-bind (Framed-find_payment lawful id) (λ o.
      Framed-when_some o _ (λ p. Framed-bind Framed-current_time (λ t.
        Framed-then
          (Framed-save_payment
            (record p { status = PaymentStatus.cancelled; processed_at = some t }))
          (Framed-note "COMPENSATION_PAYMENT_CANCELLED"))))

  Framed-compensate :
      (context : CompensationContext) (e : Exception) → Framed (compensate P id actor context e)
  unfolding compensate
  Framed-compensate context e =
      Framed-then (Framed-when context.inventory_confirmed _ Framed-release_inventory) (
        Framed-then (Framed-when context.payment_authorized _ Framed-cancel_payment) (
          Framed-then (Framed-force_status lawful id OrderStatus.failed actor _) (
            Framed-log lawful id "SAGA_FAILED" actor (some (Metadata.error (message e)))
              (some (message e)))))

  Framed-ship_order : Framed (ship_order P id actor)
  unfolding ship_order
  Framed-ship_order = Framed-then (Framed-execute_step _ Framed-request_shipment) (
      Framed-then (Framed-update_status lawful id OrderStatus.shipped) (
        Framed-then (Framed-note "SAGA_COMPLETED")
          (Framed-record_metric (Metric.saga_total "success"))))

  Framed-confirm_order : Framed (confirm_order P id actor)
  unfolding confirm_order
  Framed-confirm_order = Framed-then (Framed-update_status lawful id OrderStatus.paid) (
      Framed-then (Framed-note "ORDER_MARKED_PAID")
        (Framed-execute_step _ Framed-confirm_inventory))

  attempt-Appends :
      (w : World P) (context : CompensationContext) (r : Result (Unit {0})) (v : World P)
      (rest : World P → Attempt P)
      → Appends w v
      → ((x : World P) → Appends x (rest x).world)
      → Appends w (attempt P context (r, v) rest).world
  attempt-Appends w context (ok u) v rest h k = Appends-trans w v (rest v).world h (k v)
  attempt-Appends w context (err e) v rest h k = h

  -- The body behind its second part, and behind its first one.
  abbrev shipped_part : World P → Attempt P
  shipped_part w =
      attempt P (context_of true true) (ship_order P id actor w)
        (λ v. record { result = ok tt; context = context_of true true; world = v })

  abbrev confirmed_part : World P → Attempt P
  confirmed_part w = attempt P (context_of true false) (confirm_order P id actor w) shipped_part

  shipped_part-Appends : (w : World P) → Appends w (shipped_part w).world
  shipped_part-Appends w =
      let (r, v) = ship_order P id actor w in
      attempt-Appends w (context_of true true) r v
        (λ x. record { result = ok tt; context = context_of true true; world = x })
        (Framed-ship_order.frame w) (λ x. (Framed-pure tt).frame x)

  confirmed_part-Appends : (w : World P) → Appends w (confirmed_part w).world
  confirmed_part-Appends w =
      let (r, v) = confirm_order P id actor w in
      attempt-Appends w (context_of true false) r v shipped_part (Framed-confirm_order.frame w)
        shipped_part-Appends

  saga_body-Appends : (w : World P) → Appends w (saga_body P id actor w).world
  unfolding saga_body
  saga_body-Appends w =
      let (r, v) = execute_step P "payment_authorize" (authorize_payment P id actor) w in
      attempt-Appends w (context_of false false) r v confirmed_part
        ((Framed-execute_step "payment_authorize" Framed-authorize_payment).frame w)
        confirmed_part-Appends

  end_saga-Appends :
      (w : World P) (r : Result (Unit {0})) (context : CompensationContext) (v : World P)
      → Appends w v
      → Appends w (end_saga P id actor (record { result = r; context = context; world = v })).1
  unfolding end_saga
  end_saga-Appends w (ok u) context v h = h
  end_saga-Appends w (err e) context v h =
      let counts = Framed-record_metric (Metric.saga_total "compensated") in
      Appends-trans w v _ h (
        (Framed-then (Framed-then (Framed-compensate context e) counts)
            (Framed-throw {A = Unit {0}} e)).frame
          v)

  Framed-execute_saga : Framed (execute_saga P id actor)
  unfolding execute_saga
  Framed-execute_saga = Framed-then (Framed-note "SAGA_STARTED") (record {
    frame = λ w.
        let a = saga_body P id actor w in
        end_saga-Appends w a.result a.context a.world (saga_body-Appends w);
  })

module _ {P : Platform} (lawful : IsPlatform P) where
  Framed-handle_order_created : (id : String) → Framed (handle_order_created P id)
  unfolding handle_order_created
  Framed-handle_order_created id = Framed-bind (Framed-find_order lawful id) (λ o.
      Framed-bind (Framed-or_throw o _) (λ order.
        Framed-when (status_eq order.status OrderStatus.pending) _
          (Framed-execute_saga lawful id "saga")))

  Framed-handle_event : (e : OutboxEvent) → Framed (handle_event P e)
  Framed-handle_event e = elim (Bool-cases (str_eq e.event_type created_event)) [
    | inl created ↦ rw created (Framed-handle_order_created e.aggregate_id)
    | inr other ↦ rw other (elim (Bool-cases (str_eq e.event_type status_changed_event)) [
      | inl changed ↦ rw changed (Framed-pure tt)
      | inr neither ↦ rw neither (Framed-throw (unsupported e))
    ])
  ]

  -- Whatever the consumption of an event does, the whole saga included, and whether it returns or
  -- throws, it only adds events to the outbox: no event that was there changes, no dead letter is
  -- written or removed, no failure rule appears, and the processor's own state stays.
  pub Framed-consume : (e : OutboxEvent) → Framed (consume P e)
  unfolding consume
  Framed-consume e = Framed-then (Framed-throw_if_configured _ _) (Framed-handle_event e)
