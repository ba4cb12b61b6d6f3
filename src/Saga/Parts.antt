-- ===== src/Saga/Parts.antt =====
-- The three parts of the saga's `try`, with the audit entries, events and counters of each.
use mathlib.Core.List.{append-nil}
use order_orchestrator.Base.{ℕ, String, none, false, [], ◌∷◌, ◌++◌, ◌≡◌, refl, sym, ◌∙◌}
use order_orchestrator.Entities.{OrderStatus, Payload}
use order_orchestrator.Platform.{Platform}
use order_orchestrator.Platform.Laws.{IsPlatform}
use order_orchestrator.Exceptions.{ok}
use order_orchestrator.World.{World, Metric, continue, ◌>>◌, record_metric}
use order_orchestrator.Aggregates.{Aggregate, Holds}
use order_orchestrator.Aggregates.Compose.{stay, on_db, add_audit_log-Moves}
use order_orchestrator.Aggregates.Status.{update_status-Moves}
use order_orchestrator.Aggregates.Effects.{moved}
use order_orchestrator.StateMachine.{assert_transition}
use order_orchestrator.Orders.Status.{update_status}
use order_orchestrator.Saga.{
  note, execute_step, payment_key, inventory_key, shipment_key, authorize_payment,
  confirm_inventory, request_shipment, confirm_order, ship_order,
}
use order_orchestrator.Saga.Steps.{
  authorized, confirmed, requested, authorize_payment-StepEnd, confirm_inventory-StepEnd,
  request_shipment-StepEnd,
}
use order_orchestrator.Saga.Work.{entry, logged_by, log_run}
use order_orchestrator.Saga.Pieces.{
  Part, then-Part, Ended, succeeded, stopped, counted_step, KeepsRules, before-Ended, Ended-then,
}

module _ {P : Platform} (lawful : IsPlatform P) (id actor : String) (w : World P) (a : Aggregate)
    (h : Holds id w a) where
  -- A status change and the audit entry behind it.
  update-Part :
      (next : OrderStatus)
      → assert_transition a.order.status next ≡ ok tt
      → (v : World P) × (t : ℕ) × (update_status P id next w ≡ (ok (moved next t a).order, v))
        × Part id w v
            (moved next t a)
            []
            (Payload.status_changed id a.order.status next false "system" none ∷ [])
            []
        × (v.rules ≡ w.rules)
  update-Part next allowed =
      let (v, runs, m, same_rules, same_metrics) =
        update_status-Moves lawful id w a h next allowed in
      (
        v,
        P.now w.host.clock_reads,
        runs,
        record { moves = m; counted = same_metrics ∙ sym (append-nil w.metrics) },
        same_rules,
      )

  pub note-Part :
      (action : String)
      → Part id w (logged_by id actor action w) a (entry id actor action ∷ []) [] []
  note-Part action = record {
    moves = add_audit_log-Moves lawful id w a h (entry id actor action);
    counted = sym (append-nil w.metrics);
  }

abbrev pub payment_text : String
payment_text = "Injected failure at payment authorize step"

abbrev pub inventory_text : String
inventory_text = "Injected failure at inventory confirm step"

abbrev pub shipment_text : String
shipment_text = "Injected failure at shipment request step"

-- What the saga's own status change reports.
abbrev pub saga_payload : String → OrderStatus → OrderStatus → Payload
saga_payload id previous next = Payload.status_changed id previous next false "system" none

module _ {P : Platform} (lawful : IsPlatform P) (id actor : String) (w : World P) (a : Aggregate)
    (h : Holds id w a) where
  pub first-Part :
      let (r, w') = execute_step P "payment_authorize" (authorize_payment P id actor) w in
      Ended payment_key payment_text w
        (λ v.
          (t : ℕ) × Part id w v
            (authorized a t)
            (entry id actor "PAYMENT_AUTHORIZED" ∷ [])
            []
            (succeeded "payment_authorize" ∷ []))
        (λ v. Part id w v a [] [] (stopped "payment_authorize" ∷ []))
        r
        w'
  first-Part =
      counted_step id actor payment_key payment_text "PAYMENT_AUTHORIZED" "payment_authorize" w a
        (authorized a) _ _ (authorize_payment-StepEnd lawful id actor w a h)

  pub second-Part :
      assert_transition a.order.status OrderStatus.paid ≡ ok tt
      → let (r, w') = confirm_order P id actor w in
        Ended inventory_key inventory_text w
          (λ v.
            (t : ℕ) × Part id w v
              (confirmed (moved OrderStatus.paid t a) t)
              (entry id actor "ORDER_MARKED_PAID" ∷ entry id actor "INVENTORY_CONFIRMED" ∷ [])
              (saga_payload id a.order.status OrderStatus.paid ∷ [])
              (succeeded "inventory_confirm" ∷ []))
          (λ v.
            (t : ℕ) × Part id w v
              (moved OrderStatus.paid t a)
              (entry id actor "ORDER_MARKED_PAID" ∷ [])
              (saga_payload id a.order.status OrderStatus.paid ∷ [])
              (stopped "inventory_confirm" ∷ []))
          r
          w'
  unfolding confirm_order
  second-Part allowed =
      let (u, t, runs, p, same) = update-Part lawful id actor w a h OrderStatus.paid allowed in
      let b = moved OrderStatus.paid t a in
      let v = logged_by id actor "ORDER_MARKED_PAID" u in
      let q = note-Part lawful id actor u b p.moves.holds "ORDER_MARKED_PAID" in
      let pq = then-Part id w u v b b [] _ _ [] [] [] p q in
      let m = confirm_inventory P id actor v in
      rw runs (
        rw (log_run lawful id "ORDER_MARKED_PAID" actor none none u) (
          before-Ended inventory_key inventory_text w v _ _ _ _ same
            (λ x (s, y). (t, then-Part id w v x b _ _ _ _ [] [] _ pq y))
            (λ x y. (t, then-Part id w v x b b _ [] _ [] [] _ pq y))
            (counted_step id actor inventory_key inventory_text "INVENTORY_CONFIRMED"
              "inventory_confirm" v b (confirmed b) m.0 m.1
              (confirm_inventory-StepEnd lawful id actor v b q.moves.holds))))

  -- What follows the shipment step: the order is shipped, and the success is noted and counted.
  complete :
      (x : World P) (b : Aggregate)
      → Holds id x b
      → assert_transition b.order.status OrderStatus.shipped ≡ ok tt
      → (y : World P) × (continue
            (update_status P id OrderStatus.shipped x)
            (λ _. note P id "SAGA_COMPLETED" actor >> record_metric (Metric.saga_total "success"))
          ≡ (ok tt, y))
        × KeepsRules x y
        × ((u : ℕ) × Part id x y
              (moved OrderStatus.shipped u b)
              (entry id actor "SAGA_COMPLETED" ∷ [])
              (saga_payload id b.order.status OrderStatus.shipped ∷ [])
              (Metric.saga_total "success" ∷ []))
  complete x b hb allowed =
      let (u, t, runs, p, same) = update-Part lawful id actor x b hb OrderStatus.shipped allowed in
      let c = moved OrderStatus.shipped t b in
      let v = logged_by id actor "SAGA_COMPLETED" u in
      let q = note-Part lawful id actor u c p.moves.holds "SAGA_COMPLETED" in
      let y = record v { metrics = v.metrics ++ Metric.saga_total "success" ∷ [] } in
      let last : Part id v y c [] [] (Metric.saga_total "success" ∷ []) = record {
        moves = on_db id v v v y c [] [] refl refl (stay id v v c refl q.moves.holds);
        counted = refl;
      } in
      (
        y,
        rw runs (rw (log_run lawful id "SAGA_COMPLETED" actor none none u)),
        same,
        (
          t,
          then-Part id x v y c c _ [] _ [] [] _ (then-Part id x u v c c [] _ _ [] [] [] p q) last,
        ),
      )

  pub third-Part :
      assert_transition a.order.status OrderStatus.shipped ≡ ok tt
      → let (r, w') = ship_order P id actor w in
        Ended shipment_key shipment_text w
          (λ v.
            (t u : ℕ) × Part id w v
              (moved OrderStatus.shipped u (requested id a t))
              (entry id actor "SHIPMENT_REQUESTED" ∷ entry id actor "SAGA_COMPLETED" ∷ [])
              (saga_payload id a.order.status OrderStatus.shipped ∷ [])
              (succeeded "shipment_request" ∷ Metric.saga_total "success" ∷ []))
          (λ v. Part id w v a [] [] (stopped "shipment_request" ∷ []))
          r
          w'
  unfolding ship_order
  third-Part allowed =
      let m = execute_step P "shipment_request" (request_shipment P id actor) w in
      Ended-then shipment_key shipment_text w w m.0 m.1 _ _
        (λ x (t, p).
          let (y, runs, same, (u, q)) = complete x (requested id a t) p.moves.holds allowed in
          (y, runs, same, (t, u, then-Part id w x y _ _ _ _ [] _ _ _ p q)))
        (counted_step id actor shipment_key shipment_text "SHIPMENT_REQUESTED" "shipment_request" w
          a (requested id a) _ _ (request_shipment-StepEnd lawful id actor w a h))
