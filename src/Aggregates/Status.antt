-- ===== src/Aggregates/Status.antt =====
-- A status change as a move of the order's rows.
use order_orchestrator.Base.{
  ℕ, subst, String, Option, none, some, Bool, true, false, [], ◌∷◌, ◌≡◌, refl, sym,
}
use order_orchestrator.Entities.{OrderStatus, PaymentStatus, ShipmentStatus, NewEvent, Payload}
use order_orchestrator.Platform.{Platform}
use order_orchestrator.Platform.Laws.{IsPlatform}
use order_orchestrator.Exceptions.{ok}
use order_orchestrator.StateMachine.{assert_transition}
use order_orchestrator.World.{World}
use order_orchestrator.World.Reads.{payment_of, shipment_of}
use order_orchestrator.World.Writes.{put_order, add_event}
use order_orchestrator.Aggregates.{Aggregate, Holds, Moves}
use order_orchestrator.Aggregates.Compose.{then_move, put_order-Moves, add_event-Moves}
use order_orchestrator.Orders.Status.{persist_status_change, update_status, force_status}
use order_orchestrator.Orders.Status.Runs.{
  status_event, after_settling, after_shipping, after_effects, after_change,
  persist_status_change_run,
}
use order_orchestrator.Orders.Status.Laws.{find_by_id_run, after_effects-Touched}
use order_orchestrator.Orders.Status.Effects.{or_time}
use order_orchestrator.Aggregates.Effects.{
  moved, own_order, after_settling-Moves, shipping_at-Moves,
}

-- The state and the rows once the order itself has its new status.
module _ {P : Platform} (lawful : IsPlatform P) (id : String) (w : World P) (a : Aggregate)
    (h : Holds id w a) (next : OrderStatus) where
  abbrev renamed : Aggregate
  renamed = record a { order = record (a.order) { status = next } }

  abbrev saved : World P
  saved = put_order w (record (a.order) { status = next })

  saved-Moves : Moves id w saved renamed [] []
  saved-Moves =
      put_order-Moves lawful id w a h (record (a.order) { status = next }) (own_order id w a h)

  settled-Moves :
      (status : PaymentStatus)
      → let p = record (a.payment) {
        status = status;
        processed_at = some (P.now w.host.clock_reads);
      } in
        Moves id w
          (after_settling status (payment_of saved id) saved)
          (record renamed { payment = p })
          []
          []
  settled-Moves status =
      let p = record (a.payment) {
        status = status;
        processed_at = some (P.now w.host.clock_reads);
      } in
      subst (λ f. Moves id w (after_settling status f saved) (record renamed { payment = p }) [] [])
        (sym saved-Moves.holds.payment_found)
        (then_move id w saved (after_settling status (some a.payment) saved) renamed
          (record renamed { payment = p }) [] [] [] [] saved-Moves
          (after_settling-Moves lawful id saved renamed saved-Moves.holds status))

  shipped-Moves :
      let s = record (a.shipment) {
        status = ShipmentStatus.shipped;
        shipped_at = some (or_time a.shipment.shipped_at (P.now w.host.clock_reads));
      } in
      Moves id w
        (after_shipping (shipment_of saved id) saved)
        (record renamed { shipment = s })
        []
        []
  shipped-Moves =
      let s = record (a.shipment) {
        status = ShipmentStatus.shipped;
        shipped_at = some (or_time a.shipment.shipped_at (P.now w.host.clock_reads));
      } in
      subst (λ f. Moves id w (after_shipping f saved) (record renamed { shipment = s }) [] [])
        (sym saved-Moves.holds.shipment_found)
        (then_move id w saved (after_shipping (some a.shipment) saved) renamed
          (record renamed { shipment = s }) [] [] [] [] saved-Moves
          (shipping_at-Moves lawful id saved renamed saved-Moves.holds a.shipment.shipped_at))

module _ {P : Platform} (lawful : IsPlatform P) (id : String) (w : World P) (a : Aggregate)
    (h : Holds id w a) where
  after_effects-Moves :
      (next : OrderStatus)
      → Moves id w
          (after_effects next id (saved lawful id w a h next))
          (moved next (P.now w.host.clock_reads) a)
          []
          []
  after_effects-Moves OrderStatus.pending = saved-Moves lawful id w a h OrderStatus.pending
  after_effects-Moves OrderStatus.paid =
      settled-Moves lawful id w a h OrderStatus.paid PaymentStatus.authorized
  after_effects-Moves OrderStatus.failed =
      settled-Moves lawful id w a h OrderStatus.failed PaymentStatus.cancelled
  after_effects-Moves OrderStatus.shipped = shipped-Moves lawful id w a h OrderStatus.shipped

  after_change-Moves :
      (next : OrderStatus) (e : NewEvent)
      → Moves id w
          (after_change id next e a.order w)
          (moved next (P.now w.host.clock_reads) a)
          []
          (e.payload ∷ [])
  after_change-Moves next e =
      let w₁ = after_effects next id (saved lawful id w a h next) in
      let b = moved next (P.now w.host.clock_reads) a in
      let m = after_effects-Moves next in
      then_move id w w₁ (add_event w₁ e) b b [] [] [] (e.payload ∷ []) m
        (add_event-Moves lawful id w₁ b m.holds e)

  -- The payload that reports the change.
  abbrev pub change_payload : OrderStatus → Bool → String → Option String → Payload
  change_payload next forced actor reason =
      Payload.status_changed id a.order.status next forced actor reason

  persist-Moves :
      (next : OrderStatus) (forced : Bool) (actor : String) (reason : Option String)
      → (w' : World P) × (persist_status_change P id next forced actor reason w ≡ (ok tt, w'))
        × Moves id w w'
            (moved next (P.now w.host.clock_reads) a)
            []
            (change_payload next forced actor reason ∷ [])
        × (w'.rules ≡ w.rules)
        × (w'.metrics ≡ w.metrics)
  persist-Moves next forced actor reason =
      let e = status_event id a.order.status next forced actor reason in
      (
        after_change id next e a.order w,
        persist_status_change_run lawful id next forced actor reason a.order w h.order_found,
        after_change-Moves next e,
        (after_effects-Touched lawful next id (saved lawful id w a h next)).rules_kept,
        (after_effects-Touched lawful next id (saved lawful id w a h next)).metrics_kept,
      )

  moved-order :
      (next : OrderStatus) (t : ℕ) → (moved next t a).order ≡ record (a.order) { status = next }
  moved-order OrderStatus.pending t = refl
  moved-order OrderStatus.paid t = refl
  moved-order OrderStatus.failed t = refl
  moved-order OrderStatus.shipped t = refl

  pub update_status-Moves :
      (next : OrderStatus)
      → assert_transition a.order.status next ≡ ok tt
      → (w' : World P) × (update_status P id next w
          ≡ (ok (moved next (P.now w.host.clock_reads) a).order, w'))
        × Moves id w w'
            (moved next (P.now w.host.clock_reads) a)
            []
            (change_payload next false "system" none ∷ [])
        × (w'.rules ≡ w.rules)
        × (w'.metrics ≡ w.metrics)
  unfolding update_status
  update_status-Moves next allowed =
      let (w', persisted, m, same_rules, same_metrics) = persist-Moves next false "system" none in
      (
        w',
        rw (find_by_id_run lawful id w a.order h.order_found) (
            rw allowed (
              rw persisted (
                find_by_id_run lawful id w' (moved next (P.now w.host.clock_reads) a).order
                  m.holds.order_found))),
        m,
        same_rules,
        same_metrics,
      )

  pub force_status-Moves :
      (next : OrderStatus) (actor : String) (reason : Option String)
      → (w' : World P) × (force_status P id next actor reason w
          ≡ (ok (moved next (P.now w.host.clock_reads) a).order, w'))
        × Moves id w w'
            (moved next (P.now w.host.clock_reads) a)
            []
            (change_payload next true actor reason ∷ [])
        × (w'.rules ≡ w.rules)
        × (w'.metrics ≡ w.metrics)
  unfolding force_status
  force_status-Moves next actor reason =
      let (w', persisted, m, same_rules, same_metrics) = persist-Moves next true actor reason in
      (
        w',
        rw persisted (
            find_by_id_run lawful id w' (moved next (P.now w.host.clock_reads) a).order
              m.holds.order_found),
        m,
        same_rules,
        same_metrics,
      )
