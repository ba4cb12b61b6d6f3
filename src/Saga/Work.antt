-- ===== src/Saga/Work.antt =====
-- The work of the three steps of the saga, behind their failure rules.
use order_orchestrator.Base.{
  ℕ, String, Option, none, some, [], ◌∷◌, ◌≡◌, ◌≢◌, refl, ap, ◌∙◌, inl, inr,
}
use order_orchestrator.Entities.{PaymentStatus, InventoryReservationStatus, AuditLog, Metadata}
use order_orchestrator.Platform.{Platform}
use order_orchestrator.Platform.Laws.{IsPlatform}
use order_orchestrator.Exceptions.{Exception, Result, ok, err}
use order_orchestrator.World.{World, Action, continue}
use order_orchestrator.World.Writes.{
  tick, put_payment, put_reservation, put_shipment, add_audit_log,
}
use order_orchestrator.World.Laws.{
  find_payment_run, find_reservation_run, find_shipment_run, save_payment_run, save_reservation_run,
  save_shipment_run, insert_audit_log_run,
}
use order_orchestrator.AuditTrail.{log}
use order_orchestrator.FailureInjection.{throw_if_configured}
use order_orchestrator.FailureInjection.RuleMap
use order_orchestrator.FailureInjection.Laws.{throw_if_configured-cases, throw_if_configured-other}
use order_orchestrator.Aggregates.{Aggregate, Holds, Moves}
use order_orchestrator.Aggregates.Compose.{
  stay, on_db, then_move, put_payment-Moves, put_reservation-Moves, put_shipment-Moves,
  add_audit_log-Moves,
}
use order_orchestrator.Aggregates.Effects.{own_payment, own_reservation, own_shipment}
use order_orchestrator.Saga.{requested_shipment, payment_work, inventory_work, shipment_work}

-- An entry of the audit log with no metadata and no reason.
abbrev pub entry : String → String → String → AuditLog
entry order_id actor action = record {
  order_id = order_id;
  action = action;
  actor = actor;
  reason = none;
  metadata = none;
}

-- The rule for a key is as it was.
abbrev pub SameRule : {P : Platform} → String → World P → World P → Type 0
SameRule j w w' = RuleMap.get j w'.rules ≡ RuleMap.get j w.rules

-- How a step ends: it makes its row `after t` at some time and logs it, or a failure rule for its
-- key makes it throw before it has written anything.
pub data StepEnd {P : Platform} (id actor key message action : String) (w : World P) (a : Aggregate)
    (after : ℕ → Aggregate) (r : Result (Unit {0})) (w' : World P) : Type 0 where
  passed :
      (t : ℕ)
      → r ≡ ok tt
      → Moves id w w' (after t) (entry id actor action ∷ []) []
      → ((j : String) → j ≢ key → SameRule j w w')
      → w'.metrics ≡ w.metrics
      → StepEnd id actor key message action w a after r w'
  injected :
      RuleMap.get key w.rules ≢ none
      → r ≡ err (Exception.error message)
      → Moves id w w' a [] []
      → ((j : String) → j ≢ key → SameRule j w w')
      → w'.metrics ≡ w.metrics
      → StepEnd id actor key message action w a after r w'

module _ {P : Platform} (lawful : IsPlatform P) where
  pub log_run :
      (id action actor : String) (metadata : Option Metadata) (reason : Option String) (w : World P)
      → log P id action actor metadata reason w ≡ (
        ok tt,
        add_audit_log w (record {
          order_id = id;
          action = action;
          actor = actor;
          reason = reason;
          metadata = metadata;
        }),
      )
  unfolding log
  log_run id action actor metadata reason w = insert_audit_log_run lawful w _

-- The audit log has one more entry.
abbrev pub logged_by : {P : Platform} → String → String → String → World P → World P
logged_by id actor action v = add_audit_log v (entry id actor action)

module _ {P : Platform} (id actor key text action : String) (w : World P) (a : Aggregate)
    (h : Holds id w a) (after : ℕ → Aggregate) (rest : Action P (Unit {0})) where
  -- What a step does once its failure rule has let it pass.
  abbrev Completes : World P → Type 0
  Completes w₁ =
      (t : ℕ) × (w₂ : World P) × (rest w₁ ≡ (ok tt, w₂))
      × Moves id w₁ w₂ (after t) (entry id actor action ∷ []) []
      × (w₂.rules ≡ w₁.rules)
      × (w₂.metrics ≡ w₁.metrics)

  -- A step of the saga is its failure rule and then its work.
  pub guarded_step :
      ((w₁ : World P) → Holds id w₁ a → Completes w₁)
      → let (r, w') = continue (throw_if_configured P key text w) (λ _. rest) in
        StepEnd id actor key text action w a after r w'
  guarded_step work =
      let w₁ = (throw_if_configured P key text w).1 in
      let (same_db, same_metrics, ends) = throw_if_configured-cases key text w in
      let m = stay id w w₁ a same_db h in
      let others : (j : String) → j ≢ key → SameRule j w w₁ =
        λ j ne. throw_if_configured-other key text w j ne in
      elim ends [
        | inl passes ↦
            let (t, w₂, runs, n, same_rules, counted) = work w₁ m.holds in
            let whole : throw_if_configured P key text w ≡ (ok tt, w₁) = ap (λ r. (r, w₁)) passes in
            rw whole (
              rw runs (
                passed t refl
                  (then_move id w w₁ w₂ a (after t) [] (entry id actor action ∷ []) [] [] m n)
                  (λ j ne. ap (RuleMap.get j) same_rules ∙ others j ne) (counted ∙ same_metrics)))
        | inr (throws, armed) ↦
            let whole : throw_if_configured P key text w ≡ (err (Exception.error text), w₁) =
              ap (λ r. (r, w₁)) throws in
            rw whole (injected armed refl m others same_metrics)
      ]

module _ {P : Platform} (lawful : IsPlatform P) (id actor : String) (w : World P) (a : Aggregate)
    (h : Holds id w a) where
  pub then_log :
      (v : World P) (b : Aggregate) (action : String)
      → Moves id w v b [] []
      → Moves id w (logged_by id actor action v) b (entry id actor action ∷ []) []
  then_log v b action m =
      then_move id w v (logged_by id actor action v) b b [] (entry id actor action ∷ []) [] [] m
        (add_audit_log-Moves lawful id v b m.holds (entry id actor action))

  pub payment_work_run :
      let t = P.now w.host.clock_reads in
      let p = record (a.payment) { status = PaymentStatus.authorized; processed_at = some t } in
      (payment_work P id actor w
        ≡ (ok tt, logged_by id actor "PAYMENT_AUTHORIZED" (put_payment (tick w) p)))
      × Moves id w
          (logged_by id actor "PAYMENT_AUTHORIZED" (put_payment (tick w) p))
          (record a { payment = p })
          (entry id actor "PAYMENT_AUTHORIZED" ∷ [])
          []
  unfolding payment_work
  payment_work_run =
      let t = P.now w.host.clock_reads in
      let p = record (a.payment) { status = PaymentStatus.authorized; processed_at = some t } in
      (
        rw (find_payment_run lawful w id, h.payment_found)
            (rw (save_payment_run (tick w) p)
              (log_run lawful id "PAYMENT_AUTHORIZED" actor none none (put_payment (tick w) p))),
        then_log (put_payment (tick w) p) (record a { payment = p }) "PAYMENT_AUTHORIZED"
            (on_db id w (put_payment w p) w (put_payment (tick w) p) (record a { payment = p }) []
              [] refl refl (put_payment-Moves lawful id w a h p (own_payment id w a h))),
      )

  pub inventory_work_run :
      let r = record (a.reservation) { status = InventoryReservationStatus.confirmed } in
      (inventory_work P id actor w
        ≡ (ok tt, logged_by id actor "INVENTORY_CONFIRMED" (put_reservation w r)))
      × Moves id w
          (logged_by id actor "INVENTORY_CONFIRMED" (put_reservation w r))
          (record a { reservation = r })
          (entry id actor "INVENTORY_CONFIRMED" ∷ [])
          []
  unfolding inventory_work
  inventory_work_run =
      let r = record (a.reservation) { status = InventoryReservationStatus.confirmed } in
      (
        rw (find_reservation_run lawful w id, h.reservation_found)
            (rw (save_reservation_run w r)
              (log_run lawful id "INVENTORY_CONFIRMED" actor none none (put_reservation w r))),
        then_log (put_reservation w r) (record a { reservation = r }) "INVENTORY_CONFIRMED"
            (put_reservation-Moves lawful id w a h r (own_reservation id w a h)),
      )

  pub shipment_work_run :
      let s = requested_shipment id (P.now w.host.clock_reads) a.shipment in
      (shipment_work P id actor w
        ≡ (ok tt, logged_by id actor "SHIPMENT_REQUESTED" (put_shipment (tick w) s)))
      × Moves id w
          (logged_by id actor "SHIPMENT_REQUESTED" (put_shipment (tick w) s))
          (record a { shipment = s })
          (entry id actor "SHIPMENT_REQUESTED" ∷ [])
          []
  unfolding shipment_work
  shipment_work_run =
      let s = requested_shipment id (P.now w.host.clock_reads) a.shipment in
      (
        rw (find_shipment_run lawful w id, h.shipment_found)
            (rw (save_shipment_run (tick w) s)
              (log_run lawful id "SHIPMENT_REQUESTED" actor none none (put_shipment (tick w) s))),
        then_log (put_shipment (tick w) s) (record a { shipment = s }) "SHIPMENT_REQUESTED"
            (on_db id w (put_shipment w s) w (put_shipment (tick w) s) (record a { shipment = s })
              [] [] refl refl (put_shipment-Moves lawful id w a h s (own_shipment id w a h))),
      )
