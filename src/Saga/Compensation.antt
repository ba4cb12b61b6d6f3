-- ===== src/Saga/Compensation.antt =====
-- What the compensation of a failed saga undoes, on an order that has all its rows.
use order_orchestrator.Base.{
  ℕ, String, some, Bool, true, false, List, [], ◌∷◌, ◌++◌, ◌≡◌, refl, subst, text_append,
}
use order_orchestrator.Entities.{OrderStatus, PaymentStatus, AuditLog, Metadata}
use order_orchestrator.Platform.{Platform}
use order_orchestrator.Platform.Laws.{IsPlatform}
use order_orchestrator.Exceptions.{Exception, message}
use order_orchestrator.World.{World, ◌>>◌}
use order_orchestrator.Aggregates.{Aggregate, Holds}
use order_orchestrator.Aggregates.Effects.{moved}
use order_orchestrator.AuditTrail.{log}
use order_orchestrator.Orders.Status.{force_status}
use order_orchestrator.Saga.{CompensationContext, compensate}
use order_orchestrator.Saga.Work.{entry}
use order_orchestrator.Saga.Undoing.{
  Undoes, released_if, cancelled_if, log_if, failed_entry, failed_payload, then_undo, release_if,
  cancel_if, fail_order,
}

-- The rows once a failed saga has been compensated at the time `t`.
abbrev pub undone : Bool → ℕ → Aggregate → Aggregate
undone confirmed t a = record (released_if confirmed a) {
  order = record (a.order) { status = OrderStatus.failed };
  payment = record (a.payment) { status = PaymentStatus.cancelled; processed_at = some t };
}

moved-eq-undone :
    (confirmed paid : Bool) (t u : ℕ) (a : Aggregate)
    → moved OrderStatus.failed t (cancelled_if paid u (released_if confirmed a))
      ≡ undone confirmed t a
moved-eq-undone true true t u a = refl
moved-eq-undone true false t u a = refl
moved-eq-undone false true t u a = refl
moved-eq-undone false false t u a = refl

abbrev pub compensation_logs : String → String → CompensationContext → String → List AuditLog
compensation_logs id actor context text =
    log_if context.inventory_confirmed (entry id actor "COMPENSATION_INVENTORY_RELEASED")
    ++ (log_if context.payment_authorized (entry id actor "COMPENSATION_PAYMENT_CANCELLED")
        ++ failed_entry id actor text ∷ [])

order-undo :
    (confirmed paid : Bool) (u : ℕ) (a : Aggregate)
    → (cancelled_if paid u (released_if confirmed a)).order ≡ a.order
order-undo true true u a = refl
order-undo true false u a = refl
order-undo false true u a = refl
order-undo false false u a = refl

module _ {P : Platform} (lawful : IsPlatform P) (id actor : String) (w : World P) (a : Aggregate)
    (h : Holds id w a) where
  -- The compensation ends without a throw: the order has failed and its payment is cancelled, the
  -- reservation is released if it had been confirmed, and each part has left its entry.
  pub compensate-Undoes :
      (context : CompensationContext) (e : Exception)
      → (t : ℕ) × Undoes id
          (compensate P id actor context e)
          w
          (undone context.inventory_confirmed t a)
          (compensation_logs id actor context (message e))
          (failed_payload id actor a.order.status (message e) ∷ [])
  unfolding compensate
  compensate-Undoes context e =
      let confirmed = context.inventory_confirmed in
      let paid = context.payment_authorized in
      let r = release_if lawful id actor w a h confirmed in
      let b = released_if confirmed a in
      let c = cancel_if lawful id actor r.end b r.moves.holds paid in
      let u = P.now r.end.host.clock_reads in
      let d = cancelled_if paid u b in
      let f = fail_order lawful id actor c.end d c.moves.holds (message e) in
      let t = P.now c.end.host.clock_reads in
      let g : (x : Aggregate) (y : OrderStatus) → Type 0 = λ x y.
        Undoes id
          (force_status P id OrderStatus.failed actor
              (some (text_append "Saga failed: " (message e)))
            >> log P id "SAGA_FAILED" actor (some (Metadata.error (message e))) (some (message e)))
          c.end x (failed_entry id actor (message e) ∷ [])
          (failed_payload id actor y (message e) ∷ []) in
      (
        t,
        then_undo id _ _ w b _ _ _ [] _ r (
            then_undo id _ _ r.end d _ _ _ [] _ c (
              subst (λ o. g (undone confirmed t a) o.status) (order-undo confirmed paid u a)
                (subst (λ x. g x d.order.status) (moved-eq-undone confirmed paid t u a) f))),
      )
