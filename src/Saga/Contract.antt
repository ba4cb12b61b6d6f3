-- ===== src/Saga/Contract.antt =====
-- `executeSaga` on a pending order that has all its rows ends in one of the four ways of
-- Saga/Outcome.antt.

use order_orchestrator.Base.{
  ℕ, String, none, true, false, [], ◌∷◌, ◌≡◌, ◌≢◌, refl, sym, ap, ◌∙◌, subst, eq_iff, arith,
}
use order_orchestrator.Entities.{OrderStatus}
use order_orchestrator.Platform.{Platform}
use order_orchestrator.Platform.Laws.{IsPlatform}
use order_orchestrator.Exceptions.{Exception, Result, ok}
use order_orchestrator.World.{World, Metric}
use order_orchestrator.FailureInjection.RuleMap
use order_orchestrator.Aggregates.{Aggregate, Holds}
use order_orchestrator.Aggregates.Effects.{moved}
use order_orchestrator.StateMachine.{assert_transition}
use order_orchestrator.Saga.{
  Attempt, payment_key, inventory_key, shipment_key, saga_body, end_saga, execute_saga, attempt,
  context_of, confirm_order, ship_order,
}
use order_orchestrator.Saga.Steps.{authorized, confirmed, requested}
use order_orchestrator.Saga.Work.{entry, logged_by, log_run, SameRule}
use order_orchestrator.Saga.Compensation.{undone}
use order_orchestrator.Saga.Parts.{
  saga_payload, payment_text, inventory_text, shipment_text, note-Part, first-Part, second-Part,
  third-Part,
}
use order_orchestrator.Saga.Pieces.{Part, then-Part, Ended, succeeded, stopped}
use order_orchestrator.Saga.Outcome.{catch-Part, SagaEnd}

payment-ne-inventory : inventory_key ≢ payment_key
payment-ne-inventory = ground (arith, eq_iff inventory_key payment_key)

payment-ne-shipment : shipment_key ≢ payment_key
payment-ne-shipment = ground (arith, eq_iff shipment_key payment_key)

inventory-ne-shipment : shipment_key ≢ inventory_key
inventory-ne-shipment = ground (arith, eq_iff shipment_key inventory_key)

-- The rows once the payment is authorized, the order paid and the reservation confirmed.
abbrev paid_rows : ℕ → Aggregate → Aggregate
paid_rows t a = moved OrderStatus.paid t (authorized a t)

abbrev confirmed_rows : ℕ → Aggregate → Aggregate
confirmed_rows t a = confirmed (paid_rows t a) t

pending-paid : assert_transition OrderStatus.pending OrderStatus.paid ≡ ok tt
unfolding assert_transition
pending-paid = refl

paid-shipped : assert_transition OrderStatus.paid OrderStatus.shipped ≡ ok tt
unfolding assert_transition
paid-shipped = refl

module _ {P : Platform} (lawful : IsPlatform P) (id actor : String) (w : World P)
    (a : Aggregate) where
  abbrev EndsWell : Attempt P → Type 0
  EndsWell x = let (r, w') = end_saga P id actor x in SagaEnd id actor w a r w'

  end_third :
      (v : World P) (t : ℕ) (r : Result (Unit {0})) (x : World P)
      → Part id w v
          (confirmed_rows t a)
          (entry id actor "SAGA_STARTED"
            ∷ entry id actor "PAYMENT_AUTHORIZED"
            ∷ entry id actor "ORDER_MARKED_PAID"
            ∷ entry id actor "INVENTORY_CONFIRMED"
            ∷ [])
          (saga_payload id a.order.status OrderStatus.paid ∷ [])
          (succeeded "payment_authorize" ∷ succeeded "inventory_confirm" ∷ [])
      → SameRule shipment_key w v
      → Ended shipment_key shipment_text v
          (λ y.
            (s u : ℕ) × Part id v y
              (moved OrderStatus.shipped u (requested id (confirmed_rows t a) s))
              (entry id actor "SHIPMENT_REQUESTED" ∷ entry id actor "SAGA_COMPLETED" ∷ [])
              (saga_payload id OrderStatus.paid OrderStatus.shipped ∷ [])
              (succeeded "shipment_request" ∷ Metric.saga_total "success" ∷ []))
          (λ y. Part id v y (confirmed_rows t a) [] [] (stopped "shipment_request" ∷ []))
          r
          x
      → EndsWell (
          attempt P
            (context_of true true)
            (r, x)
            (λ y. record { result = ok tt; context = context_of true true; world = y }))
  unfolding end_saga
  end_third v t r x before same (Ended.passed ended (s, u, p) others) =
      rw ended (SagaEnd.completed t s refl (then-Part id w v x _ _ _ _ _ _ _ _ before p))
  end_third v t r x before same (Ended.injected armed ended p others) =
      let b = confirmed_rows t a in
      let (c, y, runs, q) =
        catch-Part lawful id actor x b p.moves.holds (context_of true true)
          (Exception.error shipment_text) in
      rw ended (
        rw runs (
          SagaEnd.shipment_failed c (λ e. armed (same ∙ e)) refl
            (then-Part id w x y b (undone true c b) _ _ _ _ _ _
              (then-Part id w v x b b _ [] _ [] _ _ before p) q)))

  end_second :
      (v : World P) (t : ℕ) (r : Result (Unit {0})) (x : World P)
      → a.order.status ≡ OrderStatus.pending
      → Part id w v
          (authorized a t)
          (entry id actor "SAGA_STARTED" ∷ entry id actor "PAYMENT_AUTHORIZED" ∷ [])
          []
          (succeeded "payment_authorize" ∷ [])
      → SameRule inventory_key w v
      → SameRule shipment_key w v
      → Ended inventory_key inventory_text v
          (λ y.
            (s : ℕ) × Part id v y
              (confirmed (moved OrderStatus.paid s (authorized a t)) s)
              (entry id actor "ORDER_MARKED_PAID" ∷ entry id actor "INVENTORY_CONFIRMED" ∷ [])
              (saga_payload id a.order.status OrderStatus.paid ∷ [])
              (succeeded "inventory_confirm" ∷ []))
          (λ y.
            (s : ℕ) × Part id v y
              (moved OrderStatus.paid s (authorized a t))
              (entry id actor "ORDER_MARKED_PAID" ∷ [])
              (saga_payload id a.order.status OrderStatus.paid ∷ [])
              (stopped "inventory_confirm" ∷ []))
          r
          x
      → EndsWell (
          attempt P
            (context_of true false)
            (r, x)
            (λ y.
              attempt P
                (context_of true true)
                (ship_order P id actor y)
                (λ z. record { result = ok tt; context = context_of true true; world = z })))
  unfolding end_saga
  end_second v t r x pending before same same' (Ended.passed ended (s, p) others) =
      let b = confirmed_rows s a in
      rw ended (
        end_third x s _ _ (then-Part id w v x (authorized a t) b _ _ [] _ _ _ before p)
          (others shipment_key inventory-ne-shipment ∙ same')
          (third-Part lawful id actor x b p.moves.holds paid-shipped))
  end_second v t r x pending before same same' (Ended.injected armed ended (s, p) others) =
      let b = paid_rows s a in
      let q = then-Part id w v x (authorized a t) b _ _ [] _ _ _ before p in
      let (c, y, runs, u) =
        catch-Part lawful id actor x b p.moves.holds (context_of true false)
          (Exception.error inventory_text) in
      rw ended (
        rw runs (
          SagaEnd.inventory_failed c (λ e. armed (same ∙ e)) refl
            (then-Part id w x y b (undone false c b) _ _ _ _ _ _ q u)))

  end_first :
      (v : World P) (r : Result (Unit {0})) (x : World P)
      → a.order.status ≡ OrderStatus.pending
      → Part id w v a (entry id actor "SAGA_STARTED" ∷ []) [] []
      → v.rules ≡ w.rules
      → Ended payment_key payment_text v
          (λ y.
            (t : ℕ) × Part id v y
              (authorized a t)
              (entry id actor "PAYMENT_AUTHORIZED" ∷ [])
              []
              (succeeded "payment_authorize" ∷ []))
          (λ y. Part id v y a [] [] (stopped "payment_authorize" ∷ []))
          r
          x
      → EndsWell (
          attempt P
            (context_of false false)
            (r, x)
            (λ w₁. attempt P (context_of true false) (confirm_order P id actor w₁) (λ w₂.
              attempt P
                (context_of true true)
                (ship_order P id actor w₂)
                (λ w₃. record { result = ok tt; context = context_of true true; world = w₃ }))))
  unfolding end_saga
  end_first v r x pending before same (Ended.passed ended (t, p) others) =
      let b = authorized a t in
      let same_of : (j : String) → j ≢ payment_key → SameRule j w x =
        λ j ne. others j ne ∙ ap (RuleMap.get j) same in
      let allowed : assert_transition a.order.status OrderStatus.paid ≡ ok tt =
        subst (λ s. assert_transition s OrderStatus.paid ≡ ok tt) (sym pending) pending-paid in
      rw ended (
        end_second x t _ _ pending (then-Part id w v x a b _ _ [] [] [] _ before p)
          (same_of inventory_key payment-ne-inventory) (same_of shipment_key payment-ne-shipment)
          (second-Part lawful id actor x b p.moves.holds allowed))
  end_first v r x pending before same (Ended.injected armed ended p others) =
      let q = then-Part id w v x a a _ [] [] [] [] _ before p in
      let (c, y, runs, u) =
        catch-Part lawful id actor x a p.moves.holds (context_of false false)
          (Exception.error payment_text) in
      rw ended (
        rw runs (
          SagaEnd.payment_failed c (λ e. armed (ap (RuleMap.get payment_key) same ∙ e)) refl
            (then-Part id w x y a (undone false c a) _ _ [] _ _ _ q u)))

  -- On a pending order that has all its rows, `executeSaga` either completes, with the order shipped,
  -- the payment authorized and the reservation confirmed, or it throws the error of a step that has
  -- a failure rule, with the order failed, the payment cancelled, and the reservation released if it
  -- had been confirmed; the audit entries, events and counters are those of that end.
  pub execute_saga-SagaEnd :
      Holds id w a
      → a.order.status ≡ OrderStatus.pending
      → let (r, w') = execute_saga P id actor w in SagaEnd id actor w a r w'
  unfolding execute_saga saga_body
  execute_saga-SagaEnd h pending =
      let v = logged_by id actor "SAGA_STARTED" w in
      let p = note-Part lawful id actor w a h "SAGA_STARTED" in
      rw (log_run lawful id "SAGA_STARTED" actor none none w)
        (end_first v _ _ pending p refl (first-Part lawful id actor v a p.moves.holds))
