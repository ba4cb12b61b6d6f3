-- ===== src/Saga/Reprocess.antt =====
-- `reprocessFailedOrder`: a failed order is put back to its start and goes through the saga again.
use order_orchestrator.Base.{ℕ, String, none, some, [], ◌∷◌, ◌≡◌, ◌≢◌, refl, sym, ap, ◌∙◌}
use order_orchestrator.Entities.{Order, OrderStatus, OrderStatus-discrete}
use order_orchestrator.Platform.{Platform}
use order_orchestrator.Platform.Laws.{IsPlatform}
use order_orchestrator.Exceptions.{Exception, Result, ok, err}
use order_orchestrator.World.{World, continue}
use order_orchestrator.World.Reads.{order_of}
use order_orchestrator.FailureInjection.RuleMap
use order_orchestrator.Aggregates.{Aggregate, Holds, Moves}
use order_orchestrator.Orders.Status.{find_by_id}
use order_orchestrator.Orders.Status.Laws.{find_by_id_run}
use order_orchestrator.Saga.{
  not_failed, reprocess_failed_order, payment_key, inventory_key, shipment_key,
}
use order_orchestrator.Saga.Outcome.{fulfilled, SagaEnd}
use order_orchestrator.Saga.Contract.{execute_saga-SagaEnd}
use order_orchestrator.Saga.Handlers.{completes_unarmed}
use order_orchestrator.Saga.Reset.{
  reset, requested_entry, reset_entry, restarted, restarted-Moves, restarts, refuses,
}

-- What the caller gets from the end of the saga: the order as it is now, or the saga's error.
pub data Answers {P : Platform} (id : String) (w' : World P) (q : Result (Unit {0}))
    (r : Result Order) : Type 0 where
  returned : (o : Order) → q ≡ ok tt → order_of w' id ≡ some o → r ≡ ok o → Answers id w' q r
  thrown : (e : Exception) → q ≡ err e → r ≡ err e → Answers id w' q r

-- How the reprocessing of an order that has all its rows ends.
pub data Reprocesses {P : Platform} (id actor : String) (w : World P) (a : Aggregate)
    (r : Result Order) (w' : World P) : Type 0 where
  refused :
      a.order.status ≢ OrderStatus.failed
      → r ≡ err (not_failed a.order.status)
      → w' ≡ w
      → Reprocesses id actor w a r w'
  replayed :
      (v : World P) (q : Result (Unit {0}))
      → a.order.status ≡ OrderStatus.failed
      → Moves id w v (reset a) (requested_entry id actor ∷ reset_entry id actor ∷ []) []
      → v.rules ≡ w.rules
      → SagaEnd id actor v (reset a) q w'
      → Answers id w' q r
      → Reprocesses id actor w a r w'

module _ {P : Platform} (lawful : IsPlatform P) (id actor : String) (w : World P) where
  -- The `findById` behind the saga.
  answers :
      (a : Aggregate) (q : Result (Unit {0})) (x : World P)
      → SagaEnd id actor w a q x
      → let (r, w') = continue (q, x) (λ _. find_by_id P id) in (w' ≡ x) × Answers id x q r
  answers a q x (SagaEnd.completed t s e p) =
      let o = (fulfilled id t s a).order in
      rw e (
        rw (find_by_id_run lawful id x o p.moves.holds.order_found)
          (refl, Answers.returned o refl p.moves.holds.order_found refl))
  answers a q x (SagaEnd.payment_failed t armed e p) = rw e (refl, Answers.thrown _ refl refl)
  answers a q x (SagaEnd.inventory_failed t armed e p) = rw e (refl, Answers.thrown _ refl refl)
  answers a q x (SagaEnd.shipment_failed t armed e p) = rw e (refl, Answers.thrown _ refl refl)

module _ {P : Platform} (lawful : IsPlatform P) (id actor : String) (w : World P) (a : Aggregate)
    (h : Holds id w a) where
  -- `reprocessFailedOrder` on an order that has all its rows: unless the order has failed, it
  -- throws and changes nothing; a failed order has its four rows reset and the two entries logged,
  -- the saga then runs from there to one of its ends, and the caller gets the order as it is then,
  -- or the error of the saga.
  pub reprocess_failed_order-Reprocesses :
      let (r, w') = reprocess_failed_order P id actor w in Reprocesses id actor w a r w'
  reprocess_failed_order-Reprocesses =
      elim (OrderStatus-discrete a.order.status OrderStatus.failed) [
        | yes failed ↦
            let v = restarted lawful id actor w a h in
            let m = restarted-Moves lawful id actor w a h in
            let end = execute_saga-SagaEnd lawful id actor v (reset a) m.holds refl in
            let (same, answer) = answers lawful id actor v (reset a) _ _ end in
            rw (restarts lawful id actor w a h failed)
              (rw same (Reprocesses.replayed v _ failed m refl end answer))
        | no ne ↦ rw (refuses lawful id actor w a h ne) (Reprocesses.refused ne refl refl)
      ]

module _ {P : Platform} (id actor : String) (w : World P) (a : Aggregate)
    (no_payment : RuleMap.get payment_key w.rules ≡ none)
    (no_inventory : RuleMap.get inventory_key w.rules ≡ none)
    (no_shipment : RuleMap.get shipment_key w.rules ≡ none) where
  abbrev Recovers : Result Order → World P → Type 0
  Recovers r w' =
      (t s : ℕ) × (r ≡ ok (fulfilled id t s (reset a)).order)
      × Holds id w' (fulfilled id t s (reset a))

  answer-Recovers :
      (q : Result (Unit {0})) (r : Result Order) (x : World P)
      → (q ≡ ok tt) × ((t s : ℕ) × Holds id x (fulfilled id t s (reset a)))
      → Answers id x q r
      → Recovers r x
  answer-Recovers q r x (e, (t, s, h)) (Answers.returned o e' found ret) =
      (t, s, rw ret (cc (sym found ∙ h.order_found)), h)
  answer-Recovers q r x (e, (t, s, h)) (Answers.thrown failure e' ret) = cc (sym e ∙ e')

  Reprocesses-Recovers :
      (r : Result Order) (w' : World P)
      → a.order.status ≡ OrderStatus.failed
      → Reprocesses id actor w a r w'
      → Recovers r w'
  Reprocesses-Recovers r w' failed (Reprocesses.refused ne e same) = absurd (ne failed)
  Reprocesses-Recovers r w' failed (Reprocesses.replayed v q e m rules end answer) =
      answer-Recovers q r w'
        (completes_unarmed id actor v (reset a) q w'
          (ap (RuleMap.get payment_key) rules ∙ no_payment)
          (ap (RuleMap.get inventory_key) rules ∙ no_inventory)
          (ap (RuleMap.get shipment_key) rules ∙ no_shipment) end)
        answer

module _ {P : Platform} (lawful : IsPlatform P) (id actor : String) (w : World P)
    (a : Aggregate) where
  -- `reprocessFailedOrder` on a failed order that has all its rows, with no failure rule for any
  -- step of the saga, returns the order as shipped, and its rows are those of a fulfilled order.
  pub reprocess_failed_order-recovers :
      Holds id w a
      → a.order.status ≡ OrderStatus.failed
      → RuleMap.get payment_key w.rules ≡ none
      → RuleMap.get inventory_key w.rules ≡ none
      → RuleMap.get shipment_key w.rules ≡ none
      → let (r, w') = reprocess_failed_order P id actor w in
        (t s : ℕ) × (r ≡ ok (fulfilled id t s (reset a)).order)
        × Holds id w' (fulfilled id t s (reset a))
  reprocess_failed_order-recovers h failed no_payment no_inventory no_shipment =
      Reprocesses-Recovers id actor w a no_payment no_inventory no_shipment _ _ failed
        (reprocess_failed_order-Reprocesses lawful id actor w a h)
