-- ===== src/Consumer/Contract.antt =====
-- What `consume` does with an event, by its type and by the failure rule for it.
use order_orchestrator.Base.{
  String, ◌≡◌, ◌≢◌, refl, ap, subst, inl, inr, Bool-cases, str_eq, eq_iff, arith,
}
use order_orchestrator.Platform.{Platform}
use order_orchestrator.Entities.{OutboxEvent, created_event, status_changed_event}
use order_orchestrator.Exceptions.{Exception, Result, ok, err}
use order_orchestrator.World.{World}
use order_orchestrator.FailureInjection.{throw_if_configured}
use order_orchestrator.FailureInjection.RuleMap
use order_orchestrator.FailureInjection.Laws.{
  throw_if_configured-cases, throw_if_configured-other, throw_if_configured-processor,
}
use order_orchestrator.FailureInjection.Calls.{Firing, throw_if_configured-Firing}
use order_orchestrator.Saga.{handle_order_created}
use order_orchestrator.Consumer.{event_key, injected_text, unsupported, handle_event, consume}

-- What the look-up of the failure rule for an event does: it writes nothing to the database and
-- the counters, it leaves the rules of other keys, and its answer and what is left of the rule go
-- by the rule and the clock.
pub record Looked {P : Platform} (event : OutboxEvent) (w : World P) (r : Result (Unit {0}))
    (w' : World P) : Type 0 where
  pub same_db : w'.db ≡ w.db
  pub same_metrics : w'.metrics ≡ w.metrics
  pub same_processor : w'.processor ≡ w.processor
  pub same_rules :
      (j : String) → j ≢ event_key event → RuleMap.get j w'.rules ≡ RuleMap.get j w.rules
  pub by_rule :
      Firing
        (P.now w.host.clock_reads)
        (injected_text event)
        (RuleMap.get (event_key event) w.rules)
        r
        (RuleMap.get (event_key event) w'.rules)

-- How the consumption of an event ends: if its rule fires with that error, and if none does by the
-- type of the event.
pub data ConsumeEnd {P : Platform} (event : OutboxEvent) (w : World P) (r : Result (Unit {0}))
    (w' : World P) : Type 0 where
  injected :
      Looked event w (err (Exception.error (injected_text event))) w'
      → r ≡ err (Exception.error (injected_text event))
      → ConsumeEnd event w r w'
  started :
      (v : World P)
      → Looked event w (ok tt) v
      → event.event_type ≡ created_event
      → r ≡ (handle_order_created P event.aggregate_id v).0
      → w' ≡ (handle_order_created P event.aggregate_id v).1
      → ConsumeEnd event w r w'
  ignored :
      Looked event w (ok tt) w'
      → event.event_type ≡ status_changed_event
      → r ≡ ok tt
      → ConsumeEnd event w r w'
  refused :
      Looked event w (ok tt) w'
      → event.event_type ≢ created_event
      → event.event_type ≢ status_changed_event
      → r ≡ err (unsupported event)
      → ConsumeEnd event w r w'

module _ {P : Platform} (event : OutboxEvent) (w : World P) where
  handled :
      (v : World P)
      → Looked event w (ok tt) v
      → let (r, w') = handle_event P event v in ConsumeEnd event w r w'
  handled v l = elim (Bool-cases (str_eq event.event_type created_event)) [
    | inl created ↦
        rw created
          (ConsumeEnd.started v l ((eq_iff event.event_type created_event).0 created) refl refl)
    | inr other ↦ rw other (elim (Bool-cases (str_eq event.event_type status_changed_event)) [
      | inl changed ↦
          rw changed
            (ConsumeEnd.ignored l ((eq_iff event.event_type status_changed_event).0 changed) refl)
      | inr neither ↦ rw neither (
          ConsumeEnd.refused l (ground (arith, eq_iff event.event_type created_event))
            (ground (arith, eq_iff event.event_type status_changed_event)) refl)
    ])
  ]

  looked :
      (r : Result (Unit {0})) (v : World P)
      → throw_if_configured P (event_key event) (injected_text event) w ≡ (r, v)
      → Looked event w r v
  looked r v runs =
      let key = event_key event in
      let text = injected_text event in
      let (same_db, same_metrics, ends) = throw_if_configured-cases key text w in
      subst (λ z. Looked event w z.0 z.1) runs
        (record {
          same_db = same_db;
          same_metrics = same_metrics;
          same_processor = throw_if_configured-processor key text w;
          same_rules = throw_if_configured-other key text w;
          by_rule = throw_if_configured-Firing key text w;
        })

  -- `consume` throws the injected error just if the failure rule for the type of the event fires:
  -- there is one, with a count above 0 and no expiry before the time that the clock shows.
  -- Otherwise it hands the order of a created event to the saga, takes a status change, and throws
  -- on every other type. The look-up of the rule writes nothing but the rule itself, which is left
  -- with one firing less, or is gone behind the last one or behind its expiry.
  pub consume-ConsumeEnd : let (r, w') = consume P event w in ConsumeEnd event w r w'
  unfolding consume
  consume-ConsumeEnd =
      let key = event_key event in
      let text = injected_text event in
      let v = (throw_if_configured P key text w).1 in
      let (same_db, same_metrics, ends) = throw_if_configured-cases key text w in
      elim ends [
        | inl passes ↦
            let whole : throw_if_configured P key text w ≡ (ok tt, v) = ap (λ r. (r, v)) passes in
            rw whole (handled v (looked (ok tt) v whole))
        | inr (throws, armed) ↦
            let whole : throw_if_configured P key text w ≡ (err (Exception.error text), v) =
              ap (λ r. (r, v)) throws in
            rw whole (ConsumeEnd.injected (looked (err (Exception.error text)) v whole) refl)
      ]
