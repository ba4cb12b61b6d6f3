-- ===== src/Outbox/Behind.antt =====
-- What an attempt writes behind the consumption: no row of an order, and no failure rule.
use order_orchestrator.Base.{
  ◌+◌, String, some, ◌≡◌, refl, ap, ◌∙◌, leb, Bool-cases, inl, inr, first, has_key,
}
use order_orchestrator.Entities.{OutboxEvent}
use order_orchestrator.Platform.{Platform}
use order_orchestrator.Platform.Laws.{IsPlatform}
use order_orchestrator.Exceptions.{Exception, message, Result, ok, err}
use order_orchestrator.World.{World}
use order_orchestrator.World.Reads.{event_of}
use order_orchestrator.Aggregates.{Aggregate, Holds, SameRows}
use order_orchestrator.Consumer.{consume}
use order_orchestrator.Outbox.{claimed, fail_event, process_found, process_single_event}
use order_orchestrator.Outbox.Claim.{IsPending}
use order_orchestrator.Outbox.Delivery.{claim_event, consumption}
use order_orchestrator.Outbox.Runs.{
  retry_event_run, bury_event_run, publish_event_run, publish_event_fails,
}
use order_orchestrator.Outbox.Attempt.{claim_event-starts}

-- The write of an event's new row changes no row of an order and no rule.
pub record Behind {P : Platform} (v w' : World P) : Type 0 where
  pub same_rows : (j : String) → SameRows j v w'
  pub same_rules : w'.rules ≡ v.rules

pub Holds-SameRows :
    {P : Platform} (id : String) (v w : World P) (a : Aggregate)
    → SameRows id v w
    → Holds id v a
    → Holds id w a
Holds-SameRows id v w a s h = record {
  order_found = s.same_order ∙ h.order_found;
  payment_found = s.same_payment ∙ h.payment_found;
  reservation_found = s.same_reservation ∙ h.reservation_found;
  shipment_found = s.same_shipment ∙ h.shipment_found;
}

module _ {P : Platform} where
  same_tables-Behind :
      (v w : World P)
      → w.db.orders ≡ v.db.orders
      → w.db.payments ≡ v.db.payments
      → w.db.reservations ≡ v.db.reservations
      → w.db.shipments ≡ v.db.shipments
      → w.rules ≡ v.rules
      → Behind v w
  same_tables-Behind v w o p r s rules = record {
    same_rows = λ j. record {
      same_order = ap (λ t. first (has_key (λ x. x.id) j) (P.schema.orders.rows t)) o;
      same_payment = ap (λ t. first (has_key (λ x. x.order_id) j) (P.schema.payments.rows t)) p;
      same_reservation =
          ap (λ t. first (has_key (λ x. x.order_id) j) (P.schema.reservations.rows t)) r;
      same_shipment = ap (λ t. first (has_key (λ x. x.order_id) j) (P.schema.shipments.rows t)) s;
    };
    same_rules = rules;
  }

  pub claim_event-Holds :
      (id j : String) (w : World P) (a : Aggregate) → Holds j w a → Holds j (claim_event id w) a
  claim_event-Holds id j w a h =
      Holds-SameRows j w (claim_event id w) a
        ((same_tables-Behind w (claim_event id w) refl refl refl refl refl).same_rows j) h

module _ {P : Platform} (lawful : IsPlatform P) where
  fail_event-Behind :
      (e : OutboxEvent) (x : Exception) (v : World P) → Behind v (fail_event P e x v).1
  unfolding fail_event
  fail_event-Behind e x v = elim (Bool-cases (leb e.max_retries (e.retry_count + 1))) [
    | inl spent ↦
        rw (spent, bury_event_run lawful e (e.retry_count + 1) (message x) v)
          (same_tables-Behind v _ refl refl refl refl refl)
    | inr left ↦
        rw (left, retry_event_run lawful e (e.retry_count + 1) (message x) v)
          (same_tables-Behind v _ refl refl refl refl refl)
  ]

  consumed-Behind :
      (e : OutboxEvent) (w : World P) (r : Result (Unit {0})) (v : World P)
      → consume P e w ≡ (r, v)
      → Behind v (process_found P (some e) w).1
  consumed-Behind e w (ok u) v h =
      rw (publish_event_run lawful e w v h) (same_tables-Behind v _ refl refl refl refl refl)
  consumed-Behind e w (err x) v h =
      rw (publish_event_fails lawful e w v x h) (fail_event-Behind e x v)

  pub process_single_event-Behind :
      (id : String) (e : OutboxEvent) (w : World P)
      → event_of w id ≡ some e
      → IsPending e
      → Behind (consumption id e w).1 (process_single_event P id w).1
  process_single_event-Behind id e w found pending =
      let (r, v) = consumption id e w in
      rw (claim_event-starts lawful id e w found pending)
        (consumed-Behind (claimed e) (claim_event id w) r v refl)
