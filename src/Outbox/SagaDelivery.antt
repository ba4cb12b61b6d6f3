-- ===== src/Outbox/SagaDelivery.antt =====
-- The delivery of `ORDER_CREATED`: the outbox, the consumer and the saga together.
use order_orchestrator.Base.{
  ℕ, suc, ◌+◌, ◌≤◌, ◌<◌, String, none, some, ◌≡◌, refl, sym, ap, ◌∙◌, arith, str_eq, eq_iff, true,
  false, subst,
}
use mathlib.Core.List.{append-nil}
use order_orchestrator.Entities.{
  OutboxEvent, OutboxEventStatus, created_event, OrderStatus, status_eq,
}
use order_orchestrator.Platform.{Platform}
use order_orchestrator.Platform.Laws.{IsPlatform}
use order_orchestrator.Exceptions.{message, Result, ok}
use order_orchestrator.World.{World}
use order_orchestrator.World.Reads.{event_of, dead_letters}
use order_orchestrator.FailureInjection.RuleMap
use order_orchestrator.FailureInjection.Laws.{pass_without_rule}
use order_orchestrator.Aggregates.{Aggregate, Holds}
use order_orchestrator.Saga.{handle_order_created}
use order_orchestrator.Saga.Handlers.{ignores, decides}
use order_orchestrator.Consumer.{event_key, injected_text, consume}
use order_orchestrator.Outbox.{claimed, retried_event, backoff, process_single_event}
use order_orchestrator.Outbox.ConsumeFrame.{Framed-consume}
use order_orchestrator.Outbox.Claim.{IsPending}
use order_orchestrator.Outbox.Delivery.{claim_event, consumption, time_behind, AttemptEnd}
use order_orchestrator.Outbox.Attempt.{process_single_event-AttemptEnd}
use order_orchestrator.Outbox.Retries.{attempts}
use order_orchestrator.Outbox.Behind.{
  Holds-SameRows, claim_event-Holds, process_single_event-Behind,
}

-- The event has been published, and no dead letter has been written.
pub record PublishedAfter {P : Platform} (id : String) (w w' : World P) : Type 0 where
  pub row : OutboxEvent
  pub row_left : event_of w' id ≡ some row
  pub published : row.status ≡ OutboxEventStatus.published
  pub letters_kept : dead_letters w' ≡ dead_letters w

module _ {P : Platform} (lawful : IsPlatform P) where
  -- The consumer hands the event to the saga.
  pub consume_created :
      (e : OutboxEvent) (w : World P)
      → e.event_type ≡ created_event
      → RuleMap.get (event_key e) w.rules ≡ none
      → consume P e w ≡ handle_order_created P e.aggregate_id w
  unfolding consume
  consume_created e w created unarmed =
      let is_created : str_eq e.event_type created_event ≡ true =
        (eq_iff e.event_type created_event).1 created in
      rw (pass_without_rule (event_key e) (injected_text e) w unarmed, is_created) refl

  -- The order that an attempt leaves: not pending, and with no rule that could stop the event.
  left_by :
      (id : String) (e : OutboxEvent) (w : World P) (a : Aggregate)
      → event_of w id ≡ some e
      → IsPending e
      → e.event_type ≡ created_event
      → RuleMap.get (event_key e) w.rules ≡ none
      → Holds e.aggregate_id w a
      → let w' = (process_single_event P id w).1 in
        (b : Aggregate) × Holds e.aggregate_id w' b
        × (status_eq b.order.status OrderStatus.pending ≡ false)
        × (RuleMap.get (event_key e) w'.rules ≡ none)
  left_by id e w a found pending created unarmed h =
      let u = claim_event id w in
      let behind = process_single_event-Behind lawful id e w found pending in
      let runs = consume_created (claimed e) u created unarmed in
      let in_claim = claim_event-Holds id e.aggregate_id w a h in
      let (b, hb, done) = decides lawful e.aggregate_id u a in_claim in
      let hv : Holds e.aggregate_id (consumption id e w).1 b = rw runs hb in
      (
        b,
        Holds-SameRows e.aggregate_id _ _ b (behind.same_rows e.aggregate_id) hv,
        done,
        ap (RuleMap.get (event_key e)) behind.same_rules
            ∙ ((Framed-consume lawful (claimed e)).frame u).no_new_rule (event_key e) unarmed,
      )

  -- An attempt at the event of an order that is not pending succeeds.
  delivers :
      (id : String) (e : OutboxEvent) (w : World P) (b : Aggregate)
      → e.event_type ≡ created_event
      → RuleMap.get (event_key e) w.rules ≡ none
      → Holds e.aggregate_id w b
      → status_eq b.order.status OrderStatus.pending ≡ false
      → (consumption id e w).0 ≡ ok tt
  delivers id e w b created unarmed h done =
      let u = claim_event id w in
      let in_claim = claim_event-Holds id e.aggregate_id w b h in
      rw
        (
          consume_created (claimed e) u created unarmed,
          ignores lawful e.aggregate_id u b in_claim done,
        )
        refl

  pub publishes :
      (id : String) (e : OutboxEvent) (w : World P) (r : Result OutboxEventStatus) (w' : World P)
      → (consumption id e w).0 ≡ ok tt
      → AttemptEnd id e w r w'
      → PublishedAfter id w w'
  publishes id e w r w' passes (AttemptEnd.published passed ended l) = record {
    row = _;
    row_left = l.row_left;
    published = refl;
    letters_kept = l.letters_left ∙ append-nil (dead_letters w);
  }
  publishes id e w r w' passes (AttemptEnd.retried x fails more ended l) =
      absurd (cc (sym passes ∙ fails))
  publishes id e w r w' passes (AttemptEnd.buried x letter t fails spent fresh ended l) =
      absurd (cc (sym passes ∙ fails))

  second_chance :
      (id : String) (e : OutboxEvent) (w : World P) (a : Aggregate)
      → event_of w id ≡ some e
      → IsPending e
      → e.event_type ≡ created_event
      → RuleMap.get (event_key e) w.rules ≡ none
      → Holds e.aggregate_id w a
      → e.retry_count + 1 < e.max_retries
      → (r : Result OutboxEventStatus) (w' : World P) → process_single_event P id w ≡ (r, w')
      → AttemptEnd id e w r w'
      → (k : ℕ) × (k ≤ 1) × PublishedAfter id w (attempts P id (suc k) w)
  second_chance id e w a found pending created unarmed h left r w' runs
        (AttemptEnd.published passes ended l) =
      (
        0,
        omega arith,
        subst (λ z. PublishedAfter id w z) (sym (ap (λ z. z.1) runs))
            (publishes id e w r w' passes (AttemptEnd.published passes ended l)),
      )
  second_chance id e w a found pending created unarmed h left r w' runs
        (AttemptEnd.retried x fails more ended l) =
      let f =
        retried_event e (e.retry_count + 1) (message x)
          (time_behind id e w + backoff P.retry_base_ms (e.retry_count + 1)) in
      let (b, hb, done, still) = left_by id e w a found pending created unarmed h in
      let same = ap (λ z. z.1) runs in
      let v = (process_single_event P id w).1 in
      let row : event_of v id ≡ some f = ap (λ z. event_of z id) same ∙ l.row_left in
      let second =
        publishes id f v _ _ (delivers id f v b created still hb done)
          (process_single_event-AttemptEnd lawful id f v row refl) in
      (
        1,
        omega arith,
        record {
          row = second.row;
          row_left = second.row_left;
          published = second.published;
          letters_kept =
              second.letters_kept
              ∙ ap (λ z. dead_letters z) same
              ∙ l.letters_left
              ∙ append-nil (dead_letters w);
        },
      )
  second_chance id e w a found pending created unarmed h left r w' runs
        (AttemptEnd.buried x letter t fails spent fresh ended l) =
      absurd (omega arith)

  -- A pending `ORDER_CREATED` event of an order that has all its rows, with another attempt left
  -- and no failure rule for its type, is `PUBLISHED` by the second attempt at the latest, and no
  -- dead letter is written, whether the saga of the order succeeds or fails.
  pub created_event-PublishedAfter :
      (id : String) (e : OutboxEvent) (w : World P) (a : Aggregate)
      → event_of w id ≡ some e
      → IsPending e
      → e.event_type ≡ created_event
      → RuleMap.get (event_key e) w.rules ≡ none
      → Holds e.aggregate_id w a
      → e.retry_count + 1 < e.max_retries
      → (k : ℕ) × (k ≤ 1) × PublishedAfter id w (attempts P id (suc k) w)
  created_event-PublishedAfter id e w a found pending created unarmed h left =
      let (r, w') = process_single_event P id w in
      second_chance id e w a found pending created unarmed h left r w' refl
        (process_single_event-AttemptEnd lawful id e w found pending)
