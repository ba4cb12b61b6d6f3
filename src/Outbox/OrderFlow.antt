-- ===== src/Outbox/OrderFlow.antt =====
-- A new order from the request to its shipment: `create`, the outbox, the consumer and the saga.
use order_orchestrator.Base.{
  ℕ, String, Option, none, some, ◌≡◌, refl, ap, sym, subst, ◌∙◌, first, has_key, first-append_self,
}
use order_orchestrator.Entities.{OutboxEvent, event_row}
use order_orchestrator.Platform.{Platform}
use order_orchestrator.Platform.Laws.{IsPlatform}
use order_orchestrator.Exceptions.{ok}
use order_orchestrator.World.{World}
use order_orchestrator.World.Reads.{events, event_of}
use order_orchestrator.FailureInjection.RuleMap
use order_orchestrator.Aggregates.{Aggregate, Holds}
use order_orchestrator.Saga.{payment_key, inventory_key, shipment_key}
use order_orchestrator.Saga.Outcome.{fulfilled}
use order_orchestrator.Saga.Handlers.{starts, execute_saga-unarmed}
use order_orchestrator.Orders.Create.{CreateOrderDto, create}
use order_orchestrator.Orders.Create.Rows.{new_rows, new_event}
use order_orchestrator.Orders.Create.Contract.{
  first_id, IsFresh, create_run, stored_world, create_fresh,
}
use order_orchestrator.Consumer.{event_key}
use order_orchestrator.Outbox.{claimed, process_single_event}
use order_orchestrator.Outbox.Delivery.{claim_event, consumption}
use order_orchestrator.Outbox.Attempt.{process_single_event-AttemptEnd}
use order_orchestrator.Outbox.Behind.{
  Holds-SameRows, claim_event-Holds, process_single_event-Behind,
}
use order_orchestrator.Outbox.SagaDelivery.{PublishedAfter, consume_created, publishes}

-- No failure rule can stop the delivery of the event or a step of the saga.
pub record Unarmed {P : Platform} (e : OutboxEvent) (w : World P) : Type 0 where
  pub no_event : RuleMap.get (event_key e) w.rules ≡ none
  pub no_payment : RuleMap.get payment_key w.rules ≡ none
  pub no_inventory : RuleMap.get inventory_key w.rules ≡ none
  pub no_shipment : RuleMap.get shipment_key w.rules ≡ none

-- The id that the database gives to the next event.
abbrev pub next_event_id : {P : Platform} → World P → String
next_event_id {P} w = P.schema.outbox.generated_id w.db.outbox

-- What one attempt at an event leaves of it, and of the order that it announces.
pub record Ships {P : Platform} (event_id id : String) (a : Aggregate) (w : World P) : Type 0 where
  pub published : PublishedAfter event_id w (process_single_event P event_id w).1
  pub time_of_payment : ℕ
  pub time_of_shipment : ℕ
  pub fulfils :
      Holds id
        (process_single_event P event_id w).1
        (fulfilled id time_of_payment time_of_shipment a)

module _ {P : Platform} (lawful : IsPlatform P) (dto : CreateOrderDto) (key : Option String)
    (w : World P) where
  -- The row of the event that `create` writes.
  abbrev pub created_row : OutboxEvent
  created_row =
      event_row (next_event_id w) (P.schema.outbox.generated_at w.db.outbox)
        (new_event dto (first_id w))

  stored : IsFresh key (first_id w) w → (create P dto key w).1 ≡ stored_world lawful dto key w
  stored fresh = ap (λ z. z.1) (create_run lawful dto key w fresh)

  created_row-found : event_of (stored_world lawful dto key w) (next_event_id w) ≡ some created_row
  created_row-found =
      ap (first (has_key (λ e. e.id) (next_event_id w)))
        (lawful.schema.outbox.rows-insert w.db.outbox created_row)
      ∙ first-append_self (λ e. e.id) created_row (events w) (next_event_id w) refl
          (lawful.schema.outbox.generated_fresh w.db.outbox)

  stored_world-Holds :
      IsFresh key (first_id w) w
      → Holds (first_id w) (stored_world lawful dto key w) (new_rows dto key (first_id w))
  stored_world-Holds fresh =
      let (returned, moves) = create_fresh lawful dto key w fresh in
      subst (λ v. Holds (first_id w) v (new_rows dto key (first_id w))) (stored fresh) moves.holds

  -- The consumption of the event runs the saga, which completes.
  delivers :
      IsFresh key (first_id w) w
      → Unarmed created_row w
      → let (r, v) = consumption (next_event_id w) created_row (stored_world lawful dto key w) in
        (r ≡ ok tt)
        × ((t s : ℕ) × Holds
              (first_id w)
              v
              (fulfilled (first_id w) t s (new_rows dto key (first_id w))))
  delivers fresh unarmed =
      let id = first_id w in
      let rows = new_rows dto key id in
      let u = claim_event (next_event_id w) (stored_world lawful dto key w) in
      let h =
        claim_event-Holds (next_event_id w) id (stored_world lawful dto key w) rows
          (stored_world-Holds fresh) in
      rw
        (
          consume_created lawful (claimed created_row) u refl unarmed.no_event,
          starts lawful id u rows h refl,
        )
        (execute_saga-unarmed lawful id u rows "saga" h refl unarmed.no_payment unarmed.no_inventory
          unarmed.no_shipment)

  shipped :
      IsFresh key (first_id w) w
      → Unarmed created_row w
      → Ships
          (next_event_id w)
          (first_id w)
          (new_rows dto key (first_id w))
          (stored_world lawful dto key w)
  shipped fresh unarmed =
      let id = first_id w in
      let v = stored_world lawful dto key w in
      let (passes, (t, s, h)) = delivers fresh unarmed in
      let behind =
        process_single_event-Behind lawful (next_event_id w) created_row v created_row-found refl in
      record {
        published = publishes lawful (next_event_id w) created_row v _ _ passes (
            process_single_event-AttemptEnd lawful (next_event_id w) created_row v created_row-found
              refl);
        time_of_payment = t;
        time_of_shipment = s;
        fulfils =
            Holds-SameRows id _ _ (fulfilled id t s (new_rows dto key id)) (behind.same_rows id) h;
      }

  -- An order that `create` has stored, with an id and a key that nothing in the database has and
  -- with no failure rule in its way, is shipped by one `processSingleEvent` for the event that
  -- `create` has written: the event is `PUBLISHED`, no dead letter is written, and the rows of the
  -- order are those of a fulfilled order.
  pub create-Ships :
      IsFresh key (first_id w) w
      → Unarmed created_row w
      → Ships (next_event_id w) (first_id w) (new_rows dto key (first_id w)) (create P dto key w).1
  create-Ships fresh unarmed =
      subst (λ v. Ships (next_event_id w) (first_id w) (new_rows dto key (first_id w)) v)
        (sym (stored fresh)) (shipped fresh unarmed)
