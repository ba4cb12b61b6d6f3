-- ===== src/Outbox/Skipped.antt =====
-- `processSingleEvent` on an event that cannot be claimed, and on any event: it always returns.
use order_orchestrator.Base.{
  ◌+◌, String, Option, none, some, [], ◌≡◌, refl, ap, ◌∙◌, true, false, ◌==◌, leb, length, inl, inr,
  Bool-cases,
}
use order_orchestrator.Entities.{OutboxEvent, OutboxEventStatus, event_status_eq}
use order_orchestrator.Platform.{Platform}
use order_orchestrator.Platform.Laws.{IsPlatform}
use order_orchestrator.Exceptions.{Exception, message, Result, ok, err}
use order_orchestrator.World.{World, Processor}
use order_orchestrator.World.Reads.{events, event_of, dead_letters}
use order_orchestrator.World.QueueLaws.{find_event_run, update_events_run}
use order_orchestrator.Consumer.{consume}
use order_orchestrator.Outbox.{
  is_claimable, claimed, fail_event, process_found, process_single_event,
}
use order_orchestrator.Outbox.ConsumeFrame.{Framed-consume}
use order_orchestrator.Outbox.Claim.{claimable, claim_nothing, claimable-claim}
use order_orchestrator.Outbox.Delivery.{claim_event}
use order_orchestrator.Outbox.Runs.{
  retry_event_run, bury_event_run, publish_event_run, publish_event_fails,
}

-- The call has returned one of the three statuses that the dispatch counts.
pub record Settles {P : Platform} (before : Processor) (r : Result OutboxEventStatus) (w' : World P)
    : Type 0 where
  pub status : OutboxEventStatus
  pub returned : r ≡ ok status
  pub decided : event_status_eq status OutboxEventStatus.processing ≡ false
  pub processor_kept : w'.processor ≡ before

module _ {P : Platform} (lawful : IsPlatform P) where
  fail_event-Settles :
      (e : OutboxEvent) (x : Exception) (w : World P)
      → let (r, w') = fail_event P e x w in Settles w.processor r w'
  unfolding fail_event
  fail_event-Settles e x w = elim (Bool-cases (leb e.max_retries (e.retry_count + 1))) [
    | inl spent ↦
        rw (spent, bury_event_run lawful e (e.retry_count + 1) (message x) w)
          (record {
            status = OutboxEventStatus.dead_letter;
            returned = refl;
            decided = refl;
            processor_kept = refl;
          })
    | inr left ↦
        rw (left, retry_event_run lawful e (e.retry_count + 1) (message x) w)
          (record {
            status = OutboxEventStatus.pending;
            returned = refl;
            decided = refl;
            processor_kept = refl;
          })
  ]

  consumed-Settles :
      (e : OutboxEvent) (w : World P) (r : Result (Unit {0})) (v : World P)
      → consume P e w ≡ (r, v)
      → v.processor ≡ w.processor
      → let (s, w') = process_found P (some e) w in Settles w.processor s w'
  consumed-Settles e w (ok u) v h kept = rw (publish_event_run lawful e w v h) (record {
    status = OutboxEventStatus.published;
    returned = refl;
    decided = refl;
    processor_kept = kept;
  })
  consumed-Settles e w (err x) v h kept =
      let s = fail_event-Settles e x v in
      rw (publish_event_fails lawful e w v x h) (record {
        status = s.status;
        returned = s.returned;
        decided = s.decided;
        processor_kept = s.processor_kept ∙ kept;
      })

  process_found-Settles :
      (o : Option OutboxEvent) (w : World P)
      → let (r, w') = process_found P o w in Settles w.processor r w'
  process_found-Settles none w = record {
    status = OutboxEventStatus.pending;
    returned = refl;
    decided = refl;
    processor_kept = refl;
  }
  process_found-Settles (some e) w =
      let (r, v) = consume P e w in
      consumed-Settles e w r v refl ((Framed-consume lawful e).frame w).processor_kept

  skips :
      (id : String) (w : World P)
      → (length (claimable id (events w)) == 0) ≡ true
      → process_single_event P id w ≡ (ok OutboxEventStatus.pending, claim_event id w)
  unfolding process_single_event
  skips id w h = rw (update_events_run lawful w (is_claimable id) claimed, h) refl

  starts :
      (id : String) (w : World P)
      → (length (claimable id (events w)) == 0) ≡ false
      → process_single_event P id w
        ≡ process_found P (event_of (claim_event id w) id) (claim_event id w)
  unfolding process_single_event
  starts id w h =
      rw
        (
          update_events_run lawful w (is_claimable id) claimed,
          h,
          find_event_run lawful (claim_event id w) id,
        )
        refl

  -- `processSingleEvent` never throws, whatever the consumer has thrown.
  pub process_single_event-Settles :
      (id : String) (w : World P)
      → let (r, w') = process_single_event P id w in Settles w.processor r w'
  process_single_event-Settles id w = elim (Bool-cases (length (claimable id (events w)) == 0)) [
    | inl nothing ↦ rw (skips id w nothing) (record {
      status = OutboxEventStatus.pending;
      returned = refl;
      decided = refl;
      processor_kept = refl;
    })
    | inr some_row ↦
        rw (starts id w some_row)
          (process_found-Settles (event_of (claim_event id w) id) (claim_event id w))
  ]

  -- `processSingleEvent` on an event that no row holds as `PENDING` answers `PENDING` and writes
  -- nothing: the outbox and the dead letters are as they were.
  pub process_single_event-skips :
      (id : String) (w : World P)
      → claimable id (events w) ≡ []
      → let (r, w') = process_single_event P id w in
        (r ≡ ok OutboxEventStatus.pending)
        × (events w' ≡ events w)
        × (dead_letters w' ≡ dead_letters w)
        × (w'.metrics ≡ w.metrics)
  process_single_event-skips id w h =
      let nothing : (length (claimable id (events w)) == 0) ≡ true = rw h refl in
      rw (skips id w nothing) (
        refl,
        lawful.schema.outbox.table.rows-update_where w.db.outbox (is_claimable id) claimed
            ∙ claim_nothing id (events w) nothing,
        refl,
        refl,
      )

  -- In the state behind the claim of an event, as another process meets it, `processSingleEvent` for
  -- it answers `PENDING`, and the outbox, the dead letters and the counters are as they were.
  pub process_single_event-exclusive :
      (id : String) (w : World P)
      → let v = claim_event id w in
        let (r, w') = process_single_event P id v in
        (r ≡ ok OutboxEventStatus.pending)
        × (events w' ≡ events v)
        × (dead_letters w' ≡ dead_letters v)
        × (w'.metrics ≡ v.metrics)
  process_single_event-exclusive id w = process_single_event-skips id (claim_event id w) (
      ap (claimable id)
        (lawful.schema.outbox.table.rows-update_where w.db.outbox (is_claimable id) claimed)
      ∙ claimable-claim id (events w))
