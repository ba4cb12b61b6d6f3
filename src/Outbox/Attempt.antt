-- ===== src/Outbox/Attempt.antt =====
-- `processSingleEvent` on a pending event.

use order_orchestrator.Base.{
  ℕ, ◌+◌, String, some, [], ◌≡◌, refl, sym, subst, ap, leb, leb→le, arith, first_key, inl, inr,
  Bool-cases,
}
use order_orchestrator.Entities.{OutboxEvent}
use order_orchestrator.Platform.{Platform}
use order_orchestrator.Platform.Laws.{IsPlatform}
use order_orchestrator.Exceptions.{Exception, message, Result, ok, err}
use order_orchestrator.World.{World}
use order_orchestrator.World.Reads.{events, event_of}
use order_orchestrator.World.Writes.{tick}
use order_orchestrator.World.QueueLaws.{put_event, find_event_run, update_events_run}
use order_orchestrator.Consumer.{consume}
use order_orchestrator.Outbox.{
  is_claimable, claimed, published_event, dead_event, retried_event, dead_letter_of_event, backoff,
  fail_event, process_found, process_single_event,
}
use order_orchestrator.Outbox.Frame.{Appends, Appends-same_db, Appends-trans}
use order_orchestrator.Outbox.ConsumeFrame.{Framed-consume}
use order_orchestrator.Outbox.Claim.{IsPending, claimable_found}
use order_orchestrator.Outbox.Delivery.{
  claim_event, Leaves, AttemptEnd, consumption, time_behind, letter_fresh, event_of-claim_self,
  written-Leaves, buried-Leaves,
}
use order_orchestrator.Outbox.Runs.{
  retry_event_run, bury_event_run, publish_event_run, publish_event_fails,
}

module _ {P : Platform} (lawful : IsPlatform P) (id : String) (e : OutboxEvent) (w : World P)
    (found : event_of w id ≡ some e) (pending : IsPending e) where
  abbrev here : e.id ≡ id
  here = first_key (λ x. x.id) id (events w) found

  continues :
      (v : World P)
      → (consume P (claimed e) (claim_event id w)).1 ≡ v
      → Appends (claim_event id w) v
  continues v h =
      subst (λ u. Appends (claim_event id w) u) h
        ((Framed-consume lawful (claimed e)).frame (claim_event id w))

  ticked : (v : World P) → Appends (claim_event id w) v → Appends (claim_event id w) (tick v)
  ticked v h = Appends-trans _ v (tick v) h (Appends-same_db v (tick v) refl refl (λ j h. h))

  pub claim_event-starts :
      process_single_event P id w ≡ process_found P (some (claimed e)) (claim_event id w)
  unfolding process_single_event
  claim_event-starts =
      let v = claim_event id w in
      rw
        (
          update_events_run lawful w (is_claimable id) claimed,
          claimable_found id (events w) e found pending,
          find_event_run lawful v id,
          event_of-claim_self lawful w e id found pending,
        )
        refl

  -- The row written behind a consumption that ended in `v`.
  row-Leaves :
      (r : Result (Unit {0})) (v : World P) (row : OutboxEvent)
      → consumption id e w ≡ (r, v)
      → row.id ≡ id
      → Leaves id w (put_event v row) row []
  row-Leaves r v row h same =
      written-Leaves lawful id w v e row found pending here same (continues v (ap (λ z. z.1) h))

  ticked-Leaves :
      (r : Result (Unit {0})) (v : World P) (row : OutboxEvent)
      → consumption id e w ≡ (r, v)
      → row.id ≡ id
      → Leaves id w (put_event (tick v) row) row []
  ticked-Leaves r v row h same =
      written-Leaves lawful id w (tick v) e row found pending here same
        (ticked v (continues v (ap (λ z. z.1) h)))

  abbrev clock_of : World P → ℕ
  clock_of v = P.now v.host.clock_reads

  failed-AttemptEnd :
      (x : Exception) (v : World P)
      → consumption id e w ≡ (err x, v)
      → let (r, w') = fail_event P (claimed e) x v in AttemptEnd id e w r w'
  unfolding fail_event
  failed-AttemptEnd x v h =
      let c = claimed e in
      let n = e.retry_count + 1 in
      let text = message x in
      let failed = ap (λ z. z.0) h in
      elim (Bool-cases (leb e.max_retries n)) [
        | inl spent ↦
            let row = dead_event e n text in
            let left = row-Leaves (err x) v row h here in
            rw (spent, bury_event_run lawful c n text v)
              (AttemptEnd.buried x _ _ failed (leb→le e.max_retries n spent)
                (letter_fresh lawful id w (put_event v row) row left) refl
                (buried-Leaves lawful id w (put_event v row) row (dead_letter_of_event e n text)
                  left))
        | inr left ↦
            let row = retried_event e n text (time_behind id e w + backoff P.retry_base_ms n) in
            rw (left, retry_event_run lawful c n text v, sym (ap (λ z. clock_of z.1) h))
              (AttemptEnd.retried x failed (ground arith) refl (ticked-Leaves (err x) v row h here))
      ]

  settles :
      (r : Result (Unit {0})) (v : World P)
      → consumption id e w ≡ (r, v)
      → let (s, w') = process_found P (some (claimed e)) (claim_event id w) in
        AttemptEnd id e w s w'
  settles (ok u) v h =
      rw
        (
          publish_event_run lawful (claimed e) (claim_event id w) v h,
          sym (ap (λ z. clock_of z.1) h),
        )
        (AttemptEnd.published (ap (λ z. z.0) h) refl
          (ticked-Leaves (ok tt) v (published_event e (time_behind id e w)) h here))
  settles (err x) v h =
      rw (publish_event_fails lawful (claimed e) (claim_event id w) v x h) (failed-AttemptEnd x v h)

  -- `processSingleEvent` on a pending event returns. If the consumer has taken the claimed event,
  -- the event is `PUBLISHED`; if it has thrown and another attempt is left, the event is `PENDING`
  -- again with one more in `retryCount`, the error, and the retry at the time behind the failure plus
  -- the base delay doubled for each earlier failure; otherwise it is in `DEAD_LETTER` and a dead
  -- letter with its data and the error is added, under an id that no dead letter had. Nothing else changes in the dead letters, and no
  -- event that was there.
  pub process_single_event-AttemptEnd :
      let (r, w') = process_single_event P id w in AttemptEnd id e w r w'
  process_single_event-AttemptEnd =
      let (r, v) = consumption id e w in rw claim_event-starts (settles r v refl)
