-- ===== src/Outbox/Runs.antt =====
-- What the parts of `processSingleEvent` answer, and the state that they leave.

use order_orchestrator.Base.{ℕ, ◌+◌, String, ◌≡◌, refl}
use order_orchestrator.Entities.{OutboxEvent, OutboxEventStatus}
use order_orchestrator.Platform.{Platform}
use order_orchestrator.Platform.Laws.{IsPlatform}
use order_orchestrator.Exceptions.{Exception, ok, err}
use order_orchestrator.World.{World}
use order_orchestrator.World.Writes.{tick}
use order_orchestrator.World.QueueLaws.{
  put_event, add_dead_letter, save_event_run, insert_dead_letter_run,
}
use order_orchestrator.Consumer.{consume}
use order_orchestrator.Outbox.{
  published_event, dead_event, retried_event, dead_letter_of_event, backoff,
  calculate_next_retry_at, bury_event, retry_event, publish_event,
}

module _ {P : Platform} (lawful : IsPlatform P) where
  pub calculate_next_retry_at_run :
      (n : ℕ) (w : World P)
      → calculate_next_retry_at P n w
        ≡ (ok (P.now w.host.clock_reads + backoff P.retry_base_ms n), tick w)
  unfolding calculate_next_retry_at
  calculate_next_retry_at_run n w = refl

  pub retry_event_run :
      (e : OutboxEvent) (n : ℕ) (text : String) (w : World P)
      → retry_event P e n text w ≡ (
        ok OutboxEventStatus.pending,
        put_event
            (tick w)
            (retried_event e n text (P.now w.host.clock_reads + backoff P.retry_base_ms n)),
      )
  unfolding retry_event
  retry_event_run e n text w = rw (calculate_next_retry_at_run n w, save_event_run (tick w) _) refl

  pub bury_event_run :
      (e : OutboxEvent) (n : ℕ) (text : String) (w : World P)
      → bury_event P e n text w ≡ (
        ok OutboxEventStatus.dead_letter,
        add_dead_letter (put_event w (dead_event e n text)) (dead_letter_of_event e n text),
      )
  unfolding bury_event
  bury_event_run e n text w =
      let v = put_event w (dead_event e n text) in
      rw
        (
          save_event_run w (dead_event e n text),
          insert_dead_letter_run lawful v (dead_letter_of_event e n text),
          lawful.commit_lem w.db (add_dead_letter v (dead_letter_of_event e n text)).db,
        )
        refl

  pub publish_event_run :
      (e : OutboxEvent) (w v : World P)
      → consume P e w ≡ (ok tt, v)
      → publish_event P e w ≡ (
        ok OutboxEventStatus.published,
        put_event (tick v) (published_event e (P.now v.host.clock_reads)),
      )
  unfolding publish_event
  publish_event_run e w v h = rw (h, save_event_run (tick v) _) refl

  pub publish_event_fails :
      (e : OutboxEvent) (w v : World P) (x : Exception)
      → consume P e w ≡ (err x, v)
      → publish_event P e w ≡ (err x, v)
  unfolding publish_event
  publish_event_fails e w v x h = rw h refl
