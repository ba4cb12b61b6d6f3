-- ===== src/Outbox/Waits.antt =====
-- An event of a type that the consumer does not support, and how its row looks while it waits for
-- another attempt.

use order_orchestrator.Base.{ℕ, ◌+◌, String, some, ◌≡◌, ◌≢◌, sym, ap, ◌∙◌}
use order_orchestrator.Entities.{
  OutboxEvent, OutboxEventStatus, created_event, status_changed_event,
}
use order_orchestrator.Platform.{Platform}
use order_orchestrator.Exceptions.{Exception, Result, err}
use order_orchestrator.World.{World}
use order_orchestrator.World.Reads.{event_of, dead_letters}
use order_orchestrator.Consumer.{consume}
use order_orchestrator.Consumer.Contract.{ConsumeEnd, consume-ConsumeEnd}

-- An event of a type that the consumer does not support.
pub record IsUnsupported (e : OutboxEvent) : Type 0 where
  pub not_created : e.event_type ≢ created_event
  pub not_changed : e.event_type ≢ status_changed_event

module _ {P : Platform} where
  pub unsupported_fails :
      (e : OutboxEvent) (w : World P)
      → IsUnsupported e
      → (x : Exception) × ((consume P e w).0 ≡ err x)
  unsupported_fails e w h = fails (consume-ConsumeEnd e w)
    where
      fails :
          {r : Result (Unit {0})} {w' : World P}
          → ConsumeEnd e w r w'
          → (x : Exception) × (r ≡ err x)
      fails (ConsumeEnd.injected l ended) = (_, ended)
      fails (ConsumeEnd.started v l created ended reached) = absurd (h.not_created created)
      fails (ConsumeEnd.ignored l changed ended) = absurd (h.not_changed changed)
      fails (ConsumeEnd.refused l a b ended) = (_, ended)

-- The event after so many failed attempts: the error of the last one and the time of its retry
-- apart.
abbrev pub Waits : OutboxEvent → ℕ → OutboxEvent → Type 0
Waits e k f = f ≡ record e {
  status = OutboxEventStatus.pending;
  retry_count = e.retry_count + k;
  last_error = f.last_error;
  next_retry_at = f.next_retry_at;
}

pub waited-IsUnsupported :
    (e f : OutboxEvent) (k : ℕ) → Waits e k f → IsUnsupported e → IsUnsupported f
waited-IsUnsupported e f k h u = record {
  not_created = λ q. u.not_created (sym (ap (λ y. y.event_type) h) ∙ q);
  not_changed = λ q. u.not_changed (sym (ap (λ y. y.event_type) h) ∙ q);
}

pub waited_retries : (e f : OutboxEvent) (k : ℕ) → Waits e k f → f.retry_count ≡ e.retry_count + k
waited_retries e f k h = ap (λ y. y.retry_count) h

pub waited_max : (e f : OutboxEvent) (k : ℕ) → Waits e k f → f.max_retries ≡ e.max_retries
waited_max e f k h = ap (λ y. y.max_retries) h

-- What is left before the last attempt at an event that always fails.
pub record Waiting {P : Platform} (id : String) (e : OutboxEvent) (k : ℕ) (w w' : World P)
    : Type 0 where
  pub row : OutboxEvent
  pub row_left : event_of w' id ≡ some row
  pub waits : Waits e k row
  pub letters_kept : dead_letters w' ≡ dead_letters w
