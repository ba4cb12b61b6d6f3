-- ===== src/Outbox/Retries.antt =====
-- Repeated attempts at one event: how many there can be.

use order_orchestrator.Base.{
  ℕ, zero, suc, ◌+◌, ◌≤◌, String, some, ◌≡◌, refl, sym, ap, ◌∙◌, subst, arith, ◌⊎◌, inl, inr,
}
use order_orchestrator.Entities.{OutboxEvent, OutboxEventStatus}
use order_orchestrator.Platform.{Platform}
use order_orchestrator.Platform.Laws.{IsPlatform}
use order_orchestrator.Exceptions.{Result}
use order_orchestrator.World.{World}
use order_orchestrator.World.Reads.{event_of}
use order_orchestrator.Outbox.{process_single_event}
use order_orchestrator.Outbox.Claim.{IsPending}
use order_orchestrator.Outbox.Delivery.{AttemptEnd}
use order_orchestrator.Outbox.Attempt.{process_single_event-AttemptEnd}

-- The state after so many calls of `processSingleEvent`.
abbrev pub attempts : (P : Platform) → String → ℕ → World P → World P
attempts P id zero w = w
attempts P id (suc k) w = attempts P id k (process_single_event P id w).1

-- The event is off the queue.
abbrev pub IsSettled : OutboxEvent → Type 0
IsSettled e = (e.status ≡ OutboxEventStatus.published) ⊎ (e.status ≡ OutboxEventStatus.dead_letter)

-- At some attempt, of at most `suc n`, the event has been settled.
abbrev pub SettlesWithin : {P : Platform} → String → ℕ → World P → Type 0
SettlesWithin {P} id n w =
    (k : ℕ) × (k ≤ n)
    × ((f : OutboxEvent) × (event_of (attempts P id (suc k) w) id ≡ some f) × IsSettled f)

-- What is known of the attempts behind the first one.
abbrev Again : {P : Platform} → String → ℕ → World P → Type 0
Again id zero w = Unit
Again id (suc m) w =
    (f : OutboxEvent)
    → event_of w id ≡ some f
    → IsPending f
    → f.max_retries ≤ f.retry_count + suc m
    → SettlesWithin id m w

module _ {P : Platform} (lawful : IsPlatform P) (id : String) where
  -- How the first attempt decides about all.
  settles_by :
      (n : ℕ) (w : World P) (e : OutboxEvent)
      → e.max_retries ≤ e.retry_count + suc n
      → (r : Result OutboxEventStatus) (w' : World P) → process_single_event P id w ≡ (r, w')
      → AttemptEnd id e w r w'
      → Again id n w'
      → SettlesWithin id n w
  settles_by n w e bound r w' runs (AttemptEnd.published passes ended l) again =
      (0, omega arith, (_, ap (λ z. event_of z.1 id) runs ∙ l.row_left, inl refl))
  settles_by n w e bound r w' runs (AttemptEnd.buried x letter t fails spent fresh ended l) again =
      (0, omega arith, (_, ap (λ z. event_of z.1 id) runs ∙ l.row_left, inr refl))
  settles_by zero w e bound r w' runs (AttemptEnd.retried x fails left ended l) again =
      absurd (omega arith)
  settles_by (suc m) w e bound r w' runs (AttemptEnd.retried x fails left ended l) again =
      let (k, few, found) = again _ l.row_left refl (omega arith) in
      (
        suc k,
        omega arith,
        subst
            (λ z.
              (f : OutboxEvent) × (event_of (attempts P id (suc k) z.1) id ≡ some f) × IsSettled f)
            (sym runs) found,
      )

  -- Attempts at a pending event end: after no more than `maxRetries - retryCount` of them, and one
  -- at the least, it is `PUBLISHED` or in `DEAD_LETTER`, whatever the consumer does.
  pub attempts-IsSettled :
      (n : ℕ) (w : World P) (e : OutboxEvent)
      → event_of w id ≡ some e
      → IsPending e
      → e.max_retries ≤ e.retry_count + suc n
      → SettlesWithin id n w
  attempts-IsSettled zero w e found pending bound =
      let (r, w') = process_single_event P id w in
      settles_by zero w e bound r w' refl
        (process_single_event-AttemptEnd lawful id e w found pending) tt
  attempts-IsSettled (suc m) w e found pending bound =
      let (r, w') = process_single_event P id w in
      settles_by (suc m) w e bound r w' refl
        (process_single_event-AttemptEnd lawful id e w found pending)
        (λ f. attempts-IsSettled m w' f)
