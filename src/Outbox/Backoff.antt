-- ===== src/Outbox/Backoff.antt =====
-- The time of a retry: how far off it is.
use native.Mathlib.Nat.{pow-le-pow_right, mul-le-mul_left, mul-one, one-le-pow}
use order_orchestrator.Base.{
  ℕ, ◌+◌, ◌-◌, ◌*◌, ◌^◌, ◌≤◌, ◌<◌, String, some, ◌≡◌, refl, sym, ◌∙◌, subst, arith,
}
use order_orchestrator.Entities.{OutboxEvent, OutboxEventStatus}
use order_orchestrator.Platform.{Platform}
use order_orchestrator.Platform.Laws.{IsPlatform}
use order_orchestrator.Exceptions.{message, Result, ok}
use order_orchestrator.World.{World}
use order_orchestrator.World.Reads.{event_of}
use order_orchestrator.Outbox.{backoff, retried_event, process_single_event}
use order_orchestrator.Outbox.Claim.{IsPending}
use order_orchestrator.Outbox.Delivery.{time_behind, AttemptEnd}
use order_orchestrator.Outbox.Attempt.{process_single_event-AttemptEnd}

-- A delay is the base at the least, and at the most what the last of `n - 1` retries waits.
delay_bounds :
    (base k n : ℕ) → 0 < k → k < n → (base ≤ backoff base k) × (backoff base k ≤ base * 2 ^ (n - 2))
delay_bounds base k n positive h = (
  subst (λ x. x ≤ backoff base k) (mul-one base)
      (mul-le-mul_left base (one-le-pow (k - 1) 2 (omega arith))),
  mul-le-mul_left base (pow-le-pow_right (omega arith) (omega arith)),
)

plus-le : (t a b : ℕ) → a ≤ b → t + a ≤ t + b
plus-le t a b h = omega arith

-- The time that the clock shows behind the failed attempt, and the time of the retry.
pub record RetriesBetween {P : Platform} (id : String) (t low high : ℕ) (w' : World P)
    : Type 0 where
  pub row : OutboxEvent
  pub row_left : event_of w' id ≡ some row
  pub at : ℕ
  pub at_set : row.next_retry_at ≡ some at
  pub not_before : t + low ≤ at
  pub not_after : at ≤ t + high

module _ {P : Platform} (lawful : IsPlatform P) where
  bounded :
      (id : String) (e : OutboxEvent) (w : World P) (r : Result OutboxEventStatus) (w' : World P)
      → r ≡ ok OutboxEventStatus.pending
      → AttemptEnd id e w r w'
      → RetriesBetween id
          (time_behind id e w)
          P.retry_base_ms
          (P.retry_base_ms * 2 ^ (e.max_retries - 2))
          w'
  bounded id e w r w' waits (AttemptEnd.published passes ended l) = absurd (cc (sym ended ∙ waits))
  bounded id e w r w' waits (AttemptEnd.buried x letter t fails spent fresh ended l) =
      absurd (cc (sym ended ∙ waits))
  bounded id e w r w' waits (AttemptEnd.retried x fails left ended l) =
      let n = e.retry_count + 1 in
      let delay = backoff P.retry_base_ms n in
      let t = time_behind id e w in
      let (low, high) = delay_bounds P.retry_base_ms n e.max_retries (omega arith) left in
      record {
        row = retried_event e n (message x) (t + delay);
        row_left = l.row_left;
        at = t + delay;
        at_set = refl;
        not_before = plus-le t P.retry_base_ms delay low;
        not_after = plus-le t delay (P.retry_base_ms * 2 ^ (e.max_retries - 2)) high;
      }

  -- Where a failed attempt leaves a pending event another one, the retry is set to a time that is
  -- at least the base delay off, and at most the base doubled `maxRetries - 2` times.
  pub process_single_event-RetriesBetween :
      (id : String) (e : OutboxEvent) (w : World P)
      → event_of w id ≡ some e
      → IsPending e
      → (process_single_event P id w).0 ≡ ok OutboxEventStatus.pending
      → RetriesBetween id
          (time_behind id e w)
          P.retry_base_ms
          (P.retry_base_ms * 2 ^ (e.max_retries - 2))
          (process_single_event P id w).1
  process_single_event-RetriesBetween id e w found pending waits =
      bounded id e w _ _ waits (process_single_event-AttemptEnd lawful id e w found pending)
