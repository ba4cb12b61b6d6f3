-- ===== src/Outbox.antt =====
-- The dispatch of `OutboxProcessorService` (src/orders/outbox-processor.service.ts). The spans and
-- the log are left out; its start and end are in Outbox/Lifecycle.antt, and the dead letters in
-- DeadLetters.antt.
pub mod Claim
pub mod Delivery
pub mod Runs
pub mod Attempt
pub mod Skipped
pub mod Dispatch
pub mod Selection
pub mod Batch
pub mod Retries
pub mod Waits
pub mod Poison
pub mod Behind
pub mod SagaDelivery
pub mod OrderFlow
pub mod Backoff
pub mod Lifecycle
pub mod Frame
pub mod SagaFrame
pub mod ConsumeFrame
use order_orchestrator.Base.{
  ℕ, zero, suc, ◌+◌, ◌-◌, ◌*◌, ◌^◌, String, Option, none, some, List, [], ◌∷◌, Bool, true, false,
  ◌&&◌, leb, ◌==◌, str_eq, text_append, if◌then◌else◌, has_key, Sort, length,
}
use order_orchestrator.Platform.{Platform}
use order_orchestrator.DateText.{to_iso_string}
use order_orchestrator.Entities.{
  OutboxEvent, OutboxEventStatus, event_status_eq, DeadLetterEvent, NewDeadLetter,
}
use order_orchestrator.Exceptions.{Exception, message, Result, ok, err}
use order_orchestrator.World.{
  World, Metric, Processor, Action, ◌>>=◌, ◌>>◌, pure, throw, or_throw, when, try_catch,
  transaction, current_time, record_metric, find_event, save_event, update_events, find_events,
  count_events, insert_event, find_dead_letter, find_dead_letters, count_dead_letters,
  insert_dead_letter, remove_dead_letter,
}
use order_orchestrator.Consumer.{consume}

-- `DispatchResult`
pub record DispatchResult : Type 0 where
  pub selected : ℕ
  pub published : ℕ
  pub retried : ℕ
  pub dead_lettered : ℕ

-- `status = PENDING`
abbrev pub is_pending : OutboxEvent → Bool
is_pending e = event_status_eq e.status OutboxEventStatus.pending

-- `id = :id AND status = :status`
abbrev pub is_claimable : String → OutboxEvent → Bool
is_claimable id e = str_eq e.id id && is_pending e

-- `.set({ status: PROCESSING })`
abbrev pub claimed : OutboxEvent → OutboxEvent
claimed e = record e { status = OutboxEventStatus.processing }

-- `orderBy('event.createdAt', 'ASC')`
abbrev pub oldest_first : Sort OutboxEvent
oldest_first = Sort.ascending (λ e. e.created_at)

-- The assignments after a consumption that has passed.
abbrev pub published_event : OutboxEvent → ℕ → OutboxEvent
published_event e t = record e {
  status = OutboxEventStatus.published;
  published_at = some t;
  last_error = none;
}

-- The assignments after a failure that was the last one.
abbrev pub dead_event : OutboxEvent → ℕ → String → OutboxEvent
dead_event e retry_count text = record e {
  status = OutboxEventStatus.dead_letter;
  retry_count = retry_count;
  last_error = some text;
  next_retry_at = none;
}

-- The assignments after another failure.
abbrev pub retried_event : OutboxEvent → ℕ → String → ℕ → OutboxEvent
retried_event e retry_count text at = record e {
  status = OutboxEventStatus.pending;
  retry_count = retry_count;
  last_error = some text;
  next_retry_at = some at;
}

abbrev pub dead_letter_of_event : OutboxEvent → ℕ → String → NewDeadLetter
dead_letter_of_event e retry_count text = record {
  source_event_id = e.id;
  aggregate_type = e.aggregate_type;
  aggregate_id = e.aggregate_id;
  event_type = e.event_type;
  payload = e.payload;
  failed_attempt_count = retry_count;
  error_message = text;
}

-- `base * 2^(retryCount - 1)`
abbrev pub backoff : ℕ → ℕ → ℕ
backoff base retry_count = base * 2 ^ (retry_count - 1)

-- `published += 1`, and so on
abbrev pub counted : OutboxEventStatus → DispatchResult → DispatchResult
counted OutboxEventStatus.published r = record r { published = r.published + 1 }
counted OutboxEventStatus.pending r = record r { retried = r.retried + 1 }
counted OutboxEventStatus.dead_letter r = record r { dead_lettered = r.dead_lettered + 1 }
counted OutboxEventStatus.processing r = r

module _ (P : Platform) where
  unfoldable pub calculate_next_retry_at : ℕ → Action P ℕ
  calculate_next_retry_at retry_count = do
    now ← current_time
    pure (now + backoff P.retry_base_ms retry_count)

  -- The `catch` of `processSingleEvent`, where the retries are spent.
  unfoldable pub bury_event : OutboxEvent → ℕ → String → Action P OutboxEventStatus
  bury_event e retry_count text = do
    transaction (
        save_event P (dead_event e retry_count text)
        >> insert_dead_letter P (dead_letter_of_event e retry_count text))
    pure OutboxEventStatus.dead_letter

  -- The same, where another retry is left.
  unfoldable pub retry_event : OutboxEvent → ℕ → String → Action P OutboxEventStatus
  retry_event e retry_count text = do
    at ← calculate_next_retry_at retry_count
    save_event P (retried_event e retry_count text at)
    pure OutboxEventStatus.pending

  unfoldable pub fail_event : OutboxEvent → Exception → Action P OutboxEventStatus
  fail_event e x =
      let retry_count = e.retry_count + 1 in
      if leb e.max_retries retry_count
      then bury_event e retry_count (message x)
      else retry_event e retry_count (message x)

  -- The `try` of `processSingleEvent`.
  unfoldable pub publish_event : OutboxEvent → Action P OutboxEventStatus
  publish_event e = do
    consume P e
    t ← current_time
    save_event P (published_event e t)
    pure OutboxEventStatus.published

  abbrev pub process_found : Option OutboxEvent → Action P OutboxEventStatus
  process_found none = pure OutboxEventStatus.pending
  process_found (some e) = try_catch (publish_event e) (fail_event e)

  unfoldable pub process_single_event : String → Action P OutboxEventStatus
  process_single_event id = do
    affected ← update_events P (is_claimable id) claimed
    if affected == 0 then pure OutboxEventStatus.pending else find_event P id >>= process_found

  -- The counters behind one event of the loop.
  unfoldable pub record_result : OutboxEventStatus → Action P (Unit {0})
  record_result OutboxEventStatus.published =
      record_metric (Metric.outbox_dispatch_total "published")
  record_result OutboxEventStatus.pending = record_metric (Metric.outbox_dispatch_total "retried")
  record_result OutboxEventStatus.dead_letter =
      record_metric (Metric.outbox_dispatch_total "dead_lettered") >> record_metric Metric.dlq_total
  record_result OutboxEventStatus.processing = pure tt

  -- The loop of `_doDispatch`.
  unfoldable pub dispatch_events : List OutboxEvent → DispatchResult → Action P DispatchResult
  dispatch_events [] r = pure r
  dispatch_events (e ∷ events) r = do
    status ← process_single_event e.id
    record_result status
    dispatch_events events (counted status r)

  -- `event.nextRetryAt IS NULL OR event.nextRetryAt <= :now`, `now: new Date().toISOString()`
  abbrev pub is_ready : ℕ → OutboxEvent → Bool
  is_ready now e = elim e.next_retry_at [
    | none ↦ true
    | some t ↦ P.text_le (P.column_text t) (to_iso_string now)
  ]

  unfoldable pub select_events : ℕ → Bool → Action P (List OutboxEvent)
  select_events limit true = find_events P is_pending oldest_first 0 (some limit)
  select_events limit false = do
    now ← current_time
    find_events P (λ e. is_pending e && is_ready now e) oldest_first 0 (some limit)

  -- `_doDispatch`
  unfoldable pub do_dispatch : ℕ → Bool → Action P DispatchResult
  do_dispatch limit force = do
    events ← select_events limit force
    pending ← count_events P is_pending
    record_metric (Metric.outbox_pending_gauge pending)
    dispatch_events events
        (record { selected = length events; published = 0; retried = 0; dead_lettered = 0 })

  -- `this.activeDispatchCount += 1`, and `-= 1`
  abbrev pub set_active : (ℕ → ℕ) → World P → World P
  set_active f w = record w {
    processor = record (w.processor) {
      active_dispatch_count = f w.processor.active_dispatch_count;
    };
  }

  -- `try { … } finally { this.activeDispatchCount -= 1 }`
  abbrev pub finally_leave : {A : Type 0} → Result A × World P → Result A × World P
  finally_leave (r, w) = (r, set_active (λ n. n - 1) w)

  unfoldable pub dispatch_pending : ℕ → Bool → Action P DispatchResult
  dispatch_pending limit force w =
      if w.processor.shutting_down
      then (ok (record { selected = 0; published = 0; retried = 0; dead_lettered = 0 }), w)
      else finally_leave (do_dispatch limit force (set_active suc w))

  unfoldable pub is_healthy : Action P Bool
  is_healthy w = (ok (if w.processor.shutting_down then false else true), w)

  unfoldable pub get_pending_events : ℕ → Action P (List OutboxEvent)
  get_pending_events limit = find_events P is_pending oldest_first 0 (some limit)
