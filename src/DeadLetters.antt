-- ===== src/DeadLetters.antt =====
-- The dead letters of `OutboxProcessorService` (src/orders/outbox-processor.service.ts): their list,
-- and their return to the outbox.
pub mod Reprocess
pub mod Loop
pub mod Targets
pub mod Returns
pub mod Batch
use order_orchestrator.Base.{
  ℕ, zero, suc, ◌+◌, ◌-◌, ◌*◌, ◌^◌, String, Option, none, some, List, [], ◌∷◌, ◌++◌, Bool, true,
  false, ◌&&◌, leb, ◌==◌, str_eq, text_append, if◌then◌else◌, has_key, Sort, length,
}
use order_orchestrator.Platform.{Platform}
use order_orchestrator.Entities.{
  OutboxEvent, OutboxEventStatus, event_status_eq, DeadLetterEvent, NewDeadLetter,
}
use order_orchestrator.Exceptions.{Exception, message, Result, ok, err}
use order_orchestrator.World.{
  World, Metric, Processor, Action, ◌>>=◌, ◌>>◌, pure, throw, or_throw, when, try_catch,
  transaction, current_time, record_metric, find_event, save_event, update_events, find_events,
  count_events, insert_event, find_dead_letter, find_dead_letters, count_dead_letters,
  insert_dead_letter, remove_dead_letter,
}
use order_orchestrator.Consumer.{consume}

-- An entry of `details`, with the error of a failure.
pub record ReprocessDetail : Type 0 where
  pub id : String
  pub status : String
  pub error : Option String

-- `DlqReprocessResult`
pub record DlqReprocessResult : Type 0 where
  pub total : ℕ
  pub success : ℕ
  pub failed : ℕ
  pub details : List ReprocessDetail

-- `orderBy('dle.deadLetteredAt', 'DESC')`
abbrev pub latest_first : Sort DeadLetterEvent
latest_first = Sort.descending (λ e. e.dead_lettered_at)

-- `where('dle.eventType = :eventType')`, if there is a type; an empty one is none.
abbrev pub has_type : Option String → DeadLetterEvent → Bool
has_type none e = true
has_type (some t) e = if str_eq t "" then true else str_eq e.event_type t

-- `where: ids.map((id) => ({ id }))`
abbrev pub has_id_of : List String → DeadLetterEvent → Bool
has_id_of [] e = false
has_id_of (id ∷ ids) e = if str_eq e.id id then true else has_id_of ids e

-- The assignments of `reprocessDlqEvent` to the event.
abbrev pub restored_event : OutboxEvent → OutboxEvent
restored_event e = record e {
  status = OutboxEventStatus.pending;
  retry_count = 0;
  last_error = none;
  next_retry_at = none;
}

-- `DLQ event not found: ${dlqId}`
abbrev pub dead_letter_not_found : String → Exception
dead_letter_not_found id = Exception.error (text_append "DLQ event not found: " id)

module _ (P : Platform) where
  unfoldable pub get_dead_letter_events :
      ℕ → ℕ → Option String → Action P (List DeadLetterEvent × ℕ)
  get_dead_letter_events limit offset event_type = do
    found ← find_dead_letters P (has_type event_type) latest_first offset (some limit)
    total ← count_dead_letters P (has_type event_type)
    pure (found, total)

  -- `if (outboxEvent) { … } else { … }`
  abbrev pub restore_event : DeadLetterEvent → Option OutboxEvent → Action P (Unit {0})
  restore_event d (some e) = save_event P (restored_event e)
  restore_event d none = insert_event P (record {
    aggregate_type = d.aggregate_type;
    aggregate_id = d.aggregate_id;
    event_type = d.event_type;
    payload = d.payload;
  })

  -- The callback of the transaction of `reprocessDlqEvent`.
  unfoldable pub restore_dead_letter : DeadLetterEvent → Action P (Unit {0})
  restore_dead_letter d = do
    found ← find_event P d.source_event_id
    restore_event d found
    remove_dead_letter P d

  unfoldable pub reprocess_dlq_event : String → Action P (Unit {0})
  reprocess_dlq_event id = do
    found ← find_dead_letter P id
    d ← or_throw found (dead_letter_not_found id)
    transaction (restore_dead_letter d)

  -- How the loop of `reprocessDlqBatch` goes on after one dead letter.
  abbrev pub count_reprocess :
      String → DlqReprocessResult → Result (Unit {0}) → Action P DlqReprocessResult
  count_reprocess id r (ok u) = do
    record_metric (Metric.dlq_reprocess_total "success")
    pure (record r {
      success = r.success + 1;
      details = r.details ++ record { id = id; status = "success"; error = none } ∷ [];
    })
  count_reprocess id r (err x) = do
    record_metric (Metric.dlq_reprocess_total "failed")
    pure (record r {
      failed = r.failed + 1;
      details = r.details ++ record { id = id; status = "failed"; error = some (message x) } ∷ [];
    })

  unfoldable pub reprocess_targets :
      List DeadLetterEvent → DlqReprocessResult → Action P DlqReprocessResult
  reprocess_targets [] r w = (ok r, w)
  reprocess_targets (d ∷ ds) r w =
      let (x, w₁) = reprocess_dlq_event d.id w in
      (count_reprocess d.id r x >>= reprocess_targets ds) w₁

  -- `ids && ids.length > 0 ? … : …`
  unfoldable pub select_targets : List String → Option String → Action P (List DeadLetterEvent)
  select_targets [] event_type =
      find_dead_letters P (has_type event_type) Sort.unsorted 0 (some 100)
  select_targets (id ∷ ids) event_type =
      find_dead_letters P (has_id_of (id ∷ ids)) Sort.unsorted 0 none

  -- A request without ids gives the empty list.
  unfoldable pub reprocess_dlq_batch : List String → Option String → Action P DlqReprocessResult
  reprocess_dlq_batch ids event_type = do
    targets ← select_targets ids event_type
    reprocess_targets targets
        (record { total = length targets; success = 0; failed = 0; details = [] })
