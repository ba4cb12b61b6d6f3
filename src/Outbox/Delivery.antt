-- ===== src/Outbox/Delivery.antt =====
-- One attempt at an event: what it may leave of the row, of the dead letters and of the other
-- events.
use mathlib.Core.List.{append-nil}
use order_orchestrator.Base.{
  ℕ, ◌+◌, ◌≤◌, ◌<◌, String, some, none, List, [], ◌∷◌, ◌++◌, ◌≡◌, ◌≢◌, sym, ap, ◌∙◌, first, has_key,
  first-replace_self, first-replace_other, first-append_some,
}
use order_orchestrator.Entities.{
  OutboxEvent, OutboxEventStatus, DeadLetterEvent, NewDeadLetter, dead_letter_row,
}
use order_orchestrator.Platform.{Platform}
use order_orchestrator.Platform.Laws.{IsPlatform}
use order_orchestrator.Exceptions.{Exception, message, Result, ok, err}
use order_orchestrator.World.{World, new_dead_letter_row}
use order_orchestrator.World.Reads.{events, event_of, dead_letters, dead_letter_of}
use order_orchestrator.World.QueueLaws.{put_event, put_events, add_dead_letter}
use order_orchestrator.Consumer.{consume}
use order_orchestrator.Outbox.{
  is_claimable, claimed, published_event, dead_event, retried_event, dead_letter_of_event, backoff,
}
use order_orchestrator.Outbox.Frame.{Appends}
use order_orchestrator.Outbox.Claim.{IsPending, first-claim_self, first-claim_other}

-- The state in which the consumer runs: the event has been claimed.
abbrev pub claim_event : {P : Platform} → String → World P → World P
claim_event id w = put_events w (is_claimable id) claimed

-- The consumption of the claimed event: its result, and the time that the clock shows behind it.
abbrev pub consumption :
    {P : Platform} → String → OutboxEvent → World P → Result (Unit {0}) × World P
consumption {P} id e w = consume P (claimed e) (claim_event id w)

abbrev pub time_behind : {P : Platform} → String → OutboxEvent → World P → ℕ
time_behind {P} id e w = P.now (consumption id e w).1.host.clock_reads

-- Every other event is as it was; others may have been added.
abbrev pub KeepsOthers : {P : Platform} → String → World P → World P → Type 0
KeepsOthers id w w' =
    (j : String) (f : OutboxEvent) → j ≢ id → event_of w j ≡ some f → event_of w' j ≡ some f

-- What an attempt has left.
pub record Leaves {P : Platform} (id : String) (w w' : World P) (row : OutboxEvent)
    (letters : List DeadLetterEvent) : Type 0 where
  pub row_left : event_of w' id ≡ some row
  pub letters_left : dead_letters w' ≡ dead_letters w ++ letters
  pub others_kept : KeepsOthers id w w'
  pub processor_kept : w'.processor ≡ w.processor

-- How an attempt ends: the life of an event, from `PENDING` on.
pub data AttemptEnd {P : Platform} (id : String) (e : OutboxEvent) (w : World P)
    (r : Result OutboxEventStatus) (w' : World P) : Type 0 where
  published :
      (consumption id e w).0 ≡ ok tt
      → r ≡ ok OutboxEventStatus.published
      → Leaves id w w' (published_event e (time_behind id e w)) []
      → AttemptEnd id e w r w'
  retried :
      (x : Exception)
      → (consumption id e w).0 ≡ err x
      → e.retry_count + 1 < e.max_retries
      → r ≡ ok OutboxEventStatus.pending
      → Leaves id w w'
          (retried_event e
            (e.retry_count + 1)
            (message x)
            (time_behind id e w + backoff P.retry_base_ms (e.retry_count + 1)))
          []
      → AttemptEnd id e w r w'
  buried :
      (x : Exception) (letter : String) (t : ℕ)
      → (consumption id e w).0 ≡ err x
      → e.max_retries ≤ e.retry_count + 1
      → dead_letter_of w letter ≡ none
      → r ≡ ok OutboxEventStatus.dead_letter
      → Leaves id w w'
          (dead_event e (e.retry_count + 1) (message x))
          (dead_letter_row letter t (dead_letter_of_event e (e.retry_count + 1) (message x)) ∷ [])
      → AttemptEnd id e w r w'

module _ {P : Platform} (lawful : IsPlatform P) where
  pub event_of-put_self :
      (w : World P) (e x : OutboxEvent) (id : String)
      → e.id ≡ id
      → event_of w id ≡ some x
      → event_of (put_event w e) id ≡ some e
  event_of-put_self w e x id same h =
      ap (first (has_key (λ y. y.id) id)) (lawful.schema.outbox.table.rows-update w.db.outbox e)
      ∙ first-replace_self (λ y. y.id) e (events w) x id same h

  pub event_of-put_other :
      (w : World P) (e : OutboxEvent) (j : String)
      → e.id ≢ j
      → event_of (put_event w e) j ≡ event_of w j
  event_of-put_other w e j other =
      ap (first (has_key (λ y. y.id) j)) (lawful.schema.outbox.table.rows-update w.db.outbox e)
      ∙ first-replace_other (λ y. y.id) e (events w) j other

  pub event_of-claim_self :
      (w : World P) (e : OutboxEvent) (id : String)
      → event_of w id ≡ some e
      → IsPending e
      → event_of (claim_event id w) id ≡ some (claimed e)
  event_of-claim_self w e id h pending =
      ap (first (has_key (λ y. y.id) id))
        (lawful.schema.outbox.table.rows-update_where w.db.outbox (is_claimable id) claimed)
      ∙ first-claim_self id (events w) e h pending

  event_of-claim_other :
      (w : World P) (id j : String) → j ≢ id → event_of (claim_event id w) j ≡ event_of w j
  event_of-claim_other w id j ne =
      ap (first (has_key (λ y. y.id) j))
        (lawful.schema.outbox.table.rows-update_where w.db.outbox (is_claimable id) claimed)
      ∙ first-claim_other id j (events w) ne

  Appends-event_of :
      (w v : World P) (j : String) (f : OutboxEvent)
      → Appends w v
      → event_of w j ≡ some f
      → event_of v j ≡ some f
  Appends-event_of w v j f h found =
      ap (first (has_key (λ y. y.id) j)) h.appended
      ∙ first-append_some (has_key (λ y. y.id) j) (events w) h.new_events f found

  -- The consumption of the claimed event, and the write of its new row.
  pub written-Leaves :
      (id : String) (w v : World P) (e row : OutboxEvent)
      → event_of w id ≡ some e
      → IsPending e
      → e.id ≡ id
      → row.id ≡ id
      → Appends (claim_event id w) v
      → Leaves id w (put_event v row) row []
  written-Leaves id w v e row found pending here same h = record {
    row_left =
        event_of-put_self v row (claimed e) id same
          (Appends-event_of _ v id (claimed e) h (event_of-claim_self w e id found pending));
    letters_left = h.dead_letters_kept ∙ sym (append-nil (dead_letters w));
    others_kept = λ j f ne kept.
        event_of-put_other v row j (λ q. ne (sym q ∙ same))
        ∙ Appends-event_of _ v j f h (event_of-claim_other w id j ne ∙ kept);
    processor_kept = h.processor_kept;
  }

  pub buried-Leaves :
      (id : String) (w v : World P) (row : OutboxEvent) (n : NewDeadLetter)
      → Leaves id w v row []
      → Leaves id w (add_dead_letter v n) row (new_dead_letter_row P v n ∷ [])
  buried-Leaves id w v row n h = record {
    row_left = h.row_left;
    letters_left =
        lawful.schema.dead_letters.rows-insert v.db.dead_letters (new_dead_letter_row P v n)
        ∙ ap (λ l. l ++ new_dead_letter_row P v n ∷ [])
            (h.letters_left ∙ append-nil (dead_letters w));
    others_kept = h.others_kept;
    processor_kept = h.processor_kept;
  }

  pub letter_fresh :
      (id : String) (w v : World P) (row : OutboxEvent)
      → Leaves id w v row []
      → dead_letter_of w (P.schema.dead_letters.generated_id v.db.dead_letters) ≡ none
  letter_fresh id w v row h =
      ap (first (has_key (λ d. d.id) (P.schema.dead_letters.generated_id v.db.dead_letters)))
        (sym (h.letters_left ∙ append-nil (dead_letters w)))
      ∙ lawful.schema.dead_letters.generated_fresh v.db.dead_letters
