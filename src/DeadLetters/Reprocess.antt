-- ===== src/DeadLetters/Reprocess.antt =====
-- `reprocessDlqEvent` on every branch, and that it takes back what the burial of an event did.
use order_orchestrator.Base.{
  ℕ, String, some, none, [], ◌∷◌, ◌++◌, ◌≡◌, refl, sym, ap, ◌∙◌, inl, inr, Option-cases, first,
  has_key, first_key, remove_key, remove_key-append, first-append_self,
}
use order_orchestrator.Entities.{
  OutboxEvent, OutboxEventStatus, DeadLetterEvent, NewEvent, event_row,
}
use order_orchestrator.Platform.{Platform}
use order_orchestrator.Platform.Laws.{IsPlatform}
use order_orchestrator.Exceptions.{Result, ok, err}
use order_orchestrator.World.{World, new_event_row}
use order_orchestrator.World.Reads.{events, event_of, dead_letters, dead_letter_of}
use order_orchestrator.World.Writes.{add_event}
use order_orchestrator.World.Laws.{insert_event_run}
use order_orchestrator.World.QueueLaws.{
  put_event, drop_dead_letter, find_event_run, save_event_run, find_dead_letter_run,
  remove_dead_letter_run,
}
use order_orchestrator.Outbox.{process_single_event}
use order_orchestrator.Outbox.Claim.{IsPending}
use order_orchestrator.Outbox.Delivery.{
  KeepsOthers, Leaves, AttemptEnd, event_of-put_self, event_of-put_other,
}
use order_orchestrator.Outbox.Attempt.{process_single_event-AttemptEnd}
use order_orchestrator.DeadLetters.{
  restored_event, dead_letter_not_found, restore_dead_letter, reprocess_dlq_event,
}

-- The event that a dead letter without its source becomes.
abbrev pub recreated_event : DeadLetterEvent → NewEvent
recreated_event d = record {
  aggregate_type = d.aggregate_type;
  aggregate_id = d.aggregate_id;
  event_type = d.event_type;
  payload = d.payload;
}

-- How the return of a dead letter ends.
pub data ReprocessEnd {P : Platform} (id : String) (w : World P) (r : Result (Unit {0}))
    (w' : World P) : Type 0 where
  missing :
      dead_letter_of w id ≡ none
      → r ≡ err (dead_letter_not_found id)
      → w' ≡ w
      → ReprocessEnd id w r w'
  restored :
      (d : DeadLetterEvent) (e : OutboxEvent)
      → dead_letter_of w id ≡ some d
      → event_of w d.source_event_id ≡ some e
      → r ≡ ok tt
      → event_of w' d.source_event_id ≡ some (restored_event e)
      → KeepsOthers d.source_event_id w w'
      → dead_letters w' ≡ remove_key (λ x. x.id) id (dead_letters w)
      → ReprocessEnd id w r w'
  recreated :
      (d : DeadLetterEvent) (new_id : String) (t : ℕ)
      → dead_letter_of w id ≡ some d
      → event_of w d.source_event_id ≡ none
      → r ≡ ok tt
      → event_of w new_id ≡ none
      → events w' ≡ events w ++ event_row new_id t (recreated_event d) ∷ []
      → dead_letters w' ≡ remove_key (λ x. x.id) id (dead_letters w)
      → ReprocessEnd id w r w'

module _ {P : Platform} (lawful : IsPlatform P) where
  restore_with_source :
      (w : World P) (d : DeadLetterEvent) (e : OutboxEvent)
      → event_of w d.source_event_id ≡ some e
      → restore_dead_letter P d w ≡ (ok tt, drop_dead_letter (put_event w (restored_event e)) d)
  unfolding restore_dead_letter
  restore_with_source w d e found =
      rw
        (
          find_event_run lawful w d.source_event_id,
          found,
          save_event_run w (restored_event e),
          remove_dead_letter_run (put_event w (restored_event e)) d,
        )
        refl

  restore_without_source :
      (w : World P) (d : DeadLetterEvent)
      → event_of w d.source_event_id ≡ none
      → restore_dead_letter P d w ≡ (ok tt, drop_dead_letter (add_event w (recreated_event d)) d)
  unfolding restore_dead_letter
  restore_without_source w d gone =
      rw
        (
          find_event_run lawful w d.source_event_id,
          gone,
          insert_event_run lawful w (recreated_event d),
          remove_dead_letter_run (add_event w (recreated_event d)) d,
        )
        refl

  reprocess_dlq_event_missing :
      (id : String) (w : World P)
      → dead_letter_of w id ≡ none
      → reprocess_dlq_event P id w ≡ (err (dead_letter_not_found id), w)
  unfolding reprocess_dlq_event
  reprocess_dlq_event_missing id w h = rw (find_dead_letter_run lawful w id, h) refl

  reprocess_dlq_event_found :
      (id : String) (w v : World P) (d : DeadLetterEvent)
      → dead_letter_of w id ≡ some d
      → restore_dead_letter P d w ≡ (ok tt, v)
      → reprocess_dlq_event P id w ≡ (ok tt, v)
  unfolding reprocess_dlq_event
  reprocess_dlq_event_found id w v d h runs =
      rw (find_dead_letter_run lawful w id, h, runs, lawful.commit_lem w.db v.db) refl

  dropped :
      (id : String) (w : World P) (d : DeadLetterEvent) (v : World P)
      → dead_letter_of w id ≡ some d
      → v.db.dead_letters ≡ w.db.dead_letters
      → dead_letters (drop_dead_letter v d) ≡ remove_key (λ x. x.id) id (dead_letters w)
  dropped id w d v found same =
      lawful.schema.dead_letters.table.rows-remove v.db.dead_letters d
      ∙ ap (λ t. remove_key (λ x. x.id) d.id (P.schema.dead_letters.rows t)) same
      ∙ ap (λ k. remove_key (λ x. x.id) k (dead_letters w))
          (first_key (λ x. x.id) id (dead_letters w) found)

  -- `reprocessDlqEvent` throws and changes nothing for an id that no dead letter has. Otherwise it
  -- returns, the dead letter is removed, and no other event that was there changes: the source of
  -- the dead letter is `PENDING` with no failure counted, or, if the source is missing, a new
  -- pending event with the data of the dead letter is added, under an id that no event had.
  pub reprocess_dlq_event-ReprocessEnd :
      (id : String) (w : World P)
      → let (r, w') = reprocess_dlq_event P id w in ReprocessEnd id w r w'
  reprocess_dlq_event-ReprocessEnd id w = elim (Option-cases (dead_letter_of w id)) [
    | inl no_letter ↦
        rw (reprocess_dlq_event_missing id w no_letter) (ReprocessEnd.missing no_letter refl refl)
    | inr (d, found) ↦ elim (Option-cases (event_of w d.source_event_id)) [
      | inl gone ↦
          let v = add_event w (recreated_event d) in
          rw
            (reprocess_dlq_event_found id w (drop_dead_letter v d) d found
              (restore_without_source w d gone))
            (ReprocessEnd.recreated d _ _ found gone refl
              (lawful.schema.outbox.generated_fresh w.db.outbox)
              (lawful.schema.outbox.rows-insert w.db.outbox (new_event_row P w (recreated_event d)))
              (dropped id w d v found refl))
      | inr (e, there) ↦
          let row = restored_event e in
          let v = put_event w row in
          let here = first_key (λ x. x.id) d.source_event_id (events w) there in
          rw
            (reprocess_dlq_event_found id w (drop_dead_letter v d) d found
              (restore_with_source w d e there))
            (ReprocessEnd.restored d e found there refl
              (event_of-put_self lawful w row e d.source_event_id here there)
              (λ j f ne kept. event_of-put_other lawful w row j (λ q. ne (sym q ∙ here)) ∙ kept)
              (dropped id w d v found refl))
    ]
  ]

  -- A dead letter that an attempt has left, taken back.
  taken_back :
      (id : String) (w v : World P) (row : OutboxEvent) (d : DeadLetterEvent)
      → Leaves id w v row (d ∷ [])
      → dead_letter_of w d.id ≡ none
      → d.source_event_id ≡ id
      → row.id ≡ id
      → let (r, u) = reprocess_dlq_event P d.id v in
        (r ≡ ok tt)
        × (event_of u id ≡ some (restored_event row))
        × (dead_letters u ≡ dead_letters w)
  taken_back id w v row d left fresh source here =
      let letters = left.letters_left in
      let found : dead_letter_of v d.id ≡ some d =
        ap (first (has_key (λ x. x.id) d.id)) letters
        ∙ first-append_self (λ x. x.id) d (dead_letters w) d.id refl fresh in
      let there : event_of v d.source_event_id ≡ some row =
        ap (event_of v) source ∙ left.row_left in
      let u = put_event v (restored_event row) in
      rw
        (reprocess_dlq_event_found d.id v (drop_dead_letter u d) d found
          (restore_with_source v d row there))
        (
          refl,
          event_of-put_self lawful v (restored_event row) row id here left.row_left,
          dropped d.id v d u found refl
              ∙ ap (remove_key (λ x. x.id) d.id) letters
              ∙ remove_key-append (λ x. x.id) d.id (dead_letters w) d fresh refl,
        )

  buried_back :
      (id : String) (w : World P) (e : OutboxEvent) (r : Result OutboxEventStatus) (w' : World P)
      → e.id ≡ id
      → r ≡ ok OutboxEventStatus.dead_letter
      → AttemptEnd id e w r w'
      → (letter : String) × (let (s, u) = reprocess_dlq_event P letter w' in
          (s ≡ ok tt)
          × (event_of u id ≡ some (restored_event e))
          × (dead_letters u ≡ dead_letters w))
  buried_back id w e r w' here dead (AttemptEnd.published passes ended l) =
      absurd (cc (sym ended ∙ dead))
  buried_back id w e r w' here dead (AttemptEnd.retried x fails more ended l) =
      absurd (cc (sym ended ∙ dead))
  buried_back id w e r w' here dead (AttemptEnd.buried x letter t fails spent fresh ended l) =
      (letter, taken_back id w w' _ _ l fresh here here)

  -- `reprocessDlqEvent` takes back what the burial of an event has done: if `processSingleEvent`
  -- has put a pending event into `DEAD_LETTER`, the dead letter that it wrote can be reprocessed,
  -- whereupon the event is as it was but for its failures, of which none is counted, and the dead
  -- letters are what they were before.
  pub reprocess_dlq_event-buried :
      (id : String) (w : World P) (e : OutboxEvent)
      → event_of w id ≡ some e
      → IsPending e
      → (process_single_event P id w).0 ≡ ok OutboxEventStatus.dead_letter
      → (letter : String) × (let (r, u) =
            reprocess_dlq_event P letter (process_single_event P id w).1 in
          (r ≡ ok tt)
          × (event_of u id ≡ some (restored_event e))
          × (dead_letters u ≡ dead_letters w))
  reprocess_dlq_event-buried id w e found pending dead =
      buried_back id w e _ _ (first_key (λ x. x.id) id (events w) found) dead
        (process_single_event-AttemptEnd lawful id e w found pending)
