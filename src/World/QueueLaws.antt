-- ===== src/World/QueueLaws.antt =====
-- What the calls on the outbox and the dead letters answer, and the state that they leave.
use order_orchestrator.Base.{
  ℕ, String, Option, List, Bool, ◌≡◌, refl, ap, has_key, filter, length, Sort, IsLimit, Selects,
}
use order_orchestrator.Entities.{OutboxEvent, DeadLetterEvent, NewDeadLetter}
use order_orchestrator.Platform.{Platform}
use order_orchestrator.Platform.Laws.{IsPlatform}
use order_orchestrator.Exceptions.{ok}
use order_orchestrator.World.State.{World}
use order_orchestrator.World.Tables.{insert_row}
use order_orchestrator.World.Reads.{events, event_of, dead_letters, dead_letter_of}
use order_orchestrator.World.Queues.{
  find_event, save_event, update_events, find_events, count_events, find_dead_letter,
  find_dead_letters, new_dead_letter_row, insert_dead_letter, remove_dead_letter,
}

module _ {P : Platform} (w : World P) where
  abbrev pub put_event : OutboxEvent → World P
  put_event e = record w { db = record (w.db) { outbox = P.schema.outbox.update w.db.outbox e } }

  abbrev pub put_events : (OutboxEvent → Bool) → (OutboxEvent → OutboxEvent) → World P
  put_events p f = record w {
    db = record (w.db) { outbox = P.schema.outbox.update_where w.db.outbox p f };
  }

  abbrev pub add_dead_letter : NewDeadLetter → World P
  add_dead_letter e = record w {
    db = record (w.db) {
      dead_letters = P.schema.dead_letters.insert w.db.dead_letters (new_dead_letter_row P w e);
    };
  }

  abbrev pub drop_dead_letter : DeadLetterEvent → World P
  drop_dead_letter e = record w {
    db = record (w.db) { dead_letters = P.schema.dead_letters.remove w.db.dead_letters e };
  }

module _ {P : Platform} (w : World P) where
  pub save_event_run : (e : OutboxEvent) → save_event P e w ≡ (ok tt, put_event w e)
  unfolding save_event
  save_event_run e = refl

  pub remove_dead_letter_run :
      (e : DeadLetterEvent) → remove_dead_letter P e w ≡ (ok tt, drop_dead_letter w e)
  unfolding remove_dead_letter
  remove_dead_letter_run e = refl

module _ {P : Platform} (lawful : IsPlatform P) (w : World P) where
  pub find_event_run : (id : String) → find_event P id w ≡ (ok (event_of w id), w)
  unfolding find_event
  find_event_run id =
      ap (λ o. (ok o, w))
        (lawful.schema.outbox.table.find_one_lem w.db.outbox (has_key (λ e. e.id) id))

  pub update_events_run :
      (p : OutboxEvent → Bool) (f : OutboxEvent → OutboxEvent)
      → update_events P p f w ≡ (ok (length (filter p (events w))), put_events w p f)
  unfolding update_events
  update_events_run p f =
      ap (λ n. (ok n, put_events w p f)) (lawful.schema.outbox.table.affected_lem w.db.outbox p)

  pub find_events_run :
      (p : OutboxEvent → Bool) (s : Sort OutboxEvent) (skip : ℕ) (limit : Option ℕ)
      → IsLimit limit
      → (l : List OutboxEvent) × (find_events P p s skip limit w ≡ (ok l, w))
        × Selects s (filter p (events w)) skip limit l
  unfolding find_events
  find_events_run p s skip limit h =
      (_, refl, lawful.schema.outbox.table.find_many_lem w.db.outbox p s skip limit h)

  pub count_events_run :
      (p : OutboxEvent → Bool) → count_events P p w ≡ (ok (length (filter p (events w))), w)
  unfolding count_events
  count_events_run p = ap (λ n. (ok n, w)) (lawful.schema.outbox.table.count_lem w.db.outbox p)

  pub find_dead_letter_run : (id : String) → find_dead_letter P id w ≡ (ok (dead_letter_of w id), w)
  unfolding find_dead_letter
  find_dead_letter_run id =
      ap (λ o. (ok o, w))
        (lawful.schema.dead_letters.table.find_one_lem w.db.dead_letters (has_key (λ e. e.id) id))

  pub find_dead_letters_run :
      (p : DeadLetterEvent → Bool) (s : Sort DeadLetterEvent) (skip : ℕ) (limit : Option ℕ)
      → IsLimit limit
      → (l : List DeadLetterEvent) × (find_dead_letters P p s skip limit w ≡ (ok l, w))
        × Selects s (filter p (dead_letters w)) skip limit l
  unfolding find_dead_letters
  find_dead_letters_run p s skip limit h =
      (_, refl, lawful.schema.dead_letters.table.find_many_lem w.db.dead_letters p s skip limit h)

  pub insert_dead_letter_run :
      (e : NewDeadLetter) → insert_dead_letter P e w ≡ (ok tt, add_dead_letter w e)
  unfolding insert_dead_letter
  insert_dead_letter_run e = rw (
    lawful.schema.dead_letters.insert_free w.db.dead_letters (new_dead_letter_row P w e),
    insert_dead_letter,
    insert_row,
  )
