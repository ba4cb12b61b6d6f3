-- ===== src/World/Queues.antt =====
-- The calls of the repositories of the outbox and of the dead letters.
use order_orchestrator.Base.{ℕ, String, Option, List, Bool, Sort, has_key}
use order_orchestrator.Entities.{OutboxEvent, DeadLetterEvent, NewDeadLetter, dead_letter_row}
use order_orchestrator.Platform.{Platform}
use order_orchestrator.Exceptions.{ok, err}
use order_orchestrator.World.State.{World}
use order_orchestrator.World.Monad.{Action}
use order_orchestrator.World.Tables.{insert_row}

module _ (P : Platform) where
  -- `findOne(OutboxEvent, { where: { id } })`
  unfoldable pub find_event : String → Action P (Option OutboxEvent)
  find_event id w = (ok (P.schema.outbox.find_one w.db.outbox (has_key (λ e. e.id) id)), w)

  -- `save` of an event that was read
  unfoldable pub save_event : OutboxEvent → Action P (Unit {0})
  save_event e w =
      (ok tt, record w { db = record (w.db) { outbox = P.schema.outbox.update w.db.outbox e } })

  -- `update(OutboxEvent).set(…).where(…).execute()`, for its `affected`
  unfoldable pub update_events : (OutboxEvent → Bool) → (OutboxEvent → OutboxEvent) → Action P ℕ
  update_events p f w = (
    ok (P.schema.outbox.affected w.db.outbox p),
    record w { db = record (w.db) { outbox = P.schema.outbox.update_where w.db.outbox p f } },
  )

  -- `where(…).orderBy(…).take(…).getMany()`
  unfoldable pub find_events :
      (OutboxEvent → Bool) → Sort OutboxEvent → ℕ → Option ℕ → Action P (List OutboxEvent)
  find_events p s skip limit w = (ok (P.schema.outbox.find_many w.db.outbox p s skip limit), w)

  unfoldable pub count_events : (OutboxEvent → Bool) → Action P ℕ
  count_events p w = (ok (P.schema.outbox.count w.db.outbox p), w)

  unfoldable pub find_dead_letter : String → Action P (Option DeadLetterEvent)
  find_dead_letter id w =
      (ok (P.schema.dead_letters.find_one w.db.dead_letters (has_key (λ e. e.id) id)), w)

  unfoldable pub find_dead_letters :
      (DeadLetterEvent → Bool)
      → Sort DeadLetterEvent
      → ℕ
      → Option ℕ
      → Action P (List DeadLetterEvent)
  find_dead_letters p s skip limit w =
      (ok (P.schema.dead_letters.find_many w.db.dead_letters p s skip limit), w)

  unfoldable pub count_dead_letters : (DeadLetterEvent → Bool) → Action P ℕ
  count_dead_letters p w = (ok (P.schema.dead_letters.count w.db.dead_letters p), w)

  -- The row that the database makes of a new dead letter.
  abbrev pub new_dead_letter_row : World P → NewDeadLetter → DeadLetterEvent
  new_dead_letter_row w e =
      dead_letter_row (P.schema.dead_letters.generated_id w.db.dead_letters)
        (P.schema.dead_letters.generated_at w.db.dead_letters) e

  unfoldable pub insert_dead_letter : NewDeadLetter → Action P (Unit {0})
  insert_dead_letter e w =
      elim (insert_row P.schema.dead_letters w.db.dead_letters (new_dead_letter_row w e)) [
        | ok t ↦ (ok tt, record w { db = record (w.db) { dead_letters = t } })
        | err x ↦ (err x, w)
      ]

  -- `remove` of a dead letter that was read
  unfoldable pub remove_dead_letter : DeadLetterEvent → Action P (Unit {0})
  remove_dead_letter e w = (
    ok tt,
    record w {
      db = record (w.db) { dead_letters = P.schema.dead_letters.remove w.db.dead_letters e };
    },
  )
