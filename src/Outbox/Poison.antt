-- ===== src/Outbox/Poison.antt =====
-- An event that the consumer can never take: it is retried as often as it may be, and then buried.
use mathlib.Core.List.{append-nil}
use order_orchestrator.Base.{
  ℕ, zero, suc, ◌+◌, ◌<◌, String, some, [], ◌∷◌, ◌++◌, ◌≡◌, refl, sym, ap, ◌∙◌, arith,
}
use order_orchestrator.Entities.{OutboxEvent, OutboxEventStatus, dead_letter_row}
use order_orchestrator.Platform.{Platform}
use order_orchestrator.Platform.Laws.{IsPlatform}
use order_orchestrator.Exceptions.{message, Result}
use order_orchestrator.World.{World}
use order_orchestrator.World.Reads.{event_of, dead_letters}
use order_orchestrator.Outbox.{claimed, dead_event, dead_letter_of_event, process_single_event}
use order_orchestrator.Outbox.Claim.{IsPending}
use order_orchestrator.Outbox.Delivery.{claim_event, AttemptEnd}
use order_orchestrator.Outbox.Attempt.{process_single_event-AttemptEnd}
use order_orchestrator.Outbox.Retries.{attempts}
use order_orchestrator.Outbox.Waits.{
  IsUnsupported, unsupported_fails, waited-IsUnsupported, waited_retries, waited_max, Waiting,
}

module _ {P : Platform} (lawful : IsPlatform P) (id : String) where
  waits_once :
      (w : World P) (e : OutboxEvent)
      → IsUnsupported e
      → suc e.retry_count < e.max_retries
      → (r : Result OutboxEventStatus) (w' : World P) → AttemptEnd id e w r w'
      → Waiting id e 1 w w'
  waits_once w e h left r w' (AttemptEnd.published passes ended l) =
      let (x, fails) =
        unsupported_fails (claimed e) (claim_event id w)
          (record { not_created = h.not_created; not_changed = h.not_changed }) in
      absurd (cc (sym passes ∙ fails))
  waits_once w e h left r w' (AttemptEnd.retried x fails more ended l) = record {
    row = _;
    row_left = l.row_left;
    waits = refl;
    letters_kept = l.letters_left ∙ append-nil (dead_letters w);
  }
  waits_once w e h left r w' (AttemptEnd.buried x letter t fails spent fresh ended l) =
      absurd (omega arith)

  waits_once_run :
      (w : World P) (e : OutboxEvent)
      → event_of w id ≡ some e
      → IsPending e
      → IsUnsupported e
      → suc e.retry_count < e.max_retries
      → Waiting id e 1 w (process_single_event P id w).1
  waits_once_run w e found pending h left =
      waits_once w e h left _ _ (process_single_event-AttemptEnd lawful id e w found pending)

-- The event is in `DEAD_LETTER`, and one dead letter stands for it.
pub record Buried {P : Platform} (id : String) (e : OutboxEvent) (w w' : World P) : Type 0 where
  pub text : String
  pub letter : String
  pub at : ℕ
  pub row_left : event_of w' id ≡ some (dead_event e e.max_retries text)
  pub letters_left :
      dead_letters w'
      ≡ dead_letters w ++ dead_letter_row letter at (dead_letter_of_event e e.max_retries text) ∷ []

module _ {P : Platform} (lawful : IsPlatform P) (id : String) where
  Buried-last :
      (w : World P) (e : OutboxEvent)
      → IsUnsupported e
      → e.retry_count + 1 ≡ e.max_retries
      → (r : Result OutboxEventStatus) (w' : World P) → AttemptEnd id e w r w'
      → Buried id e w w'
  Buried-last w e h last r w' (AttemptEnd.published passes ended l) =
      let (x, fails) =
        unsupported_fails (claimed e) (claim_event id w)
          (record { not_created = h.not_created; not_changed = h.not_changed }) in
      absurd (cc (sym passes ∙ fails))
  Buried-last w e h last r w' (AttemptEnd.retried x fails more ended l) = absurd (omega arith)
  Buried-last w e h last r w' (AttemptEnd.buried x letter t fails spent fresh ended l) = record {
    text = message x;
    letter = letter;
    at = t;
    row_left = l.row_left ∙ ap (λ n. some (dead_event e n (message x))) last;
    letters_left =
        l.letters_left
        ∙ ap
            (λ n.
              dead_letters w
              ++ dead_letter_row letter t (dead_letter_of_event e n (message x)) ∷ [])
            last;
  }

  -- What happens to the event behind its first failure happens to the event.
  waited-Buried :
      (w v w' : World P) (e : OutboxEvent) (one : Waiting id e 1 w v)
      → Buried id one.row v w'
      → Buried id e w w'
  waited-Buried w v w' e one b = record {
    text = b.text;
    letter = b.letter;
    at = b.at;
    row_left = b.row_left ∙ ap (λ y. some (dead_event y y.max_retries b.text)) one.waits;
    letters_left =
        b.letters_left
        ∙ ap
            (λ l.
              l
              ++ dead_letter_row b.letter b.at
                  (dead_letter_of_event one.row one.row.max_retries b.text)
                ∷ [])
            one.letters_kept
        ∙ ap
            (λ y.
              dead_letters w
              ++ dead_letter_row b.letter b.at (dead_letter_of_event y y.max_retries b.text) ∷ [])
            one.waits;
  }

  -- A pending event of a type that the consumer does not support, with attempts left, is in
  -- `DEAD_LETTER` after just `maxRetries - retryCount` attempts, with one dead letter that has its
  -- data and `maxRetries` as its number of failed attempts.
  pub attempts-Buried :
      (n : ℕ) (w : World P) (e : OutboxEvent)
      → event_of w id ≡ some e
      → IsPending e
      → IsUnsupported e
      → e.retry_count + suc n ≡ e.max_retries
      → Buried id e w (attempts P id (suc n) w)
  attempts-Buried zero w e found pending h last =
      Buried-last w e h last _ _ (process_single_event-AttemptEnd lawful id e w found pending)
  attempts-Buried (suc n) w e found pending h last =
      let one = waits_once_run lawful id w e found pending h (omega arith) in
      let f = one.row in
      let v = (process_single_event P id w).1 in
      waited-Buried w v (attempts P id (suc n) v) e one (
        attempts-Buried n v f one.row_left (ap (λ y. y.status) one.waits)
          (waited-IsUnsupported e f 1 one.waits h)
          (omega (arith, waited_retries e f 1 one.waits, waited_max e f 1 one.waits)))
