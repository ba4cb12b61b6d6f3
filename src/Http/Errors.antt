-- ===== src/Http/Errors.antt =====
-- The responses to requests that name an order or a dead letter, whether it is there or not.
use order_orchestrator.Base.{ℕ, String, Option, none, some, ◌≡◌, refl, ap, ◌∙◌, text_append}
use order_orchestrator.Platform.{Platform}
use order_orchestrator.Platform.Laws.{IsPlatform}
use order_orchestrator.Entities.{Order, OrderStatus, status_text, DeadLetterEvent}
use order_orchestrator.Exceptions.{Exception, Result, ok, err}
use order_orchestrator.StateMachine.{invalid_transition}
use order_orchestrator.StateMachine.Diagram.{IsAllowed}
use order_orchestrator.World.{World, Action}
use order_orchestrator.World.Reads.{order_of, dead_letter_of}
use order_orchestrator.Orders.Status.{order_not_found}
use order_orchestrator.Orders.Status.Laws.{Updates, Forces, find_by_id_run, find_by_id_missing}
use order_orchestrator.Orders.Status.Contract.{force_status-Forces, update_status-Updates}
use order_orchestrator.Saga.{or_else}
use order_orchestrator.DeadLetters.{dead_letter_not_found, reprocess_dlq_event}
use order_orchestrator.DeadLetters.Reprocess.{ReprocessEnd, reprocess_dlq_event-ReprocessEnd}
use order_orchestrator.Controllers.{
  UpdateOrderStatusDto, ForceOrderStatusDto, get_order, update_order_status, force_order_status,
  reprocess_dlq,
}
use order_orchestrator.Http.{Response, status_of, public_message, catch_exception, respond}

-- The request is answered with this status and message, and the database is as before.
abbrev pub Refuses :
    {P : Platform} {A : Type 0} → String → Action P A → World P → ℕ → String → Type 0
Refuses {P} url m w status_code message =
    (t : ℕ) × ((respond P url m w).0
      ≡ ok (
          Response.refused
            (record { status_code = status_code; message = message; path = url; timestamp = t })))
    × ((respond P url m w).1.db ≡ w.db)

module _ {P : Platform} where
  respond-Refuses :
      {A : Type 0} (url : String) (m : Action P A) (w v : World P) (e : Exception)
      → m w ≡ (err e, v)
      → v.db ≡ w.db
      → Refuses url m w (status_of e) (public_message e)
  unfolding respond catch_exception
  respond-Refuses url m w v e runs same =
      (P.now v.host.clock_reads, rw (runs, respond) refl, rw (runs, respond) same)

  respond_answered :
      {A : Type 0} (url : String) (m : Action P A) (w v : World P) (a : A)
      → m w ≡ (ok a, v)
      → respond P url m w ≡ (ok (Response.answered a), v)
  unfolding respond
  respond_answered url m w v a runs = rw (runs, respond) refl

-- What the look-up of an order is answered, by what the table holds.
abbrev pub Gets : {P : Platform} → String → String → World P → Option Order → Type 0
Gets {P} url id w none = Refuses url (get_order P id) w 404 (text_append "Order not found: " id)
Gets {P} url id w (some o) = respond P url (get_order P id) w ≡ (ok (Response.answered o), w)

-- What the reprocessing of a dead letter is answered.
abbrev pub Returns : {P : Platform} → String → String → World P → Option DeadLetterEvent → Type 0
Returns {P} url id w none = Refuses url (reprocess_dlq P id) w 500 "Internal server error"
Returns {P} url id w (some d) =
    (respond P url (reprocess_dlq P id) w).0
    ≡ ok (Response.answered (record { id = id; status = "reprocessed" }))

-- What a change of the status is answered: the order with its new status, the conflict, or 404.
pub data Changes {P : Platform} (url : String) (m : Action P Order) (may : OrderStatus → Type 0)
    (id : String) (next : OrderStatus) (w : World P) : Type 0 where
  missing :
      order_of w id ≡ none
      → Refuses url m w 404 (text_append "Order not found: " id)
      → Changes url m may id next w
  conflicting :
      (o : Order)
      → order_of w id ≡ some o
      → ¬ may o.status
      → Refuses url m w 409 (
          text_append "Invalid order state transition: "
            (text_append (status_text o.status) (text_append " -> " (status_text next))))
      → Changes url m may id next w
  changed :
      (o : Order)
      → order_of w id ≡ some o
      → may o.status
      → (respond P url m w).0 ≡ ok (Response.answered (record o { status = next }))
      → Changes url m may id next w

-- Every status may be forced.
abbrev pub Anything : OrderStatus → Type 0
Anything s = Unit

module _ {P : Platform} (lawful : IsPlatform P) (url id : String) (w : World P) where
  get_order-Gets : (o : Option Order) → order_of w id ≡ o → Gets url id w o
  unfolding get_order
  get_order-Gets none h =
      respond-Refuses url (get_order P id) w w (order_not_found id)
        (find_by_id_missing lawful id w h) refl
  get_order-Gets (some o) h =
      respond_answered url (get_order P id) w w o (find_by_id_run lawful id w o h)

  reprocess_dlq-Returns :
      (r : Result (Unit {0})) (v : World P)
      → reprocess_dlq_event P id w ≡ (r, v)
      → ReprocessEnd id w r v
      → Returns url id w (dead_letter_of w id)
  unfolding reprocess_dlq
  reprocess_dlq-Returns r v runs (ReprocessEnd.missing absent ended same) = rw absent (
      respond-Refuses url (reprocess_dlq P id) w v (dead_letter_not_found id)
        (rw (runs, ended) refl) (ap (λ u. u.db) same))
  reprocess_dlq-Returns r v runs (ReprocessEnd.restored d e found s ended row others letters) =
      rw found (
        ap (λ z. z.0)
          (respond_answered url (reprocess_dlq P id) w v
            (record { id = id; status = "reprocessed" }) (rw (runs, ended) refl)))
  reprocess_dlq-Returns r v runs (ReprocessEnd.recreated d n t found g ended fresh rows letters) =
      rw found (
        ap (λ z. z.0)
          (respond_answered url (reprocess_dlq P id) w v
            (record { id = id; status = "reprocessed" }) (rw (runs, ended) refl)))

  update-Changes :
      (m : Action P Order) (next : OrderStatus) (r : Result Order) (v : World P)
      → m w ≡ (r, v)
      → Updates w id next r v
      → Changes url m (λ s. IsAllowed s next) id next w
  update-Changes m next r v runs (Updates.missing absent ended same) = Changes.missing absent (
      respond-Refuses url m w v (order_not_found id) (runs ∙ ap (λ x. (x, v)) ended)
        (ap (λ u. u.db) same))
  update-Changes m next r v runs (Updates.refused o found illegal ended same) =
      Changes.conflicting o found illegal (
        respond-Refuses url m w v (invalid_transition o.status next) (runs ∙ ap (λ x. (x, v)) ended)
          (ap (λ u. u.db) same))
  update-Changes m next r v runs (Updates.changed o found allowed ended c) =
      Changes.changed o found allowed (
        ap (λ z. z.0)
          (respond_answered url m w v (record o { status = next }) (runs ∙ ap (λ x. (x, v)) ended)))

  force-Changes :
      (m : Action P Order) (next : OrderStatus) (actor : String) (reason : Option String)
      (r : Result Order) (v : World P)
      → m w ≡ (r, v)
      → Forces w id next actor reason r v
      → Changes url m Anything id next w
  force-Changes m next actor reason r v runs (Forces.missing absent ended same) =
      Changes.missing absent (
        respond-Refuses url m w v (order_not_found id) (runs ∙ ap (λ x. (x, v)) ended)
          (ap (λ u. u.db) same))
  force-Changes m next actor reason r v runs (Forces.changed o found ended c) =
      Changes.changed o found tt (
        ap (λ z. z.0)
          (respond_answered url m w v (record o { status = next }) (runs ∙ ap (λ x. (x, v)) ended)))

  -- What four requests that name an order or a dead letter are answered, on every branch. The
  -- look-up of an order: the order, or 404 if there is none. The change of a status: the order with
  -- that status, 409 if the state machine refuses the transition, or 404. The forced status: the
  -- order with that status, or 404. The reprocessing of a dead letter: its id with `reprocessed`,
  -- or, if there is none, 500 with the message of an internal error. The refusals name the missing
  -- id or the refused transition, except for the last one, and leave the database as it is.
  pub requests-Changes :
      (update : UpdateOrderStatusDto) (force : ForceOrderStatusDto)
      → Gets url id w (order_of w id)
        × Changes url
            (update_order_status P id update)
            (λ s. IsAllowed s update.status)
            id
            update.status
            w
        × Changes url (force_order_status P id force) Anything id force.status w
        × Returns url id w (dead_letter_of w id)
  unfolding update_order_status force_order_status
  requests-Changes update force =
      let actor = or_else force.actor "admin" in
      (
        get_order-Gets (order_of w id) refl,
        update-Changes (update_order_status P id update) update.status _ _ refl
            (update_status-Updates lawful id update.status w),
        force-Changes (force_order_status P id force) force.status actor force.reason _ _ refl
            (force_status-Forces lawful id force.status actor force.reason w),
        reprocess_dlq-Returns _ _ refl (reprocess_dlq_event-ReprocessEnd lawful id w),
      )
