-- ===== src/Consumer.antt =====
-- The consumer of the outbox events (src/orders/order-event-consumer.service.ts).
pub mod Contract
use order_orchestrator.Base.{String, text_append, str_eq, if◌then◌else◌}
use order_orchestrator.Platform.{Platform}
use order_orchestrator.Entities.{OutboxEvent, created_event, status_changed_event}
use order_orchestrator.Exceptions.{Exception}
use order_orchestrator.World.{Action, ◌>>◌, pure, throw}
use order_orchestrator.FailureInjection.{throw_if_configured}
use order_orchestrator.Saga.{handle_order_created}

-- `EVENT:${event.eventType}`
abbrev pub event_key : OutboxEvent → String
event_key event = text_append "EVENT:" event.event_type

-- `Injected failure for ${event.eventType}`
abbrev pub injected_text : OutboxEvent → String
injected_text event = text_append "Injected failure for " event.event_type

-- `Unsupported event type: ${event.eventType}`
abbrev pub unsupported : OutboxEvent → Exception
unsupported event = Exception.error (text_append "Unsupported event type: " event.event_type)

module _ (P : Platform) where
  -- The `switch` on the type of the event.
  abbrev pub handle_event : OutboxEvent → Action P (Unit {0})
  handle_event event =
      if str_eq event.event_type created_event
      then handle_order_created P event.aggregate_id
      else if str_eq event.event_type status_changed_event
      then pure tt
      else throw (unsupported event)

  unfoldable pub consume : OutboxEvent → Action P (Unit {0})
  consume event =
      throw_if_configured P (event_key event) (injected_text event) >> handle_event event
