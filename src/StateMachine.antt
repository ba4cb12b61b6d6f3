-- ===== src/StateMachine.antt =====
-- The order state machine (src/orders/order-state-machine.service.ts).
pub mod Diagram
use order_orchestrator.Base.{List, [], ◌∷◌, Bool, true, false, ◌||◌, text_append, if◌then◌else◌}
use order_orchestrator.Entities.{OrderStatus, status_eq, status_text}
use order_orchestrator.Exceptions.{Exception, Result, ok, err}

-- `allowedTransitions`
unfoldable pub allowed_transitions : OrderStatus → List OrderStatus
allowed_transitions OrderStatus.pending = OrderStatus.paid ∷ OrderStatus.failed ∷ []
allowed_transitions OrderStatus.paid = OrderStatus.shipped ∷ OrderStatus.failed ∷ []
allowed_transitions OrderStatus.failed = []
allowed_transitions OrderStatus.shipped = []

-- `allowed.includes(next)`
abbrev pub contains_status : List OrderStatus → OrderStatus → Bool
contains_status [] next = false
contains_status (s ∷ allowed) next = status_eq s next || contains_status allowed next

-- `Invalid order state transition: ${current} -> ${next}`
abbrev pub invalid_transition : OrderStatus → OrderStatus → Exception
invalid_transition current next = Exception.conflict (
    text_append "Invalid order state transition: "
      (text_append (status_text current) (text_append " -> " (status_text next))))

unfoldable pub assert_transition : OrderStatus → OrderStatus → Result (Unit {0})
unfolding allowed_transitions
assert_transition current next =
    if status_eq current next
    then ok tt
    else if contains_status (allowed_transitions current) next
    then ok tt
    else err (invalid_transition current next)
