-- ===== src/StateMachine/Diagram.antt =====
-- The diagram that the README and docs/architecture.md draw, and what follows from it.
use order_orchestrator.Base.{◌≡◌, refl, ◌⊎◌, inl, inr, arith}
use order_orchestrator.Entities.{OrderStatus}
use order_orchestrator.Exceptions.{ok, err}
use order_orchestrator.StateMachine.{assert_transition, invalid_transition}

-- `PENDING -> PAID -> SHIPPED`, `PENDING/PAID -> FAILED`
infix 40 ◌⟶◌ ◌⟶*◌
pub data ◌⟶◌ : OrderStatus → OrderStatus → Type 0 where
  pay : OrderStatus.pending ⟶ OrderStatus.paid
  ship : OrderStatus.paid ⟶ OrderStatus.shipped
  fail_pending : OrderStatus.pending ⟶ OrderStatus.failed
  fail_paid : OrderStatus.paid ⟶ OrderStatus.failed

-- The statuses that an order passes through, the last one first.
pub data ◌⟶*◌ (s : OrderStatus) : OrderStatus → Type 0 where
  here : s ⟶* s
  then : {t u : OrderStatus} → s ⟶* t → t ⟶ u → s ⟶* u

-- The requests that the diagram allows: to stay, or to follow an edge.
abbrev pub IsAllowed : OrderStatus → OrderStatus → Type 0
IsAllowed current next = (current ≡ next) ⊎ (current ⟶ next)

accepted :
    (current next : OrderStatus) → IsAllowed current next → assert_transition current next ≡ ok tt
unfolding assert_transition
accepted current next (inl same) = ground arith
accepted current next (inr pay) = refl
accepted current next (inr ship) = refl
accepted current next (inr fail_pending) = refl
accepted current next (inr fail_paid) = refl

pub IsAllowed-assert_transition :
    (current next : OrderStatus) → assert_transition current next ≡ ok tt → IsAllowed current next
unfolding assert_transition
IsAllowed-assert_transition current next h = grind (arith, pay, ship, fail_pending, fail_paid)

pub assert_transition-cases :
    (current next : OrderStatus)
    → (assert_transition current next ≡ ok tt)
      ⊎ (assert_transition current next ≡ err (invalid_transition current next))
unfolding assert_transition
assert_transition-cases current next = grind arith

-- A transition along the diagram, or from a status to itself, is accepted; every other one is
-- refused with a conflict that names both statuses.
pub assert_transition_complete :
    (current next : OrderStatus)
    → (IsAllowed current next → assert_transition current next ≡ ok tt)
      × (¬ IsAllowed current next
          → assert_transition current next ≡ err (invalid_transition current next))
assert_transition_complete current next = (
  accepted current next,
  λ h. elim (assert_transition-cases current next) [
    | inl allowed ↦ absurd (h (IsAllowed-assert_transition current next allowed))
    | inr refused ↦ refused
  ],
)

pub terminal_stays :
    {s t : OrderStatus} → s ⟶* t → (s ≡ OrderStatus.failed) ⊎ (s ≡ OrderStatus.shipped) → t ≡ s
terminal_stays here h = refl
terminal_stays (then r pay) h = ground (arith, terminal_stays r h)
terminal_stays (then r ship) h = ground (arith, terminal_stays r h)
terminal_stays (then r fail_pending) h = ground (arith, terminal_stays r h)
terminal_stays (then r fail_paid) h = ground (arith, terminal_stays r h)

shipped_by_paid :
    {s t : OrderStatus}
    → s ⟶* t
    → t ≡ OrderStatus.shipped
    → (s ≡ OrderStatus.shipped) ⊎ (s ⟶* OrderStatus.paid)
shipped_by_paid here h = inl h
shipped_by_paid (then r pay) h = cc
shipped_by_paid (then r ship) h = inr r
shipped_by_paid (then r fail_pending) h = cc
shipped_by_paid (then r fail_paid) h = cc
