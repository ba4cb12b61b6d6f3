-- ===== src/Aggregates.antt =====
-- The four rows of one order, and how a call moves them while it leaves all other orders alone:
-- the language in which the effects of the saga are stated.
pub mod Compose
pub mod Effects
pub mod Status
use order_orchestrator.Base.{String, List, ◌++◌, ◌≡◌, ◌≢◌, some, map}
use order_orchestrator.Entities.{Order, Payment, InventoryReservation, Shipment, Payload, AuditLog}
use order_orchestrator.Platform.{Platform}
use order_orchestrator.World.{World}
use order_orchestrator.World.Reads.{
  order_of, payment_of, reservation_of, shipment_of, events, audit_logs,
}

pub record Aggregate : Type 0 where
  pub order : Order
  pub payment : Payment
  pub reservation : InventoryReservation
  pub shipment : Shipment

-- The database has these four rows under the id.
pub record Holds {P : Platform} (id : String) (w : World P) (a : Aggregate) : Type 0 where
  pub order_found : order_of w id ≡ some a.order
  pub payment_found : payment_of w id ≡ some a.payment
  pub reservation_found : reservation_of w id ≡ some a.reservation
  pub shipment_found : shipment_of w id ≡ some a.shipment

-- Two states have the same rows under an id.
pub record SameRows {P : Platform} (id : String) (w w' : World P) : Type 0 where
  pub same_order : order_of w' id ≡ order_of w id
  pub same_payment : payment_of w' id ≡ payment_of w id
  pub same_reservation : reservation_of w' id ≡ reservation_of w id
  pub same_shipment : shipment_of w' id ≡ shipment_of w id

-- The payloads of the outbox, in the order in which they were written.
abbrev pub sent : {P : Platform} → World P → List Payload
sent w = map (λ e. e.payload) (events w)

-- From `w` to `w'` the rows of the order have become `a`, these audit entries and these events
-- have been added, and no row of another order has changed.
pub record Moves {P : Platform} (id : String) (w w' : World P) (a : Aggregate)
    (logs : List AuditLog) (payloads : List Payload) : Type 0 where
  pub holds : Holds id w' a
  pub elsewhere : (j : String) → j ≢ id → SameRows j w w'
  pub logged : audit_logs w' ≡ audit_logs w ++ logs
  pub written : sent w' ≡ sent w ++ payloads
