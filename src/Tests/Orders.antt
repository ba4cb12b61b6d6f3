-- ===== src/Tests/Orders.antt =====
-- The methods of the orders service on concrete states.
use order_orchestrator.Base.{
  str_eq_refl, String, none, some, true, List, [], ◌∷◌, ◌≡◌, ◌≢◌, refl, ◌⊎◌, arith, eq_iff,
}
use order_orchestrator.Entities.{Order, OrderStatus}
use order_orchestrator.Platform.Memory.{memory_platform, memory_platform-IsPlatform}
use order_orchestrator.Exceptions.{Exception, ok, err}
use order_orchestrator.StateMachine.Diagram.{◌⟶*◌}
use order_orchestrator.World.Reads.{order_of, payment_of}
use order_orchestrator.Orders.Status.{update_status, force_status}
use order_orchestrator.Orders.Status.Laws.{Updates, Forces}
use order_orchestrator.Orders.Status.Contract.{update_status-Updates, force_status-Forces}
use order_orchestrator.Orders.Status.Walk.{after_updates, update_status_walks}
use order_orchestrator.Orders.Create.{
  CreateOrderDto, new_order, create, try_create, is_order_id_violation,
}
use order_orchestrator.Orders.Create.Rows.{new_rows, created_payload}
use order_orchestrator.Orders.Create.Attempts.{CreateEnd, create-CreateEnd}
use order_orchestrator.Orders.Create.Contract.{first_id, IsFresh, create_fresh, create_repeated}
use order_orchestrator.Orders.Create.Collision.{payment_violation, create_collides}
use order_orchestrator.Entities.{PaymentStatus}
use order_orchestrator.World.{World}
use order_orchestrator.Orders.Create.Race.{try_create_race}
use order_orchestrator.Platform.Laws.{unique_failed}
use order_orchestrator.Aggregates.{Moves}
use order_orchestrator.Uuid.{
  generate_uuid_v7, uuid_text, hex, next_timestamp_and_sequence, next_sequence, start_sequence,
  random_sequence, read_past,
}
use order_orchestrator.Outbox.OrderFlow.{Ships, next_event_id, create-Ships}
use order_orchestrator.Tests.Worlds.{some_order, pending_world, empty_world}

update_status-Updates_example :
    let (r, w') = update_status memory_platform "order-0001" OrderStatus.shipped pending_world in
    Updates pending_world "order-0001" OrderStatus.shipped r w'
update_status-Updates_example =
    update_status-Updates memory_platform-IsPlatform "order-0001" OrderStatus.shipped pending_world

force_status-Forces_example :
    let (r, w') =
      force_status memory_platform "order-0001" OrderStatus.failed "admin"
        (some "lost")
        pending_world in
    Forces pending_world "order-0001" OrderStatus.failed "admin" (some "lost") r w'
force_status-Forces_example =
    force_status-Forces memory_platform-IsPlatform "order-0001" OrderStatus.failed "admin"
      (some "lost") pending_world

abbrev requests : List OrderStatus
requests = OrderStatus.shipped ∷ OrderStatus.paid ∷ OrderStatus.shipped ∷ OrderStatus.failed ∷ []

update_status_walks_example :
    (p : Order) × (order_of
        (after_updates memory_platform "order-0001" requests pending_world)
        "order-0001"
      ≡ some p)
    × (OrderStatus.pending ⟶* p.status)
    × ((OrderStatus.pending ≡ OrderStatus.failed) ⊎ (OrderStatus.pending ≡ OrderStatus.shipped)
        → p.status ≡ OrderStatus.pending)
update_status_walks_example =
    update_status_walks memory_platform-IsPlatform "order-0001" requests pending_world
      (some_order OrderStatus.pending) refl

abbrev two_toys : CreateOrderDto
two_toys = record {
  customer_id = "customer-1";
  items = record { sku = "toy"; qty = 2; price = 500 } ∷ [];
}

empty_world-IsFresh : IsFresh (some "key-1") (first_id empty_world) empty_world
empty_world-IsFresh = record {
  no_order = refl;
  no_payment = refl;
  no_reservation = refl;
  no_shipment = refl;
  unused = refl;
}

given_key : ◌≢◌ {A = String} "key-1" ""
given_key = ground (arith, eq_iff "key-1" "")

create-CreateEnd_example :
    let (r, w') = create memory_platform two_toys (some "key-1") pending_world in
    CreateEnd two_toys (some "key-1") pending_world r w'
create-CreateEnd_example =
    create-CreateEnd memory_platform-IsPlatform two_toys (some "key-1") pending_world

create_fresh_example :
    let (r, w') = create memory_platform two_toys (some "key-1") empty_world in
    let id = first_id empty_world in
    (r ≡ ok (new_order two_toys (some "key-1") id))
    × Moves id empty_world w'
        (new_rows two_toys (some "key-1") id)
        []
        (created_payload two_toys id ∷ [])
create_fresh_example =
    create_fresh memory_platform-IsPlatform two_toys (some "key-1") empty_world empty_world-IsFresh

create-Ships_example :
    Ships
      (next_event_id empty_world)
      (first_id empty_world)
      (new_rows two_toys (some "key-1") (first_id empty_world))
      (create memory_platform two_toys (some "key-1") empty_world).1
create-Ships_example =
    create-Ships memory_platform-IsPlatform two_toys (some "key-1") empty_world empty_world-IsFresh
      (record { no_event = refl; no_payment = refl; no_inventory = refl; no_shipment = refl })

create_repeated_example :
    let w' = (create memory_platform two_toys (some "key-1") empty_world).1 in
    create memory_platform two_toys (some "key-1") w'
    ≡ (ok (new_order two_toys (some "key-1") (first_id empty_world)), w')
create_repeated_example =
    create_repeated memory_platform-IsPlatform two_toys two_toys "key-1" empty_world given_key
      empty_world-IsFresh

other_id : ◌≢◌ {A = String} "order-0001" (first_id pending_world)
unfolding generate_uuid_v7 uuid_text hex next_timestamp_and_sequence next_sequence start_sequence
    random_sequence read_past
other_id = ground (arith, eq_iff "order-0001" (first_id pending_world))

try_create_race_example :
    let (r, w') = try_create memory_platform two_toys (some "key-1") 3 none pending_world in
    (r ≡ ok (some_order OrderStatus.pending)) × (w'.db ≡ pending_world.db)
try_create_race_example =
    try_create_race memory_platform-IsPlatform "key-1" (some_order OrderStatus.pending) given_key
      two_toys pending_world refl other_id

-- A payment that has the id of the next attempt.
abbrev colliding_world : World memory_platform
colliding_world = record empty_world {
  db = record (empty_world.db) {
    payments =
        record {
          order_id = first_id empty_world;
          status = PaymentStatus.pending;
          amount = 1000;
          processed_at = none;
        }
        ∷ [];
  };
}

colliding_world-taken :
    payment_of colliding_world (first_id colliding_world)
    ≡ some (record {
      order_id = first_id empty_world;
      status = PaymentStatus.pending;
      amount = 1000;
      processed_at = none;
    })
colliding_world-taken = rw (str_eq_refl (first_id empty_world)) refl

create_collides_example :
    let (r, w') = create memory_platform two_toys none colliding_world in
    (r ≡ err payment_violation) × (w'.db ≡ colliding_world.db)
create_collides_example =
    create_collides memory_platform-IsPlatform two_toys none colliding_world _ tt
      colliding_world-taken

-- The test for a violation of the id also passes for a violation of the key.
key_violation_test :
    is_order_id_violation (Exception.query_failed (unique_failed "orders.idempotencyKey")) ≡ true
key_violation_test = refl
