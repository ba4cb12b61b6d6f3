-- ===== src/Tests/Worlds.antt =====
-- States of the tables in memory: one order with its rows.
use order_orchestrator.Base.{false, none, some, [], ◌∷◌, refl}
use order_orchestrator.Entities.{
  Order, OrderStatus, PaymentStatus, InventoryReservationStatus, ShipmentStatus,
}
use order_orchestrator.Platform.Memory.{memory_platform}
use order_orchestrator.World.{World, Rules}
use order_orchestrator.Aggregates.{Aggregate, Holds}
use order_orchestrator.Saga.{shipment_key}

abbrev pub some_order : OrderStatus → Order
some_order status = record {
  id = "order-0001";
  customer_id = "customer-1";
  status = status;
  items = record { sku = "toy"; qty = 2; price = 500 } ∷ [];
  total_amount = 1000;
  idempotency_key = some "key-1";
}

abbrev pub some_rows : OrderStatus → Aggregate
some_rows status = record {
  order = some_order status;
  payment = record {
    order_id = "order-0001";
    status = PaymentStatus.pending;
    amount = 1000;
    processed_at = none;
  };
  reservation = record {
    order_id = "order-0001";
    status = InventoryReservationStatus.reserved;
    reservations = record { sku = "toy"; qty = 2 } ∷ [];
  };
  shipment = record {
    order_id = "order-0001";
    status = ShipmentStatus.requested;
    carrier = none;
    tracking_number = none;
    shipped_at = none;
  };
}

abbrev pub some_world : OrderStatus → Rules → World memory_platform
some_world status rules =
    let a = some_rows status in
    record {
      db = record {
        orders = a.order ∷ [];
        payments = a.payment ∷ [];
        reservations = a.reservation ∷ [];
        shipments = a.shipment ∷ [];
        outbox = [];
        dead_letters = [];
        audit_logs = [];
      };
      rules = rules;
      host = record { clock_reads = 0; random_reads = 0; last_timestamp_ms = none; sequence = 0 };
      metrics = [];
      processor = record { active_dispatch_count = 0; shutting_down = false; polls_every = none };
    }

pub some_world-Holds :
    (status : OrderStatus) (rules : Rules)
    → Holds "order-0001" (some_world status rules) (some_rows status)
some_world-Holds status rules = record {
  order_found = refl;
  payment_found = refl;
  reservation_found = refl;
  shipment_found = refl;
}

-- One failure of the shipment step.
abbrev pub one_failure : Rules
one_failure = (shipment_key, record { fail_count = 1; expires_at = none }) ∷ []

abbrev pub pending_world : World memory_platform
pending_world = some_world OrderStatus.pending one_failure

abbrev pub failed_world : World memory_platform
failed_world = some_world OrderStatus.failed []

abbrev pub empty_world : World memory_platform
empty_world = record {
  db = record {
    orders = [];
    payments = [];
    reservations = [];
    shipments = [];
    outbox = [];
    dead_letters = [];
    audit_logs = [];
  };
  rules = [];
  host = record { clock_reads = 0; random_reads = 0; last_timestamp_ms = none; sequence = 0 };
  metrics = [];
  processor = record { active_dispatch_count = 0; shutting_down = false; polls_every = none };
}
