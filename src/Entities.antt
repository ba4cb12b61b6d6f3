-- ===== src/Entities.antt =====
-- The rows of the seven tables (src/orders/entities/*.entity.ts), the status enum and the event
-- types (src/orders/order-status.enum.ts, order-events.constants.ts).
-- A `Date` is its number of milliseconds. The columns that the database fills and no service reads
-- are left out: the generated `id` of the payment, reservation, shipment and audit rows, the
-- relation fields, and `createdAt` and `updatedAt` where no query sorts by them.
mod Aggregate
mod Events
pub use Aggregate.*
pub use Events.*
