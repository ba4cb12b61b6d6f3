-- ===== src/Orders.antt =====
-- `OrdersService` (src/orders/orders.service.ts): the status of an order, and its creation.
pub mod Status
pub mod Create
