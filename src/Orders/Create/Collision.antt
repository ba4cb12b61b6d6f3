-- ===== src/Orders/Create/Collision.antt =====
-- A new id that an order already has.
use order_orchestrator.Base.{String, Option, none, some, ◌≡◌, refl}
use order_orchestrator.Platform.{Platform}
use order_orchestrator.Platform.Laws.{IsPlatform, unique_failed}
use order_orchestrator.Entities.{Order, Payment}
use order_orchestrator.Exceptions.{Exception, err}
use order_orchestrator.World.{World, Action}
use order_orchestrator.World.Reads.{payment_of}
use order_orchestrator.World.Writes.{add_order}
use order_orchestrator.World.Inserts.{insert_order_run, insert_payment_fails}
use order_orchestrator.Uuid.{generate_uuid_v7}
use order_orchestrator.Orders.Create.{
  CreateOrderDto, new_order, create_rows, next_id, recover_create, try_create, create,
}
use order_orchestrator.Orders.Create.Rows.{new_rows}
use order_orchestrator.Orders.Create.Contract.{first_id, IsUnused, fits, unused_missing}

abbrev pub payment_violation : Exception
payment_violation = Exception.query_failed (unique_failed "payments.orderId")

module _ {P : Platform} (lawful : IsPlatform P) (dto : CreateOrderDto) (key : Option String) where
  payment_taken :
      (id : String) (v : World P) (p : Payment)
      → P.schema.orders.insert_error v.db.orders (new_order dto key id) ≡ none
      → payment_of v id ≡ some p
      → create_rows P dto key id v ≡ (err payment_violation, add_order v (new_order dto key id))
  unfolding create_rows
  payment_taken id v p free taken =
      let o = new_order dto key id in
      rw (insert_order_run v o free) (
        rw (insert_payment_fails lawful (add_order v o) (new_rows dto key id).payment p taken) refl)

  throws_on :
      (retry : Exception → Action P Order) (u : World P)
      → recover_create P key payment_violation retry u ≡ (err payment_violation, u)
  unfolding recover_create
  throws_on retry u = refl

  -- If a payment has the new id already, as when an order has it, `create` makes no other attempt:
  -- it throws the violation of the payment's uniqueness and leaves the database as it is.
  pub create_collides :
      (w : World P) (p : Payment)
      → IsUnused key w
      → payment_of w (first_id w) ≡ some p
      → let (r, w') = create P dto key w in (r ≡ err payment_violation) × (w'.db ≡ w.db)
  unfolding create try_create next_id
  create_collides w p unused taken =
      let (id, h) = generate_uuid_v7 P w.host in
      let v : World P = record w { host = h } in
      let x = add_order v (new_order dto key id) in
      rw (unused_missing lawful dto key w unused) (
        rw (payment_taken id v p (fits lawful dto key id w unused) taken) (
          rw (throws_on _ (record x { db = P.rollback v.db x.db }))
            (refl, lawful.rollback_lem v.db x.db)))
