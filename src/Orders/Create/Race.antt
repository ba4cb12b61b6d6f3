-- ===== src/Orders/Create/Race.antt =====
-- Two requests with one key at the same time: the other one has stored its order after this one has
-- looked for the key, so this one's transaction breaks the uniqueness of the key.
use order_orchestrator.Base.{String, none, some, ◌≡◌, ◌≢◌, refl, sym, subst, str_eq_of_ne}
use order_orchestrator.Platform.{Platform}
use order_orchestrator.Platform.Laws.{IsPlatform, unique_failed}
use order_orchestrator.Entities.{Order}
use order_orchestrator.Exceptions.{Exception, ok, err}
use order_orchestrator.World.{World, Action}
use order_orchestrator.World.Reads.{order_of_key}
use order_orchestrator.World.Laws.{find_order_by_key_run}
use order_orchestrator.World.Inserts.{insert_order_fails}
use order_orchestrator.Uuid.{generate_uuid_v7}
use order_orchestrator.Orders.Create.{
  CreateOrderDto, new_order, create_rows, next_id, find_existing, recover_create, try_create,
}
use order_orchestrator.Orders.Create.Contract.{first_id}

abbrev key_violation : Exception
key_violation = Exception.query_failed (unique_failed "orders.idempotencyKey")

module _ {P : Platform} (lawful : IsPlatform P) (k : String) (o : Order) (given : k ≢ "") where
  key_taken :
      (dto : CreateOrderDto) (id : String) (v : World P)
      → order_of_key v k ≡ some o
      → o.id ≢ id
      → create_rows P dto (some k) id v ≡ (err key_violation, v)
  unfolding create_rows
  key_taken dto id v found other =
      rw
        (insert_order_fails v (new_order dto (some k) id) (unique_failed "orders.idempotencyKey") (
          lawful.schema.orders.insert_taken v.db.orders (new_order dto (some k) id) o k refl found
            other))
        refl

  finds_other :
      (retry : Exception → Action P Order) (u : World P)
      → order_of_key u k ≡ some o
      → recover_create P (some k) key_violation retry u ≡ (ok o, u)
  unfolding recover_create find_existing
  finds_other retry u found =
      rw (str_eq_of_ne k "" given) (rw (find_order_by_key_run lawful u k, found) refl)

  -- If an order has got the key by the time of the first attempt, and the attempt's new id is
  -- another one than that order's, the attempts of `create` return that order and leave the database
  -- as it is.
  pub try_create_race :
      (dto : CreateOrderDto) (w : World P)
      → order_of_key w k ≡ some o
      → o.id ≢ first_id w
      → let (r, w') = try_create P dto (some k) 3 none w in (r ≡ ok o) × (w'.db ≡ w.db)
  unfolding try_create next_id
  try_create_race dto w found other =
      let (id, h) = generate_uuid_v7 P w.host in
      let v : World P = record w { host = h } in
      let u : World P = record v { db = P.rollback v.db v.db } in
      let same = lawful.rollback_lem v.db v.db in
      rw (key_taken dto id v found other) (
        rw
          (finds_other _ u
            (subst (λ d. order_of_key (record v { db = d }) k ≡ some o) (sym same) found))
          (refl, same))
