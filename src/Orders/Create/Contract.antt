-- ===== src/Orders/Create/Contract.antt =====
-- What a caller of `create` can rely on: a new order goes through, a repeated key gives the same
-- order, and so does a key that another request has stored in between.
use order_orchestrator.Base.{
  String, Option, none, some, [], ◌∷◌, ◌≡◌, ◌≢◌, refl, str_eq, str_eq_of_ne, str_eq_refl,
  Bool-cases, inl, inr, first-append_none,
}
use order_orchestrator.Platform.{Platform}
use order_orchestrator.Platform.Laws.{IsPlatform, has_idempotency_key}
use order_orchestrator.Entities.{Order, NewEvent}
use order_orchestrator.Exceptions.{Result, ok}
use order_orchestrator.World.{World}
use order_orchestrator.World.Reads.{
  orders, order_of, order_of_key, payment_of, reservation_of, shipment_of,
}
use order_orchestrator.World.Laws.{find_order_by_key_run}
use order_orchestrator.Uuid.{generate_uuid_v7}
use order_orchestrator.Aggregates.{Aggregate, Moves}
use order_orchestrator.Aggregates.Compose.{on_db}
use order_orchestrator.Orders.Status.Laws.{find_by_id_run}
use order_orchestrator.Orders.Create.{
  CreateOrderDto, new_order, next_id, find_existing, try_create, create,
}
use order_orchestrator.Orders.Create.Rows.{
  new_rows, created_payload, new_event, with_rows, IsFree, RowsEnd, create_rows-RowsEnd,
  with_rows-Moves,
}

-- The id that the next attempt takes.
abbrev pub first_id : {P : Platform} → World P → String
first_id {P} w = (generate_uuid_v7 P w.host).0

-- The key is missing, or no order has it.
abbrev pub IsUnused : {P : Platform} → Option String → World P → Type 0
IsUnused none w = Unit {0}
IsUnused (some k) w = order_of_key w k ≡ none

-- Nothing in the database has the id, nor the key.
pub record IsFresh {P : Platform} (key : Option String) (id : String) (w : World P) : Type 0 where
  pub no_order : order_of w id ≡ none
  pub no_payment : payment_of w id ≡ none
  pub no_reservation : reservation_of w id ≡ none
  pub no_shipment : shipment_of w id ≡ none
  pub unused : IsUnused key w

module _ {P : Platform} (lawful : IsPlatform P) (dto : CreateOrderDto) where
  pub fits :
      (key : Option String) (id : String) (w : World P)
      → IsUnused key w
      → P.schema.orders.insert_error w.db.orders (new_order dto key id) ≡ none
  fits none id w unused = lawful.schema.orders.insert_unkeyed w.db.orders _ refl
  fits (some k) id w unused = lawful.schema.orders.insert_free w.db.orders _ k refl unused

  pub unused_missing :
      (key : Option String) (w : World P) → IsUnused key w → find_existing P key w ≡ (ok none, w)
  unfolding find_existing
  unused_missing none w unused = refl
  unused_missing (some k) w unused = elim (Bool-cases (str_eq k "")) [
    | inl blank ↦ rw blank refl
    | inr given ↦ rw given (rw (find_order_by_key_run lawful w k, unused) refl)
  ]

  free_run :
      (a : Aggregate) (e : NewEvent) (id : String) (v : World P) (r : Result (Unit {0}))
      (x : World P)
      → IsFree a.order id v
      → RowsEnd a e id v r x
      → ◌≡◌ {A = Result (Unit {0}) × World P} (r, x) (ok tt, with_rows a e v)
  free_run a e id v r x free (RowsEnd.added g ended left) = rw (ended, left) refl
  free_run a e id v r x free (RowsEnd.refused y taken ended) = absurd (taken free)

  -- The state that a fresh creation leaves.
  abbrev pub stored_world : Option String → World P → World P
  stored_world key w =
      let (id, h) = generate_uuid_v7 P w.host in
      with_rows (new_rows dto key id) (new_event dto id) (record w { host = h })

  pub create_run :
      (key : Option String) (w : World P)
      → IsFresh key (first_id w) w
      → create P dto key w ≡ (ok (new_order dto key (first_id w)), stored_world key w)
  unfolding create try_create next_id
  create_run key w fresh =
      let (id, h) = generate_uuid_v7 P w.host in
      let v : World P = record w { host = h } in
      let a = new_rows dto key id in
      let x = with_rows a (new_event dto id) v in
      let free : IsFree a.order id v = record {
        order_fits = fits key id w fresh.unused;
        no_payment = fresh.no_payment;
        no_reservation = fresh.no_reservation;
        no_shipment = fresh.no_shipment;
      } in
      let m =
        with_rows-Moves lawful a (new_event dto id) id v refl refl refl refl fresh.no_payment
          fresh.no_reservation fresh.no_shipment in
      rw (unused_missing key w fresh.unused) (
        rw (free_run a (new_event dto id) id v _ _ free (create_rows-RowsEnd lawful dto key id v)) (
          rw (lawful.commit_lem v.db x.db)
            (find_by_id_run lawful id x a.order m.holds.order_found)))

  -- With an id and a key that nothing in the database has, `create` returns a new pending order; it
  -- has stored its payment, reservation and shipment and written one event, and no row of another
  -- order has changed.
  pub create_fresh :
      (key : Option String) (w : World P)
      → IsFresh key (first_id w) w
      → let (r, w') = create P dto key w in
        (r ≡ ok (new_order dto key (first_id w)))
        × Moves
            (first_id w)
            w
            w'
            (new_rows dto key (first_id w))
            []
            (created_payload dto (first_id w) ∷ [])
  create_fresh key w fresh =
      let (id, h) = generate_uuid_v7 P w.host in
      let v : World P = record w { host = h } in
      rw (create_run key w fresh) (
        refl,
        on_db id v (stored_world key w) w (stored_world key w) (new_rows dto key id) [] _ refl refl
            (with_rows-Moves lawful (new_rows dto key id) (new_event dto id) id v refl refl refl
              refl fresh.no_payment fresh.no_reservation fresh.no_shipment),
      )

  -- A request with a key that an order has gets that order, and nothing changes.
  returns_existing :
      (k : String) (w : World P) (o : Order)
      → k ≢ ""
      → order_of_key w k ≡ some o
      → create P dto (some k) w ≡ (ok o, w)
  unfolding create find_existing
  returns_existing k w o given found =
      rw (str_eq_of_ne k "" given) (rw (find_order_by_key_run lawful w k, found) refl)

  key_stored :
      (k : String) (w : World P)
      → IsFresh (some k) (first_id w) w
      → order_of_key (stored_world (some k) w) k ≡ some (new_order dto (some k) (first_id w))
  key_stored k w fresh =
      rw
        (lawful.schema.orders.insert_new w.db.orders (new_order dto (some k) (first_id w))
          fresh.no_order)
        (rw
          (first-append_none (has_idempotency_key k) (orders w)
            (new_order dto (some k) (first_id w) ∷ []) fresh.unused)
          (rw (str_eq_refl k) refl))

module _ {P : Platform} (lawful : IsPlatform P) where
  -- A request that is repeated with the same key, whatever it asks for, gets the order that the
  -- first one has stored, and changes nothing.
  pub create_repeated :
      (dto dto' : CreateOrderDto) (k : String) (w : World P)
      → k ≢ ""
      → IsFresh (some k) (first_id w) w
      → let w' = (create P dto (some k) w).1 in
        create P dto' (some k) w' ≡ (ok (new_order dto (some k) (first_id w)), w')
  create_repeated dto dto' k w given fresh = rw (create_run lawful dto (some k) w fresh) (
      returns_existing lawful dto' k (stored_world lawful dto (some k) w) _ given
        (key_stored lawful dto k w fresh))
