-- ===== src/Orders/Create/Attempts.antt =====
-- How `create` ends, attempt by attempt.
use order_orchestrator.Base.{
  ℕ, zero, suc, String, Option, none, some, [], ◌∷◌, ◌≡◌, ◌≢◌, refl, sym, ◌∙◌, subst, inl, inr,
  str_eq, eq_iff, arith, Bool-cases, Option-cases,
}
use order_orchestrator.Platform.{Platform}
use order_orchestrator.Platform.Laws.{IsPlatform}
use order_orchestrator.Entities.{Order}
use order_orchestrator.Exceptions.{Exception, Result, ok, err}
use order_orchestrator.World.{World, Action, continue, end_transaction}
use order_orchestrator.World.Reads.{order_of_key}
use order_orchestrator.World.Laws.{find_order_by_key_run}
use order_orchestrator.Uuid.{generate_uuid_v7}
use order_orchestrator.Aggregates.{Moves}
use order_orchestrator.Aggregates.Compose.{on_db}
use order_orchestrator.Orders.Status.Laws.{find_by_id_run}
use order_orchestrator.Orders.Create.{
  CreateOrderDto, new_order, next_id, find_existing, recover_create, return_or, retry_or_throw,
  end_attempt, try_create, create, is_idempotency_violation, is_order_id_violation,
}
use order_orchestrator.Orders.Create.Rows.{
  new_rows, created_payload, new_event, with_rows, RowsEnd, create_rows-RowsEnd, with_rows-Moves,
}

-- How `create` ends: a new order is stored, or an order that has the key is returned, or it throws;
-- in the last two cases the database is as before.
pub data CreateEnd {P : Platform} (dto : CreateOrderDto) (key : Option String) (w : World P)
    (r : Result Order) (w' : World P) : Type 0 where
  stored :
      (id : String)
      → r ≡ ok (new_order dto key id)
      → Moves id w w' (new_rows dto key id) [] (created_payload dto id ∷ [])
      → CreateEnd dto key w r w'
  existing :
      (k : String) (o : Order)
      → key ≡ some k
      → k ≢ ""
      → order_of_key w k ≡ some o
      → r ≡ ok o
      → w'.db ≡ w.db
      → CreateEnd dto key w r w'
  failed : (e : Exception) → r ≡ err e → w'.db ≡ w.db → CreateEnd dto key w r w'

-- What the look-up by the key finds.
pub data Found {P : Platform} (key : Option String) (w : World P)
    (x : Result (Option Order) × World P) : Type 0 where
  nothing : x ≡ (ok none, w) → Found key w x
  order_with :
      (k : String) (o : Order)
      → key ≡ some k
      → k ≢ ""
      → order_of_key w k ≡ some o
      → x ≡ (ok (some o), w)
      → Found key w x

module _ {P : Platform} (lawful : IsPlatform P) where
  pub find_existing-Found :
      (key : Option String) (w : World P) → Found key w (find_existing P key w)
  unfolding find_existing
  find_existing-Found none w = Found.nothing refl
  find_existing-Found (some k) w = elim (Bool-cases (str_eq k "")) [
    | inl blank ↦ rw blank (Found.nothing refl)
    | inr given ↦ rw given (
        rw (find_order_by_key_run lawful w k) (elim (Option-cases (order_of_key w k)) [
          | inl absent ↦ rw absent (Found.nothing refl)
          | inr (o, found) ↦
              Found.order_with k o refl (ground (arith, eq_iff k "")) found (rw found refl)
        ]))
  ]

module _ {P : Platform} (dto : CreateOrderDto) (key : Option String) (w u : World P)
    (same : u.db ≡ w.db) where
  -- What has ended from a state has ended from every state with the same database.
  CreateEnd-on :
      (r : Result Order) (w' : World P) → CreateEnd dto key u r w' → CreateEnd dto key w r w'
  CreateEnd-on r w' (CreateEnd.stored id e m) =
      CreateEnd.stored id e (on_db id u w' w w' _ _ _ (sym same) refl m)
  CreateEnd-on r w' (CreateEnd.existing k o is_key given found e kept) =
      CreateEnd.existing k o is_key given
        (subst (λ d. order_of_key (record w { db = d }) k ≡ some o) same found) e (kept ∙ same)
  CreateEnd-on r w' (CreateEnd.failed x e kept) = CreateEnd.failed x e (kept ∙ same)

module _ {P : Platform} (lawful : IsPlatform P) (dto : CreateOrderDto) (key : Option String)
    (w : World P) where
  abbrev Ends : Action P Order → World P → Type 0
  Ends m u = let (r, w') = m u in CreateEnd dto key w r w'

  retry_or_throw-CreateEnd :
      (e : Exception) (retry : Exception → Action P Order) (u : World P)
      → u.db ≡ w.db
      → Ends (retry e) u
      → Ends (retry_or_throw P e retry) u
  retry_or_throw-CreateEnd e retry u same again = elim (Bool-cases (is_order_id_violation e)) [
    | inl violates ↦ rw violates again
    | inr other ↦ rw other (CreateEnd.failed e refl same)
  ]

  -- A look-up by the key, and what follows if it finds nothing.
  return_or-CreateEnd :
      (x : Result (Option Order) × World P) (rest : Action P Order) (u : World P)
      → u.db ≡ w.db
      → Ends rest u
      → Found key u x
      → let (r, w') = continue x (λ found. return_or P found rest) in CreateEnd dto key w r w'
  return_or-CreateEnd x rest u same again (Found.nothing e) = rw e again
  return_or-CreateEnd x rest u same again (Found.order_with k o is_key given found e) =
      rw e (
        CreateEnd-on dto key w u same (ok o) u
          (CreateEnd.existing k o is_key given found refl refl))

  -- The `catch` of an attempt whose transaction has been rolled back.
  recover_create-CreateEnd :
      (e : Exception) (retry : Exception → Action P Order) (u : World P)
      → u.db ≡ w.db
      → Ends (retry e) u
      → Ends (recover_create P key e retry) u
  unfolding recover_create
  recover_create-CreateEnd e retry u same again =
      let rest = retry_or_throw-CreateEnd e retry u same again in
      elim (Bool-cases (is_idempotency_violation e)) [
        | inr other ↦ rw other rest
        | inl violates ↦ rw violates (
            return_or-CreateEnd (find_existing P key u) (retry_or_throw P e retry) u same rest
              (find_existing-Found lawful key u))
      ]

  -- The transaction of an attempt and what follows it.
  end_attempt-CreateEnd :
      (id : String) (retry : Exception → Action P Order) (u : World P) (r : Result (Unit {0}))
      (x : World P)
      → u.db ≡ w.db
      → ((e : Exception) (v : World P) → v.db ≡ w.db → Ends (retry e) v)
      → RowsEnd (new_rows dto key id) (new_event dto id) id u r x
      → let (r', w') = end_attempt P key id retry (end_transaction u.db (r, x)) in
        CreateEnd dto key w r' w'
  end_attempt-CreateEnd id retry u r x same again (RowsEnd.refused e taken ended) = rw ended (
      recover_create-CreateEnd e retry (record x { db = P.rollback u.db x.db })
        (lawful.rollback_lem u.db x.db ∙ same)
        (again e (record x { db = P.rollback u.db x.db }) (lawful.rollback_lem u.db x.db ∙ same)))
  end_attempt-CreateEnd id retry u r x same again (RowsEnd.added free ended left) =
      let a = new_rows dto key id in
      let v = with_rows a (new_event dto id) u in
      let m =
        with_rows-Moves lawful a (new_event dto id) id u refl refl refl refl free.no_payment
          free.no_reservation free.no_shipment in
      rw (ended, left)
        (rw (lawful.commit_lem u.db v.db) (
          rw (find_by_id_run lawful id v a.order m.holds.order_found)
            (CreateEnd-on dto key w u same (ok a.order) v (CreateEnd.stored id refl m))))

module _ {P : Platform} (lawful : IsPlatform P) (dto : CreateOrderDto) (key : Option String)
    (w : World P) where
  try_create-CreateEnd :
      (attempts : ℕ) (last_error : Option Exception) (u : World P)
      → u.db ≡ w.db
      → let (r, w') = try_create P dto key attempts last_error u in CreateEnd dto key w r w'
  unfolding try_create next_id
  try_create-CreateEnd zero last_error u same = CreateEnd.failed _ refl same
  try_create-CreateEnd (suc attempts) last_error u same =
      let (id, h) = generate_uuid_v7 P u.host in
      let v : World P = record u { host = h } in
      end_attempt-CreateEnd lawful dto key w id (λ e. try_create P dto key attempts (some e)) v _ _
        same (λ e x kept. try_create-CreateEnd attempts (some e) x kept)
        (create_rows-RowsEnd lawful dto key id v)

  -- `create` stores a new pending order with its payment, reservation, shipment and event, and
  -- returns it; or it returns an order that has the key; or it throws. Unless it stores one, the
  -- database is as before.
  pub create-CreateEnd : let (r, w') = create P dto key w in CreateEnd dto key w r w'
  unfolding create
  create-CreateEnd =
      return_or-CreateEnd lawful dto key w (find_existing P key w) (try_create P dto key 3 none) w
        refl (try_create-CreateEnd 3 none w refl) (find_existing-Found lawful key w)
