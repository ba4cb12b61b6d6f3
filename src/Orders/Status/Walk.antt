-- ===== src/Orders/Status/Walk.antt =====
-- A series of `updateStatus` requests on one order walks along the diagram of the statuses.
use order_orchestrator.Base.{String, some, List, [], ◌∷◌, ◌≡◌, refl, sym, ◌∙◌, ◌⊎◌, inl, inr, subst}
use order_orchestrator.Entities.{Order, OrderStatus}
use order_orchestrator.Platform.{Platform}
use order_orchestrator.Platform.Laws.{IsPlatform}
use order_orchestrator.Exceptions.{Result}
use order_orchestrator.World.{World}
use order_orchestrator.World.Reads.{order_of}
use order_orchestrator.StateMachine.Diagram.{◌⟶◌, ◌⟶*◌, IsAllowed, terminal_stays}
use order_orchestrator.Orders.Status.{update_status}
use order_orchestrator.Orders.Status.Laws.{Updates, order_of-StatusChanged}
use order_orchestrator.Orders.Status.Contract.{update_status-Updates}

first_edge : {s t u : OrderStatus} → s ⟶ t → t ⟶* u → s ⟶* u
first_edge e ◌⟶*◌.here = ◌⟶*◌.then ◌⟶*◌.here e
first_edge e (◌⟶*◌.then r f) = ◌⟶*◌.then (first_edge e r) f

allowed_then : {s t u : OrderStatus} → IsAllowed s t → t ⟶* u → s ⟶* u
allowed_then {u = u} (inl same) r = subst (λ x. x ⟶* u) (sym same) r
allowed_then (inr e) r = first_edge e r

-- The state after the requests, whether they have been refused or not.
abbrev pub after_updates : (P : Platform) → String → List OrderStatus → World P → World P
after_updates P id [] w = w
after_updates P id (next ∷ nexts) w = after_updates P id nexts (update_status P id next w).1

module _ {P : Platform} (lawful : IsPlatform P) (id : String) where
  -- One request moves the order along one edge at most.
  update_step :
      (w : World P) (o : Order) (next : OrderStatus) (r : Result Order) (w' : World P)
      → order_of w id ≡ some o
      → Updates w id next r w'
      → (p : Order) × (order_of w' id ≡ some p) × IsAllowed o.status p.status
  update_step w o next r w' found (Updates.missing absent e same) = cc (sym absent ∙ found)
  update_step w o next r w' found (Updates.refused q found' bad e same) =
      (o, rw same found, inl refl)
  update_step w o next r w' found (Updates.changed q found' allowed e changed) =
      let same : q ≡ o = cc (sym found' ∙ found) in
      (
        record q { status = next },
        order_of-StatusChanged lawful w w' q next _ id found' changed,
        subst (λ x. IsAllowed x.status next) same allowed,
      )

  -- However many `updateStatus` requests come for an order that is there, and whichever of them are
  -- refused, the order is still there and its status has been reached along the diagram; so a failed
  -- or a shipped order keeps its status.
  pub update_status_walks :
      (nexts : List OrderStatus) (w : World P) (o : Order)
      → order_of w id ≡ some o
      → (p : Order) × (order_of (after_updates P id nexts w) id ≡ some p)
        × (o.status ⟶* p.status)
        × ((o.status ≡ OrderStatus.failed) ⊎ (o.status ≡ OrderStatus.shipped) → p.status ≡ o.status)
  update_status_walks [] w o found = (o, found, ◌⟶*◌.here, λ _. refl)
  update_status_walks (next ∷ nexts) w o found =
      let (q, found_q, allowed) =
        update_step w o next _ _ found (update_status-Updates lawful id next w) in
      let (p, found_p, walked, stays) =
        update_status_walks nexts (update_status P id next w).1 q found_q in
      let whole = allowed_then allowed walked in (p, found_p, whole, terminal_stays whole)
