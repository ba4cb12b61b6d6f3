-- ===== src/Orders/Status/Contract.antt =====
-- `updateStatus` and `forceStatus` do what `Updates` and `Forces` say, on every branch.
use order_orchestrator.Base.{String, Option, none, true, false, refl, Option-cases, inl, inr}
use order_orchestrator.Entities.{OrderStatus}
use order_orchestrator.Platform.{Platform}
use order_orchestrator.Platform.Laws.{IsPlatform}
use order_orchestrator.StateMachine.Diagram.{
  IsAllowed-assert_transition, assert_transition-cases, assert_transition_complete,
}
use order_orchestrator.World.{World}
use order_orchestrator.World.Reads.{order_of}
use order_orchestrator.Orders.Status.{update_status, force_status}
use order_orchestrator.Orders.Status.Runs.{persist_status_change_missing}
use order_orchestrator.Orders.Status.Laws.{
  Updates, Forces, find_by_id_run, find_by_id_missing, change_then_find,
}

module _ {P : Platform} (lawful : IsPlatform P) where
  -- `forceStatus` throws and changes nothing if the order is missing, and otherwise sets the
  -- status, whatever it was.
  pub force_status-Forces :
      (id : String) (next : OrderStatus) (actor : String) (reason : Option String) (w : World P)
      → let (r, w') = force_status P id next actor reason w in Forces w id next actor reason r w'
  unfolding force_status
  force_status-Forces id next actor reason w = elim (Option-cases (order_of w id)) [
    | inl absent ↦
        rw (persist_status_change_missing lawful id next true actor reason w absent)
          (Forces.missing absent refl refl)
    | inr (o, found) ↦
        let (w', persisted, read, changed) =
          change_then_find lawful id next true actor reason w o found in
        rw persisted (rw read (Forces.changed o found refl changed))
  ]

  -- `updateStatus` throws and changes nothing if the order is missing or the state machine refuses
  -- the transition; otherwise it changes the status.
  pub update_status-Updates :
      (id : String) (next : OrderStatus) (w : World P)
      → let (r, w') = update_status P id next w in Updates w id next r w'
  unfolding update_status
  update_status-Updates id next w = elim (Option-cases (order_of w id)) [
    | inl absent ↦ rw (find_by_id_missing lawful id w absent) (Updates.missing absent refl refl)
    | inr (o, found) ↦
        rw (find_by_id_run lawful id w o found) (elim (assert_transition-cases o.status next) [
          | inl allowed ↦
              let (w', persisted, read, changed) =
                change_then_find lawful id next false "system" none w o found in
              rw allowed (
                rw persisted (
                  rw read (
                    Updates.changed o found (IsAllowed-assert_transition o.status next allowed) refl
                      changed)))
          | inr conflict ↦ rw conflict (
              Updates.refused o found (λ h. cc ((assert_transition_complete o.status next).0 h))
                refl refl)
        ])
  ]
