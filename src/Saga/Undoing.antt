-- ===== src/Saga/Undoing.antt =====
-- The parts of the compensation of a failed saga, on an order that has all its rows.
use order_orchestrator.Base.{
  ℕ, String, none, some, Bool, true, false, List, [], ◌∷◌, ◌++◌, ◌≡◌, refl, ◌∙◌, text_append,
  if◌then◌else◌,
}
use order_orchestrator.Entities.{
  OrderStatus, PaymentStatus, InventoryReservationStatus, AuditLog, Metadata, Payload,
}
use order_orchestrator.Platform.{Platform}
use order_orchestrator.Platform.Laws.{IsPlatform}
use order_orchestrator.Exceptions.{ok}
use order_orchestrator.World.{World, Action, ◌>>◌, pure, when}
use order_orchestrator.World.Writes.{tick, put_payment, put_reservation, add_audit_log}
use order_orchestrator.World.Laws.{
  find_payment_run, find_reservation_run, save_payment_run, save_reservation_run,
}
use order_orchestrator.Aggregates.{Aggregate, Holds, Moves}
use order_orchestrator.Aggregates.Compose.{
  stay, on_db, then_move, put_payment-Moves, put_reservation-Moves, add_audit_log-Moves,
}
use order_orchestrator.Aggregates.Status.{force_status-Moves}
use order_orchestrator.Aggregates.Effects.{own_payment, own_reservation, moved}
use order_orchestrator.AuditTrail.{log}
use order_orchestrator.Orders.Status.{force_status}
use order_orchestrator.Saga.{release_inventory, cancel_payment}
use order_orchestrator.Saga.Work.{entry, log_run, then_log, logged_by}

-- A part of the compensation: it ends, moves the rows and logs, and touches neither the failure
-- rules nor the counters.
pub record Undoes {P : Platform} (id : String) (m : Action P (Unit {0})) (w : World P)
    (b : Aggregate) (logs : List AuditLog) (payloads : List Payload) : Type 0 where
  pub end : World P
  pub runs : m w ≡ (ok tt, end)
  pub moves : Moves id w end b logs payloads
  pub same_rules : end.rules ≡ w.rules
  pub same_metrics : end.metrics ≡ w.metrics

abbrev pub released : Aggregate → Aggregate
released a = record a {
  reservation = record (a.reservation) { status = InventoryReservationStatus.released };
}

abbrev pub cancelled : ℕ → Aggregate → Aggregate
cancelled t a = record a {
  payment = record (a.payment) { status = PaymentStatus.cancelled; processed_at = some t };
}

abbrev pub released_if : Bool → Aggregate → Aggregate
released_if b a = if b then released a else a

abbrev pub cancelled_if : Bool → ℕ → Aggregate → Aggregate
cancelled_if b t a = if b then cancelled t a else a

abbrev pub log_if : Bool → AuditLog → List AuditLog
log_if b x = if b then x ∷ [] else []

-- The entry and the event that every compensation ends with.
abbrev pub failed_entry : String → String → String → AuditLog
failed_entry id actor text = record {
  order_id = id;
  action = "SAGA_FAILED";
  actor = actor;
  reason = some text;
  metadata = some (Metadata.error text);
}

abbrev pub failed_payload : String → String → OrderStatus → String → Payload
failed_payload id actor previous text =
    Payload.status_changed id previous OrderStatus.failed true actor
      (some (text_append "Saga failed: " text))

module _ {P : Platform} where
  nothing_undone :
      (id : String) (w : World P) (a : Aggregate) → Holds id w a → Undoes id (pure tt) w a [] []
  nothing_undone id w a h = record {
    end = w;
    runs = refl;
    moves = stay id w w a refl h;
    same_rules = refl;
    same_metrics = refl;
  }

  pub then_undo :
      (id : String) (m n : Action P (Unit {0})) (w : World P) (b c : Aggregate)
      (k l : List AuditLog) (p q : List Payload)
      → (u : Undoes id m w b k p) → Undoes id n u.end c l q
      → Undoes id (m >> n) w c (k ++ l) (p ++ q)
  then_undo id m n w b c k l p q u v = record {
    end = v.end;
    runs = rw (u.runs) (v.runs);
    moves = then_move id w u.end v.end b c k l p q u.moves v.moves;
    same_rules = v.same_rules ∙ u.same_rules;
    same_metrics = v.same_metrics ∙ u.same_metrics;
  }

module _ {P : Platform} (lawful : IsPlatform P) (id actor : String) (w : World P) (a : Aggregate)
    (h : Holds id w a) where
  release_inventory-Undoes :
      Undoes id
        (release_inventory P id actor)
        w
        (released a)
        (entry id actor "COMPENSATION_INVENTORY_RELEASED" ∷ [])
        []
  unfolding release_inventory
  release_inventory-Undoes =
      let r = (released a).reservation in
      record {
        end = logged_by id actor "COMPENSATION_INVENTORY_RELEASED" (put_reservation w r);
        runs =
            rw (find_reservation_run lawful w id, h.reservation_found)
              (rw (save_reservation_run w r) (
                log_run lawful id "COMPENSATION_INVENTORY_RELEASED" actor none none
                  (put_reservation w r)));
        moves =
            then_log lawful id actor w a h (put_reservation w r) (released a)
              "COMPENSATION_INVENTORY_RELEASED"
              (put_reservation-Moves lawful id w a h r (own_reservation id w a h));
        same_rules = refl;
        same_metrics = refl;
      }

  cancel_payment-Undoes :
      Undoes id
        (cancel_payment P id actor)
        w
        (cancelled (P.now w.host.clock_reads) a)
        (entry id actor "COMPENSATION_PAYMENT_CANCELLED" ∷ [])
        []
  unfolding cancel_payment
  cancel_payment-Undoes =
      let b = cancelled (P.now w.host.clock_reads) a in
      let v = put_payment (tick w) b.payment in
      record {
        end = logged_by id actor "COMPENSATION_PAYMENT_CANCELLED" v;
        runs =
            rw (find_payment_run lawful w id, h.payment_found)
              (rw (save_payment_run (tick w) b.payment)
                (log_run lawful id "COMPENSATION_PAYMENT_CANCELLED" actor none none v));
        moves = then_log lawful id actor w a h v b "COMPENSATION_PAYMENT_CANCELLED" (
            on_db id w (put_payment w b.payment) w v b [] [] refl refl
              (put_payment-Moves lawful id w a h b.payment (own_payment id w a h)));
        same_rules = refl;
        same_metrics = refl;
      }

  -- `if (context.inventoryConfirmed) { … }`
  pub release_if :
      (b : Bool)
      → Undoes id
          (when b (release_inventory P id actor))
          w
          (released_if b a)
          (log_if b (entry id actor "COMPENSATION_INVENTORY_RELEASED"))
          []
  release_if true = release_inventory-Undoes
  release_if false = nothing_undone id w a h

  -- `if (context.paymentAuthorized) { … }`
  pub cancel_if :
      (b : Bool)
      → Undoes id
          (when b (cancel_payment P id actor))
          w
          (cancelled_if b (P.now w.host.clock_reads) a)
          (log_if b (entry id actor "COMPENSATION_PAYMENT_CANCELLED"))
          []
  cancel_if true = cancel_payment-Undoes
  cancel_if false = nothing_undone id w a h

  -- The order is forced to fail, and the payment is cancelled with it.
  pub fail_order :
      (text : String)
      → Undoes id
          (force_status P id OrderStatus.failed actor (some (text_append "Saga failed: " text))
            >> log P id "SAGA_FAILED" actor (some (Metadata.error text)) (some text))
          w
          (moved OrderStatus.failed (P.now w.host.clock_reads) a)
          (failed_entry id actor text ∷ [])
          (failed_payload id actor a.order.status text ∷ [])
  fail_order text =
      let (v, forced, m, same_rules, same_metrics) =
        force_status-Moves lawful id w a h OrderStatus.failed actor
          (some (text_append "Saga failed: " text)) in
      let b = moved OrderStatus.failed (P.now w.host.clock_reads) a in
      record {
        end = add_audit_log v (failed_entry id actor text);
        runs =
            rw forced
              (log_run lawful id "SAGA_FAILED" actor (some (Metadata.error text)) (some text) v);
        moves =
            then_move id w v (add_audit_log v (failed_entry id actor text)) b b [] _ _ [] m
              (add_audit_log-Moves lawful id v b m.holds (failed_entry id actor text));
        same_rules = same_rules;
        same_metrics = same_metrics;
      }
