-- ===== src/AuditTrail/Contract.antt =====
-- What the audit log answers for an order.
use order_orchestrator.Base.{
  ℕ, ◌≤◌, ◌<◌, String, Option, some, List, [], ◌∷◌, ◌++◌, ◌≡◌, refl, ap, ◌∙◌, subst, sym, true,
  arith, length, filter, filter-append, IsSorted, Permᴰ, Selects-first, length-append, str_eq,
  eq_iff,
}
use order_orchestrator.Entities.{AuditLog, AuditRow, Metadata}
use order_orchestrator.Platform.{Platform}
use order_orchestrator.Platform.Laws.{IsPlatform}
use order_orchestrator.Exceptions.{ok}
use order_orchestrator.World.{World, new_audit_row}
use order_orchestrator.World.Reads.{audit_rows}
use order_orchestrator.World.Writes.{add_audit_log}
use order_orchestrator.World.Laws.{find_audit_logs_run, insert_audit_log_run}
use order_orchestrator.AuditTrail.{log, is_of_order, newest_first, find_by_order_id}

-- The rows of an order.
abbrev pub rows_of : {P : Platform} → String → World P → List AuditRow
rows_of id w = filter (is_of_order id) (audit_rows w)

module _ {P : Platform} (lawful : IsPlatform P) (id : String) (w : World P) where
  find_by_order_id_run :
      (limit : ℕ)
      → 0 < limit
      → length (rows_of id w) ≤ limit
      → (l : List AuditRow) × ((find_by_order_id P id limit w).0 ≡ ok l)
        × IsSorted newest_first l
        × Permᴰ l (rows_of id w)
  unfolding find_by_order_id
  find_by_order_id_run limit positive small =
      let (l, runs, s) =
        find_audit_logs_run lawful w (is_of_order id) newest_first 0 (some limit) positive in
      let (pass, ordered, few, whole) =
        Selects-first newest_first (is_of_order id) (audit_rows w) limit l s in
      (l, ap (λ z. z.0) runs, ordered, whole small)

module _ {P : Platform} (lawful : IsPlatform P) (id : String) (w : World P) where
  rows_of-add :
      (a : AuditLog)
      → a.order_id ≡ id
      → rows_of id (add_audit_log w a) ≡ rows_of id w ++ new_audit_row P w a ∷ []
  rows_of-add a own =
      let named : str_eq a.order_id id ≡ true = (eq_iff a.order_id id).1 own in
      ap (filter (is_of_order id))
        (lawful.schema.audit_logs.rows-insert w.db.audit_logs (new_audit_row P w a))
      ∙ filter-append (is_of_order id) (audit_rows w) (new_audit_row P w a ∷ [])
      ∙ ap (λ l. rows_of id w ++ l) (rw named refl)

  -- After `log`, `findByOrderId` with a limit that is above the number of the order's entries
  -- answers those entries and the new one, the newest first.
  pub find_by_order_id-log :
      (action actor : String) (metadata : Option Metadata) (reason : Option String) (limit : ℕ)
      → length (rows_of id w) < limit
      → let v = (log P id action actor metadata reason w).1 in
        let a : AuditLog = record {
          order_id = id;
          action = action;
          actor = actor;
          reason = reason;
          metadata = metadata;
        } in
        (l : List AuditRow) × ((find_by_order_id P id limit v).0 ≡ ok l)
        × IsSorted newest_first l
        × Permᴰ l (rows_of id w ++ new_audit_row P w a ∷ [])
  unfolding log
  find_by_order_id-log action actor metadata reason limit small =
      let a : AuditLog = record {
        order_id = id;
        action = action;
        actor = actor;
        reason = reason;
        metadata = metadata;
      } in
      let left = rows_of-add a refl in
      let fits : length (rows_of id (add_audit_log w a)) ≤ limit =
        subst (λ rows. length rows ≤ limit) (sym left)
          (omega (arith, length-append (rows_of id w) (new_audit_row P w a ∷ []))) in
      let (l, answers, ordered, whole) =
        find_by_order_id_run lawful id (add_audit_log w a) limit (omega arith) fits in
      (
        l,
        rw (insert_audit_log_run lawful w a) answers,
        ordered,
        subst (λ rows. Permᴰ l rows) left whole,
      )
