-- ===== src/AuditTrail.antt =====
-- The audit log (src/orders/audit-log.service.ts).
pub mod Contract
use order_orchestrator.Base.{ℕ, String, Option, some, List, Bool, Sort, str_eq}
use order_orchestrator.Platform.{Platform}
use order_orchestrator.Entities.{AuditRow, Metadata}
use order_orchestrator.World.{Action, insert_audit_log, find_audit_logs}

-- `AuditLogService.log`; a caller that gives no metadata or reason stands for `?? null`.
unfoldable pub log :
    (P : Platform)
    → String
    → String
    → String
    → Option Metadata
    → Option String
    → Action P (Unit {0})
log P order_id action actor metadata reason = insert_audit_log P (record {
  order_id = order_id;
  action = action;
  actor = actor;
  reason = reason;
  metadata = metadata;
})

-- `where: { orderId }`
abbrev pub is_of_order : String → AuditRow → Bool
is_of_order order_id r = str_eq r.entry.order_id order_id

-- `order: { createdAt: 'DESC' }`
abbrev pub newest_first : Sort AuditRow
newest_first = Sort.descending (λ r. r.created_at)

unfoldable pub find_by_order_id : (P : Platform) → String → ℕ → Action P (List AuditRow)
find_by_order_id P order_id limit =
    find_audit_logs P (is_of_order order_id) newest_first 0 (some limit)
