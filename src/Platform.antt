-- ===== src/Platform.antt =====
-- What the services call and do not implement: the TypeORM repositories over SQLite, the
-- transaction of `DataSource`, the system clock and the random bytes of Node. All of it is a
-- parameter. `Platform.Laws` states what the documentation of those libraries promises of it, and
-- `Platform.Memory` is an instance.
pub mod Laws
pub mod Memory
use order_orchestrator.Base.{ℕ, String, Option, List, Bool, Sort}
use order_orchestrator.DateText.{DateText}
use order_orchestrator.Entities.{
  Order, Payment, InventoryReservation, Shipment, OutboxEvent, DeadLetterEvent, AuditRow,
}

-- One table and its `Repository<E>`.
pub record Table (E : Type 0) : Type 1 where
  pub Rows : Type 0
  -- All rows, in the order of their insertion: what the laws speak of.
  pub rows : Rows → List E
  -- `findOne({ where })`
  pub find_one : Rows → (E → Bool) → Option E
  -- The values that the database gives to the next row: `@PrimaryGeneratedColumn('uuid')` and
  -- `@CreateDateColumn()`.
  pub generated_id : Rows → String
  pub generated_at : Rows → ℕ
  -- `save` of an entity that `create` has made: the message of the error, or the new rows.
  pub insert_error : Rows → E → Option String
  pub insert : Rows → E → Rows
  -- `save` of an entity that was read before.
  pub update : Rows → E → Rows
  -- `remove` of an entity that was read before.
  pub remove : Rows → E → Rows
  -- A query with `where`, `orderBy`, `skip` and `take`, and the count of a `where`.
  pub find_many : Rows → (E → Bool) → Sort E → ℕ → Option ℕ → List E
  pub count : Rows → (E → Bool) → ℕ
  -- `UPDATE … SET … WHERE …`, and its `affected`.
  pub update_where : Rows → (E → Bool) → (E → E) → Rows
  pub affected : Rows → (E → Bool) → ℕ

pub record Schema : Type 1 where
  pub orders : Table Order
  pub payments : Table Payment
  pub reservations : Table InventoryReservation
  pub shipments : Table Shipment
  pub outbox : Table OutboxEvent
  pub dead_letters : Table DeadLetterEvent
  pub audit_logs : Table AuditRow

pub record Db (S : Schema) : Type 0 where
  pub orders : S.orders.Rows
  pub payments : S.payments.Rows
  pub reservations : S.reservations.Rows
  pub shipments : S.shipments.Rows
  pub outbox : S.outbox.Rows
  pub dead_letters : S.dead_letters.Rows
  pub audit_logs : S.audit_logs.Rows

pub record Platform : Type 1 where
  pub schema : Schema
  -- The database after a transaction that began at the first argument and reached the second one.
  pub commit : Db schema → Db schema → Db schema
  pub rollback : Db schema → Db schema → Db schema
  -- The answer of the n-th call of `Date.now()`.
  pub now : ℕ → ℕ
  -- After the n-th call, so many more calls suffice to see a time later than the second argument.
  pub patience : ℕ → ℕ → ℕ
  -- The answer of the n-th call of `randomBytes`, for a number of bytes.
  pub random_bytes : ℕ → ℕ → List ℕ
  -- The text under which TypeORM stores a time in a `datetime` column, and SQLite's `<=` on texts.
  pub column_text : ℕ → DateText
  pub text_le : DateText → DateText → Bool
  -- `Math.max(0, Number(process.env.OUTBOX_RETRY_BASE_MS ?? 1000))`, where it is a whole number
  pub retry_base_ms : ℕ
