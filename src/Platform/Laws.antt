-- ===== src/Platform/Laws.antt =====
-- What the services rely on in TypeORM, SQLite and Node, as their documentation states it.
use order_orchestrator.Base.{
  Option, ℕ, ◌+◌, ◌<◌, String, ◌≡◌, ◌≢◌, none, some, [], ◌∷◌, ◌++◌, Bool, false, first, has_key,
  replace, remove_key, str_eq, text_append, length, All, ◌/◌, ◌%◌, Sort, IsLimit, Selects, filter,
  update_rows,
}
use order_orchestrator.DateText.{ms_per_day, DateText, text_leb}
use order_orchestrator.Entities.{Order}
use order_orchestrator.Platform.{Table, Schema, Db, Platform}

-- SQLite's message for a row that repeats a unique column.
abbrev pub unique_failed : String → String
unique_failed column = text_append "SQLITE_CONSTRAINT: UNIQUE constraint failed: " column

-- `where: { idempotencyKey }`
abbrev pub has_idempotency_key : String → Order → Bool
has_idempotency_key k o = elim o.idempotency_key [ none ↦ false | some j ↦ str_eq j k ]

-- Reads and writes of rows that are told apart by the column `key`.
pub record IsTable {E : Type 0} (key : E → String) (T : Table E) : Type 0 where
  pub find_one_lem : (t : T.Rows) (p : E → Bool) → T.find_one t p ≡ first p (T.rows t)
  pub rows-update : (t : T.Rows) (e : E) → T.rows (T.update t e) ≡ replace key e (T.rows t)
  pub rows-remove : (t : T.Rows) (e : E) → T.rows (T.remove t e) ≡ remove_key key (key e) (T.rows t)
  pub find_many_lem :
      (t : T.Rows) (p : E → Bool) (s : Sort E) (skip : ℕ) (limit : Option ℕ)
      → IsLimit limit
      → Selects s (filter p (T.rows t)) skip limit (T.find_many t p s skip limit)
  pub count_lem : (t : T.Rows) (p : E → Bool) → T.count t p ≡ length (filter p (T.rows t))
  pub rows-update_where :
      (t : T.Rows) (p : E → Bool) (f : E → E)
      → T.rows (T.update_where t p f) ≡ update_rows p f (T.rows t)
  pub affected_lem : (t : T.Rows) (p : E → Bool) → T.affected t p ≡ length (filter p (T.rows t))

-- A row of an order's own: `orderId` is unique.
pub record IsOwned {E : Type 0} (key : E → String) (column : String) (T : Table E) : Type 0 where
  pub table : IsTable key T
  pub rows-insert : (t : T.Rows) (e : E) → T.rows (T.insert t e) ≡ T.rows t ++ e ∷ []
  pub insert_free :
      (t : T.Rows) (e : E)
      → first (has_key key (key e)) (T.rows t) ≡ none
      → T.insert_error t e ≡ none
  pub insert_taken :
      (t : T.Rows) (e x : E)
      → first (has_key key (key e)) (T.rows t) ≡ some x
      → T.insert_error t e ≡ some (unique_failed column)

-- A row under an id that the database generates.
pub record IsGenerated {E : Type 0} (key : E → String) (T : Table E) : Type 0 where
  pub table : IsTable key T
  pub rows-insert : (t : T.Rows) (e : E) → T.rows (T.insert t e) ≡ T.rows t ++ e ∷ []
  pub insert_free : (t : T.Rows) (e : E) → T.insert_error t e ≡ none
  pub generated_fresh : (t : T.Rows) → first (has_key key (T.generated_id t)) (T.rows t) ≡ none

-- `save` of a new `Order`, whose id the program chooses. TypeORM reads the id first: it inserts the
-- row if there is none with that id, and otherwise updates that row.
pub record IsOrders (T : Table Order) : Type 0 where
  pub table : IsTable (λ o. o.id) T
  pub insert_new :
      (t : T.Rows) (o : Order)
      → first (has_key (λ p. p.id) o.id) (T.rows t) ≡ none
      → T.rows (T.insert t o) ≡ T.rows t ++ o ∷ []
  pub insert_old :
      (t : T.Rows) (o p : Order)
      → first (has_key (λ p. p.id) o.id) (T.rows t) ≡ some p
      → T.rows (T.insert t o) ≡ replace (λ p. p.id) o (T.rows t)
  pub insert_unkeyed :
      (t : T.Rows) (o : Order) → o.idempotency_key ≡ none → T.insert_error t o ≡ none
  pub insert_free :
      (t : T.Rows) (o : Order) (k : String)
      → o.idempotency_key ≡ some k
      → first (has_idempotency_key k) (T.rows t) ≡ none
      → T.insert_error t o ≡ none
  pub insert_taken :
      (t : T.Rows) (o p : Order) (k : String)
      → o.idempotency_key ≡ some k
      → first (has_idempotency_key k) (T.rows t) ≡ some p
      → p.id ≢ o.id
      → T.insert_error t o ≡ some (unique_failed "orders.idempotencyKey")

-- The audit log has no column by which a service looks for one row.
pub record IsLog {E : Type 0} (T : Table E) : Type 0 where
  pub rows-insert : (t : T.Rows) (e : E) → T.rows (T.insert t e) ≡ T.rows t ++ e ∷ []
  pub insert_free : (t : T.Rows) (e : E) → T.insert_error t e ≡ none
  pub find_many_lem :
      (t : T.Rows) (p : E → Bool) (s : Sort E) (skip : ℕ) (limit : Option ℕ)
      → IsLimit limit
      → Selects s (filter p (T.rows t)) skip limit (T.find_many t p s skip limit)

pub record IsSchema (S : Schema) : Type 0 where
  pub orders : IsOrders S.orders
  pub payments : IsOwned (λ e. e.order_id) "payments.orderId" S.payments
  pub reservations : IsOwned (λ e. e.order_id) "inventory_reservations.orderId" S.reservations
  pub shipments : IsOwned (λ e. e.order_id) "shipments.orderId" S.shipments
  pub outbox : IsGenerated (λ e. e.id) S.outbox
  pub dead_letters : IsGenerated (λ e. e.id) S.dead_letters
  pub audit_logs : IsLog S.audit_logs

-- TypeORM writes a `datetime` in UTC as `YYYY-MM-DD HH:MM:SS.mmm`: a space, and no `Z`.
abbrev pub stored_text : ℕ → DateText
stored_text t = record {
  date = t / ms_per_day;
  separator = 32;
  time = t % ms_per_day;
  zulu = false;
}

-- A byte is below 256.
abbrev pub IsByte : ℕ → Type 0
IsByte b = b < 256

pub record IsPlatform (P : Platform) : Type 0 where
  pub schema : IsSchema P.schema
  -- A transaction whose callback returns is kept, and one whose callback throws leaves no trace.
  pub commit_lem : (before after : Db P.schema) → P.commit before after ≡ after
  pub rollback_lem : (before after : Db P.schema) → P.rollback before after ≡ before
  -- The clock passes every time.
  pub clock_passes : (n bound : ℕ) → (k : ℕ) × (k < P.patience n bound) × (bound < P.now (n + k))
  pub length-random_bytes : (n size : ℕ) → length (P.random_bytes n size) ≡ size
  -- SQLite compares texts character by character.
  pub column_text_lem : (t : ℕ) → P.column_text t ≡ stored_text t
  pub text_le_lem : (a b : DateText) → P.text_le a b ≡ text_leb a b
  pub random_bytes-IsByte : (n size : ℕ) → All IsByte (P.random_bytes n size)
