-- ===== src/Platform/Memory/Instance.antt =====
-- The instance, and its proof of the laws.
use order_orchestrator.Base.{
  ℕ, zero, suc, ◌+◌, ◌%◌, ◌<◌, String, ◌≡◌, refl, Option, none, some, List, [], ◌∷◌, ◌++◌, first,
  has_key, replace, remove_key, str_eq, eq_iff, arith, length, All, if◌then◌else◌, is_some, filter,
  drop, limited, sorted, sorted_perm, sorted-IsSorted, update_rows,
}
use order_orchestrator.DateText.{text_leb}
use order_orchestrator.Entities.{Order}
use order_orchestrator.Platform.{Table, Schema, Platform}
use order_orchestrator.Platform.Laws.{
  unique_failed, has_idempotency_key, IsTable, IsOwned, IsGenerated, IsOrders, IsSchema, IsByte,
  stored_text, IsPlatform,
}
use order_orchestrator.Platform.Memory.Ids.{fresh_id, fresh_id_fresh}

module _ {E : Type 0} (key : E → String) where
  abbrev taken : String → List E → E → Option String
  taken column t e =
      if is_some (first (has_key key (key e)) t) then some (unique_failed column) else none

  abbrev memory_table : (List E → E → Option String) → (List E → E → List E) → Table E
  memory_table insert_error insert = record {
    Rows = List E;
    rows = λ t. t;
    find_one = λ t p. first p t;
    generated_id = fresh_id key;
    generated_at = length;
    insert_error = insert_error;
    insert = insert;
    update = λ t e. replace key e t;
    remove = λ t e. remove_key key (key e) t;
    find_many = λ t p s skip limit. limited limit (drop skip (sorted s (filter p t)));
    count = λ t p. length (filter p t);
    update_where = λ t p f. update_rows p f t;
    affected = λ t p. length (filter p t);
  }

  abbrev append_row : List E → E → List E
  append_row t e = t ++ e ∷ []

  abbrev owned_table : String → Table E
  owned_table column = memory_table (taken column) append_row

  abbrev generated_table : Table E
  generated_table = memory_table (λ t e. none) append_row

  memory_table-IsTable :
      (insert_error : List E → E → Option String) (insert : List E → E → List E)
      → IsTable key (memory_table insert_error insert)
  memory_table-IsTable insert_error insert = record {
    find_one_lem = λ t p. refl;
    rows-update = λ t e. refl;
    rows-remove = λ t e. refl;
    find_many_lem = λ t p s skip limit h. record {
      arranged = sorted s (filter p t);
      same_rows = sorted_perm s (filter p t);
      ordered = sorted-IsSorted s (filter p t);
      selected = refl;
    };
    count_lem = λ t p. refl;
    rows-update_where = λ t p f. refl;
    affected_lem = λ t p. refl;
  }

  owned_table-IsOwned : (column : String) → IsOwned key column (owned_table column)
  owned_table-IsOwned column = record {
    table = memory_table-IsTable (taken column) append_row;
    rows-insert = λ t e. refl;
    insert_free = λ t e h. rw h;
    insert_taken = λ t e x h. rw h;
  }

  generated_table-IsGenerated : IsGenerated key generated_table
  generated_table-IsGenerated = record {
    table = memory_table-IsTable (λ t e. none) append_row;
    rows-insert = λ t e. refl;
    insert_free = λ t e. refl;
    generated_fresh = fresh_id_fresh key;
  }

abbrev order_id : Order → String
order_id o = o.id

abbrev insert_order : List Order → Order → List Order
insert_order t o =
    if is_some (first (has_key order_id o.id) t) then replace order_id o t else t ++ o ∷ []

-- The idempotency key, if another order has it.
abbrev key_taken : Option String → String → List Order → Option String
key_taken none id t = none
key_taken (some k) id t = elim (first (has_idempotency_key k) t) [
  | none ↦ none
  | some p ↦ if str_eq p.id id then none else some (unique_failed "orders.idempotencyKey")
]

abbrev order_table : Table Order
order_table = memory_table order_id (λ t o. key_taken o.idempotency_key o.id t) insert_order

order_table-IsOrders : IsOrders order_table
order_table-IsOrders = record {
  table = memory_table-IsTable order_id (λ t o. key_taken o.idempotency_key o.id t) insert_order;
  insert_new = λ t o h. rw h;
  insert_old = λ t o p h. rw h;
  insert_unkeyed = λ t o h. rw h;
  insert_free = λ t o k h f. rw h (rw (f, key_taken));
  insert_taken = λ t o p k h f ne. rw h (rw (f, key_taken) (ground (arith, eq_iff p.id o.id)));
}

abbrev pub memory_schema : Schema
memory_schema = record {
  orders = order_table;
  payments = owned_table (λ e. e.order_id) "payments.orderId";
  reservations = owned_table (λ e. e.order_id) "inventory_reservations.orderId";
  shipments = owned_table (λ e. e.order_id) "shipments.orderId";
  outbox = generated_table (λ e. e.id);
  dead_letters = generated_table (λ e. e.id);
  audit_logs = generated_table (λ e. e.entry.action);
}

memory_schema-IsSchema : IsSchema memory_schema
memory_schema-IsSchema = record {
  orders = order_table-IsOrders;
  payments = owned_table-IsOwned (λ e. e.order_id) "payments.orderId";
  reservations = owned_table-IsOwned (λ e. e.order_id) "inventory_reservations.orderId";
  shipments = owned_table-IsOwned (λ e. e.order_id) "shipments.orderId";
  outbox = generated_table-IsGenerated (λ e. e.id);
  dead_letters = generated_table-IsGenerated (λ e. e.id);
  audit_logs = record {
    rows-insert = λ t e. refl;
    insert_free = λ t e. refl;
    find_many_lem = (generated_table-IsGenerated (λ e. e.entry.action)).table.find_many_lem;
  };
}

-- `size` bytes, all of them `b`.
abbrev bytes_of : ℕ → ℕ → List ℕ
bytes_of b zero = []
bytes_of b (suc size) = b ∷ bytes_of b size

length-bytes_of : (b size : ℕ) → length (bytes_of b size) ≡ size
length-bytes_of b zero = refl
length-bytes_of b (suc size) = omega (arith, length-bytes_of b size)

bytes_of-IsByte : (b size : ℕ) → b < 256 → All IsByte (bytes_of b size)
bytes_of-IsByte b zero h = tt
bytes_of-IsByte b (suc size) h = (h, bytes_of-IsByte b size h)

abbrev pub memory_platform : Platform
memory_platform = record {
  schema = memory_schema;
  commit = λ before after. after;
  rollback = λ before after. before;
  now = λ n. 1_700_000_000_000 + n;
  patience = λ n bound. bound + 1;
  random_bytes = λ n size. bytes_of (n % 256) size;
  column_text = stored_text;
  text_le = text_leb;
  retry_base_ms = 1000;
}

pub memory_platform-IsPlatform : IsPlatform memory_platform
memory_platform-IsPlatform = record {
  schema = memory_schema-IsSchema;
  commit_lem = λ before after. refl;
  rollback_lem = λ before after. refl;
  clock_passes = λ n bound. (bound, omega arith, omega arith);
  length-random_bytes = λ n size. length-bytes_of _ size;
  column_text_lem = λ t. refl;
  text_le_lem = λ a b. refl;
  random_bytes-IsByte = λ n size. bytes_of-IsByte _ size (omega arith);
}
