-- ===== src/World/State.antt =====
-- What a method can change: the database, the failure rules in memory
-- (src/orders/failure-injection.service.ts), the clock and the counters of
-- src/common/telemetry/metrics.service.ts.
use order_orchestrator.Base.{ℕ, String, Option, List, Bool}
use order_orchestrator.Platform.{Db, Platform}
use order_orchestrator.Host.{Host}

-- `FailureRule`
pub record FailureRule : Type 0 where
  pub fail_count : ℕ
  pub expires_at : Option ℕ

-- The `Map` of the rules, in the order of insertion.
abbrev pub Rules : Type 0
Rules = List (String × FailureRule)

-- A call of `inc` or `set` on one of the metrics, with its labels.
pub data Metric : Type 0 where
  saga_total : String → Metric
  saga_step_total : String → String → Metric
  outbox_dispatch_total : String → Metric
  outbox_pending_gauge : ℕ → Metric
  dlq_total : Metric
  dlq_reprocess_total : String → Metric

-- What an `OutboxProcessorService` remembers: `activeDispatchCount` and `shuttingDown`.
pub record Processor : Type 0 where
  pub active_dispatch_count : ℕ
  pub shutting_down : Bool
  -- the interval of the timer, if it is set
  pub polls_every : Option ℕ

pub record World (P : Platform) : Type 0 where
  pub db : Db P.schema
  pub rules : Rules
  pub host : Host
  -- the calls so far, the first one first
  pub metrics : List Metric
  pub processor : Processor
