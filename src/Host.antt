-- ===== src/Host.antt =====
-- The mutable state of one process: how far it has read the clock and the random bytes, and the
-- module variables of src/common/utils/uuidv7.util.ts.
use order_orchestrator.Base.{ℕ, suc, Option, List}
use order_orchestrator.Platform.{Platform}

pub record Host : Type 0 where
  pub clock_reads : ℕ
  pub random_reads : ℕ
  -- `lastTimestampMs`, where `none` is its first value -1
  pub last_timestamp_ms : Option ℕ
  pub sequence : ℕ

module _ (P : Platform) where
  -- `Date.now()`, and the time of `new Date()`
  abbrev pub date_now : Host → ℕ × Host
  date_now h = (P.now h.clock_reads, record h { clock_reads = suc h.clock_reads })

  abbrev pub random_bytes : ℕ → Host → List ℕ × Host
  random_bytes size h =
      (P.random_bytes h.random_reads size, record h { random_reads = suc h.random_reads })
