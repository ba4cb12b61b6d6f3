-- ===== src/Outbox/Lifecycle.antt =====
-- The start and the end of `OutboxProcessorService`: `onModuleInit` and `onModuleDestroy`.
pub mod Drain
use order_orchestrator.Base.{
  ℕ, zero, suc, ◌+◌, String, Option, none, some, Bool, true, false, ltb, str_eq, if◌then◌else◌,
}
use order_orchestrator.Platform.{Platform}
use order_orchestrator.Exceptions.{ok}
use order_orchestrator.World.{World, Processor, Action, pure}
use order_orchestrator.World.Writes.{tick}
use order_orchestrator.Saga.{or_else}
use order_orchestrator.Outbox.{DispatchResult, dispatch_pending}

module _ (P : Platform) where
  -- `process.env.OUTBOX_PROCESSOR_ENABLED !== 'false'`
  abbrev pub is_enabled : Option String → Bool
  is_enabled none = true
  is_enabled (some text) = if str_eq text "false" then false else true

  -- The two values of the environment; the second one is taken to be a number.
  unfoldable pub on_module_init : Option String → Option ℕ → Action P (Unit {0})
  on_module_init enabled interval w =
      if is_enabled enabled
      then (
        ok tt,
        record w {
          processor = record (w.processor) { polls_every = some (or_else interval 3000) };
        },
      )
      else (ok tt, w)

  -- What the timer calls.
  unfoldable pub poll : Action P DispatchResult
  poll = dispatch_pending P 20 false

  -- `this.shuttingDown = true` and `clearInterval(this.timer)`
  abbrev pub begin_shutdown : World P → World P
  begin_shutdown w = record w {
    processor = record (w.processor) { polls_every = none; shutting_down = true };
  }

  -- The loop, with fuel. `pause` is what the other methods do while it sleeps for 100 ms.
  unfoldable pub drain : (World P → World P) → ℕ → ℕ → World P → Option (World P)
  drain pause zero deadline w = none
  drain pause (suc fuel) deadline w = elim (ltb 0 w.processor.active_dispatch_count) [
    | true ↦ elim (ltb (P.now w.host.clock_reads) deadline) [
      | true ↦ drain pause fuel deadline (pause (tick w))
      | false ↦ some (tick w)
    ]
    | false ↦ some w
  ]

  -- 10 seconds at 100 ms for each round of the loop.
  unfoldable pub on_module_destroy : (World P → World P) → World P → Option (World P)
  on_module_destroy pause w =
      let v = begin_shutdown w in drain pause 101 (P.now v.host.clock_reads + 10_000) (tick v)
