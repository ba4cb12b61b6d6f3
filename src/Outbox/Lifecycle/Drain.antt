-- ===== src/Outbox/Lifecycle/Drain.antt =====
-- The wait of `onModuleDestroy` ends.
use order_orchestrator.Base.{
  ℕ, zero, suc, ◌+◌, ◌*◌, ◌≤◌, Option, some, ◌≡◌, refl, ap, ◌∙◌, Bool, true, false, ltb, ltb→lt,
  arith, ◌⊎◌, inl, inr, Bool-cases,
}
use order_orchestrator.Platform.{Platform}
use order_orchestrator.World.{World}
use order_orchestrator.World.Writes.{tick}
use order_orchestrator.Outbox.Lifecycle.{begin_shutdown, drain, on_module_destroy}

-- What may be relied on while the loop sleeps: `setTimeout` waits for 100 ms at the least, and the
-- other methods do not take the shutdown back.
pub record IsPause {P : Platform} (pause : World P → World P) : Type 0 where
  pub waits :
      (u : World P) → P.now u.host.clock_reads + 100 ≤ P.now (pause (tick u)).host.clock_reads
  pub stays_shut :
      (u : World P) → u.processor.shutting_down ≡ true → (pause u).processor.shutting_down ≡ true

-- No dispatch is running, or the last reading of the clock was past the deadline.
pub record Drained {P : Platform} (deadline : ℕ) (v : World P) : Type 0 where
  pub reading : ℕ
  pub idle_or_late :
      (v.processor.active_dispatch_count ≡ 0)
      ⊎ ((v.host.clock_reads ≡ suc reading) × (deadline ≤ P.now reading))
  pub shut : v.processor.shutting_down ≡ true

zero_of : (n : ℕ) → ltb 0 n ≡ false → n ≡ 0
zero_of n h = ground arith

late_of : (t d : ℕ) → ltb t d ≡ false → d ≤ t
late_of t d h = ground arith

not_late : (t d : ℕ) → ltb t d ≡ true → d ≤ t + 100 * 0 → ⊥
not_late t d early near = omega (arith, ltb→lt t d early)

module _ {P : Platform} (pause : World P → World P) (n deadline : ℕ) (w : World P) where
  -- A round of the loop, by its two conditions.
  abbrev round : Bool → Bool → Option (World P)
  round busy early = elim busy [
    | true ↦ elim early [ true ↦ drain P pause n deadline (pause (tick w)) | false ↦ some (tick w) ]
    | false ↦ some w
  ]

  drain_run :
      drain P pause (suc n) deadline w
      ≡ round (ltb 0 w.processor.active_dispatch_count) (ltb (P.now w.host.clock_reads) deadline)
  unfolding drain
  drain_run = refl

module _ {P : Platform} (pause : World P → World P) (pauses : IsPause pause)
    (forward : (k : ℕ) → P.now k ≤ P.now (suc k)) where
  -- One round, given how the ones behind it end.
  round-Drained :
      (n deadline : ℕ) (w : World P)
      → w.processor.shutting_down ≡ true
      → (ltb (P.now w.host.clock_reads) deadline ≡ true
          → (v : World P) × (drain P pause n deadline (pause (tick w)) ≡ some v)
            × Drained deadline v)
      → (v : World P) × (drain P pause (suc n) deadline w ≡ some v) × Drained deadline v
  round-Drained n deadline w shut again =
      let now = P.now w.host.clock_reads in
      let busy = ltb 0 w.processor.active_dispatch_count in
      let runs = drain_run pause n deadline w in
      elim (Bool-cases busy) [
        | inr idle ↦ (
          w,
          runs ∙ ap (λ b. round pause n deadline w b (ltb now deadline)) idle,
          record {
            reading = 0;
            idle_or_late = inl (zero_of w.processor.active_dispatch_count idle);
            shut = shut;
          },
        )
        | inl working ↦ elim (Bool-cases (ltb now deadline)) [
          | inr late ↦ (
            tick w,
            runs
                ∙ ap (λ b. round pause n deadline w b (ltb now deadline)) working
                ∙ ap (λ b. round pause n deadline w true b) late,
            record {
              reading = w.host.clock_reads;
              idle_or_late = inr (refl, late_of now deadline late);
              shut = shut;
            },
          )
          | inl early ↦
              let (v, ends, d) = again early in
              (
                v,
                runs
                    ∙ ap (λ b. round pause n deadline w b (ltb now deadline)) working
                    ∙ ap (λ b. round pause n deadline w true b) early
                    ∙ ends,
                d,
              )
        ]
      ]

  drain-Drained :
      (n deadline : ℕ) (w : World P)
      → w.processor.shutting_down ≡ true
      → deadline ≤ P.now w.host.clock_reads + 100 * n
      → (v : World P) × (drain P pause (suc n) deadline w ≡ some v) × Drained deadline v
  drain-Drained zero deadline w shut near =
      round-Drained zero deadline w shut
        (λ early. absurd (not_late (P.now w.host.clock_reads) deadline early near))
  drain-Drained (suc n) deadline w shut near =
      let later = pauses.waits w in
      round-Drained (suc n) deadline w shut (λ early.
        drain-Drained n deadline (pause (tick w)) (pauses.stays_shut (tick w) shut) (omega arith))

  -- `onModuleDestroy` returns after 101 looks at the running dispatches at the most, if each pause
  -- lasts for 100 ms and the clock does not go back: either no dispatch is running, or 10 seconds
  -- have passed since it began. The processor is still shutting down, so that no dispatch begins.
  pub on_module_destroy-Drained :
      (w : World P)
      → (v : World P) × (on_module_destroy P pause w ≡ some v)
        × Drained (P.now w.host.clock_reads + 10_000) v
  unfolding on_module_destroy
  on_module_destroy-Drained w =
      let u = begin_shutdown P w in
      drain-Drained 100 (P.now w.host.clock_reads + 10_000) (tick u) refl
        (omega (arith, forward w.host.clock_reads))
