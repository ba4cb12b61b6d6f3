-- ===== src/Outbox/Dispatch.antt =====
-- The run of the selection, and the dispatch of a batch (`_doDispatch`, `dispatchPending`).
use order_orchestrator.Base.{
  ℕ, suc, ◌+◌, ◌-◌, ◌≤◌, ◌<◌, some, List, [], ◌∷◌, ◌++◌, ◌≡◌, refl, sym, ap, ◌∙◌, subst, Bool, true,
  false, ◌&&◌, arith, filter, length, length-take, Selects, Bool-cases, if_true, if_false, inl, inr,
}
use order_orchestrator.Entities.{OutboxEvent, OutboxEventStatus, event_status_eq}
use order_orchestrator.Platform.{Platform}
use order_orchestrator.Platform.Laws.{IsPlatform}
use order_orchestrator.Exceptions.{Result, ok}
use order_orchestrator.World.{World, Processor, Metric}
use order_orchestrator.World.Reads.{events}
use order_orchestrator.World.Writes.{tick}
use order_orchestrator.World.QueueLaws.{find_events_run, count_events_run}
use order_orchestrator.Outbox.{
  DispatchResult, is_pending, oldest_first, counted, process_single_event, record_result,
  dispatch_events, is_ready, select_events, do_dispatch, set_active, finally_leave,
  dispatch_pending,
}
use order_orchestrator.Outbox.Skipped.{process_single_event-Settles}

-- The events that a result counts by how they have ended.
abbrev pub settled : DispatchResult → ℕ
settled r = r.published + r.retried + r.dead_lettered

-- What a dispatch answers: it counts just the selected events.
pub record Counts {P : Platform} (selected before rest : ℕ) (kept : Processor)
    (out : Result DispatchResult) (w' : World P) : Type 0 where
  pub result : DispatchResult
  pub returned : out ≡ ok result
  pub selected_kept : result.selected ≡ selected
  pub all_settled : settled result ≡ before + rest
  pub processor_kept : w'.processor ≡ kept

counted_lem :
    (s : OutboxEventStatus) (r : DispatchResult)
    → event_status_eq s OutboxEventStatus.processing ≡ false
    → (settled (counted s r) ≡ suc (settled r)) × ((counted s r).selected ≡ r.selected)
counted_lem OutboxEventStatus.pending r h = (omega arith, refl)
counted_lem OutboxEventStatus.processing r h = cc
counted_lem OutboxEventStatus.published r h = (omega arith, refl)
counted_lem OutboxEventStatus.dead_letter r h = (omega arith, refl)

module _ {P : Platform} where
  -- What a dispatch may select: the pending events, and among those, if it is not forced, the ones
  -- whose retry is due.
  abbrev pub selectable : Bool → World P → OutboxEvent → Bool
  selectable true w e = is_pending e
  selectable false w e = is_pending e && is_ready P (P.now w.host.clock_reads) e

module _ {P : Platform} (lawful : IsPlatform P) where
  record_result_run :
      (s : OutboxEventStatus) (w : World P)
      → (v : World P) × (record_result P s w ≡ (ok tt, v)) × (v.processor ≡ w.processor)
  unfolding record_result
  record_result_run OutboxEventStatus.pending w = (_, refl, refl)
  record_result_run OutboxEventStatus.processing w = (_, refl, refl)
  record_result_run OutboxEventStatus.published w = (_, refl, refl)
  record_result_run OutboxEventStatus.dead_letter w = (_, refl, refl)

  dispatch_events-Counts :
      (es : List OutboxEvent) (r : DispatchResult) (w : World P)
      → let (out, w') = dispatch_events P es r w in
        Counts r.selected (settled r) (length es) w.processor out w'
  unfolding dispatch_events
  dispatch_events-Counts [] r w = record {
    result = r;
    returned = refl;
    selected_kept = refl;
    all_settled = omega arith;
    processor_kept = refl;
  }
  dispatch_events-Counts (e ∷ es) r w =
      let s = process_single_event-Settles lawful e.id w in
      let u = (process_single_event P e.id w).1 in
      let (v, runs, same) = record_result_run s.status u in
      let (total, kept) = counted_lem s.status r s.decided in
      let c = dispatch_events-Counts es (counted s.status r) v in
      rw (s.returned, runs)
        (record {
          result = c.result;
          returned = c.returned;
          selected_kept = c.selected_kept ∙ kept;
          all_settled = omega (arith, c.all_settled, total);
          processor_kept = c.processor_kept ∙ same ∙ s.processor_kept;
        })

  pub select_events_run :
      (limit : ℕ) (force : Bool) (w : World P)
      → 0 < limit
      → (l : List OutboxEvent) × (v : World P) × (select_events P limit force w ≡ (ok l, v))
        × (v.db ≡ w.db)
        × (v.processor ≡ w.processor)
        × Selects oldest_first (filter (selectable force w) (events w)) 0 (some limit) l
  unfolding select_events
  select_events_run limit true w h =
      let (l, runs, s) = find_events_run lawful w is_pending oldest_first 0 (some limit) h in
      (l, w, runs, refl, refl, s)
  select_events_run limit false w h =
      let (l, runs, s) =
        find_events_run lawful (tick w) (selectable false w) oldest_first 0 (some limit) h in
      (l, tick w, runs, refl, refl, s)

  do_dispatch-Counts :
      (limit : ℕ) (force : Bool) (w : World P)
      → 0 < limit
      → (n : ℕ) × (n ≤ limit)
        × (let (out, w') = do_dispatch P limit force w in Counts n 0 n w.processor out w')
  unfolding do_dispatch
  do_dispatch-Counts limit force w h =
      let (l, v, runs, same_db, same, s) = select_events_run limit force w h in
      let none_yet : DispatchResult = record {
        selected = length l;
        published = 0;
        retried = 0;
        dead_lettered = 0;
      } in
      let n = length (filter is_pending (events v)) in
      let u : World P = record v { metrics = v.metrics ++ Metric.outbox_pending_gauge n ∷ [] } in
      let c = dispatch_events-Counts l none_yet u in
      (
        length l,
        subst (λ k. length k ≤ limit) (sym s.selected) (length-take limit s.arranged),
        rw (runs, count_events_run lawful v is_pending)
            (record {
              result = c.result;
              returned = c.returned;
              selected_kept = c.selected_kept;
              all_settled = c.all_settled;
              processor_kept = c.processor_kept ∙ same;
            }),
      )

-- How `dispatchPending` ends.
pub data DispatchEnd {P : Platform} (limit : ℕ) (w : World P) (out : Result DispatchResult)
    (w' : World P) : Type 0 where
  stopped :
      w.processor.shutting_down ≡ true
      → out ≡ ok (record { selected = 0; published = 0; retried = 0; dead_lettered = 0 })
      → w' ≡ w
      → DispatchEnd limit w out w'
  dispatched :
      (n : ℕ)
      → w.processor.shutting_down ≡ false
      → n ≤ limit
      → Counts n 0 n w.processor out w'
      → DispatchEnd limit w out w'

-- The count of the running dispatches goes up and down again.
left_again :
    (p : Processor) (n : ℕ)
    → n ≡ p.active_dispatch_count
    → record p { active_dispatch_count = suc n - 1 } ≡ p
left_again p n h = ap {B = Processor} (λ k. record p { active_dispatch_count = k }) (omega arith)

module _ {P : Platform} (lawful : IsPlatform P) where
  finally_leave-Counts :
      (n : ℕ) (w : World P) (out : Result DispatchResult) (w' : World P)
      → Counts n 0 n (set_active P suc w).processor out w'
      → let (r, v) = finally_leave P (out, w') in Counts n 0 n w.processor r v
  finally_leave-Counts n w out w' c = record {
    result = c.result;
    returned = c.returned;
    selected_kept = c.selected_kept;
    all_settled = c.all_settled;
    processor_kept =
        ap {A = Processor} {B = Processor}
          (λ p. record p { active_dispatch_count = p.active_dispatch_count - 1 }) c.processor_kept
        ∙ left_again w.processor w.processor.active_dispatch_count refl;
  }

  -- `dispatchPending` with a limit above 0 never throws. Once the shutdown has begun it answers
  -- zeros and changes nothing; otherwise it selects no more than the limit, each selected event is
  -- counted just once, as published, retried or dead-lettered, and the number of running
  -- dispatches is what it was.
  pub dispatch_pending-DispatchEnd :
      (limit : ℕ) (force : Bool) (w : World P)
      → 0 < limit
      → let (out, w') = dispatch_pending P limit force w in DispatchEnd limit w out w'
  unfolding dispatch_pending
  dispatch_pending-DispatchEnd limit force w h = elim (Bool-cases w.processor.shutting_down) [
    | inl stops ↦ rw (if_true stops) (DispatchEnd.stopped stops refl refl)
    | inr runs ↦
        let v = set_active P suc w in
        let (n, few, c) = do_dispatch-Counts lawful limit force v h in
        let (out, w') = do_dispatch P limit force v in
        rw (if_false runs) (DispatchEnd.dispatched n runs few (finally_leave-Counts n w out w' c))
  ]
