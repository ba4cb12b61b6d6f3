-- ===== src/Outbox/Batch.antt =====
-- A batch of `dispatchPending` as attempts at the selected events, one behind the other.
use native.Mathlib.Nat.{zero-add}
use order_orchestrator.Base.{
  ℕ, suc, ◌+◌, ◌<◌, List, [], ◌∷◌, ◌++◌, ◌≡◌, refl, sym, ap, ◌∙◌, Bool, false, arith, filter,
  length, if_false,
}
use order_orchestrator.Entities.{OutboxEvent, OutboxEventStatus, event_status_eq}
use order_orchestrator.Platform.{Platform}
use order_orchestrator.Platform.Laws.{IsPlatform}
use order_orchestrator.Exceptions.{Result, ok}
use order_orchestrator.World.{World, Metric}
use order_orchestrator.World.Reads.{events}
use order_orchestrator.World.QueueLaws.{count_events_run}
use order_orchestrator.Outbox.{
  DispatchResult, is_pending, counted, process_single_event, record_result, dispatch_events,
  do_dispatch, set_active, dispatch_pending,
}
use order_orchestrator.Outbox.Skipped.{process_single_event-Settles}
use order_orchestrator.Outbox.Selection.{SelectsDue, select_due_run}

-- The counters behind an attempt with this answer.
abbrev pub noted : {P : Platform} → OutboxEventStatus → World P → World P
noted OutboxEventStatus.published w = record w {
  metrics = w.metrics ++ Metric.outbox_dispatch_total "published" ∷ [];
}
noted OutboxEventStatus.pending w = record w {
  metrics = w.metrics ++ Metric.outbox_dispatch_total "retried" ∷ [];
}
noted OutboxEventStatus.dead_letter w = record w {
  metrics =
      (w.metrics ++ Metric.outbox_dispatch_total "dead_lettered" ∷ []) ++ Metric.dlq_total ∷ [];
}
noted OutboxEventStatus.processing w = w

-- One attempt at each event, one behind the other, with what they answer.
pub data Attempted {P : Platform}
    : World P → List OutboxEvent → List OutboxEventStatus → World P → Type 0 where
  finished : (w : World P) → Attempted w [] [] w
  attempted :
      (e : OutboxEvent) (s : OutboxEventStatus) {es : List OutboxEvent}
      {ss : List OutboxEventStatus} {w u w' : World P}
      → process_single_event P e.id w ≡ (ok s, u)
      → Attempted (noted s u) es ss w'
      → Attempted w (e ∷ es) (s ∷ ss) w'

abbrev pub ended_as : OutboxEventStatus → List OutboxEventStatus → ℕ
ended_as s ss = length (filter (event_status_eq s) ss)

abbrev pub all_counted : DispatchResult → List OutboxEventStatus → DispatchResult
all_counted r ss = record r {
  published = r.published + ended_as OutboxEventStatus.published ss;
  retried = r.retried + ended_as OutboxEventStatus.pending ss;
  dead_lettered = r.dead_lettered + ended_as OutboxEventStatus.dead_letter ss;
}

abbrev answer : ℕ → ℕ → ℕ → ℕ → DispatchResult
answer n p r d = record { selected = n; published = p; retried = r; dead_lettered = d }

results_equal :
    (n p p' r r' d d' : ℕ) → p ≡ p' → r ≡ r' → d ≡ d' → answer n p r d ≡ answer n p' r' d'
results_equal n p p' r r' d d' a b c =
    ap (λ k. answer n k r d) a ∙ ap (λ k. answer n p' k d) b ∙ ap (λ k. answer n p' r' k) c

all_counted-nil : (r : DispatchResult) → all_counted r [] ≡ r
all_counted-nil r = results_equal r.selected _ _ _ _ _ _ (omega arith) (omega arith) (omega arith)

all_counted-cons :
    (s : OutboxEventStatus) (ss : List OutboxEventStatus) (r : DispatchResult)
    → all_counted (counted s r) ss ≡ all_counted r (s ∷ ss)
all_counted-cons OutboxEventStatus.pending ss r =
    results_equal r.selected _ _ _ _ _ _ refl (omega arith) refl
all_counted-cons OutboxEventStatus.processing ss r = refl
all_counted-cons OutboxEventStatus.published ss r =
    results_equal r.selected _ _ _ _ _ _ (omega arith) refl refl
all_counted-cons OutboxEventStatus.dead_letter ss r =
    results_equal r.selected _ _ _ _ _ _ refl refl (omega arith)

-- How the loop of `_doDispatch` runs.
pub record LoopRuns (P : Platform) (es : List OutboxEvent) (r : DispatchResult) (w : World P)
    : Type 0 where
  pub statuses : List OutboxEventStatus
  pub reached : World P
  pub runs : dispatch_events P es r w ≡ (ok (all_counted r statuses), reached)
  pub one_by_one : Attempted w es statuses reached

module _ {P : Platform} (lawful : IsPlatform P) where
  record_result_run :
      (s : OutboxEventStatus) (w : World P) → record_result P s w ≡ (ok tt, noted s w)
  unfolding record_result
  record_result_run OutboxEventStatus.pending w = refl
  record_result_run OutboxEventStatus.processing w = refl
  record_result_run OutboxEventStatus.published w = refl
  record_result_run OutboxEventStatus.dead_letter w = refl

  dispatch_events_run :
      (es : List OutboxEvent) (r : DispatchResult) (w : World P) → LoopRuns P es r w
  unfolding dispatch_events
  dispatch_events_run [] r w = record {
    statuses = [];
    reached = w;
    runs = ap (λ x. (ok x, w)) (sym (all_counted-nil r));
    one_by_one = finished w;
  }
  dispatch_events_run (e ∷ es) r w =
      let s = process_single_event-Settles lawful e.id w in
      let u = (process_single_event P e.id w).1 in
      let call : process_single_event P e.id w ≡ (ok s.status, u) = ap (λ x. (x, u)) s.returned in
      let l = dispatch_events_run es (counted s.status r) (noted s.status u) in
      record {
        statuses = s.status ∷ l.statuses;
        reached = l.reached;
        runs =
            rw (call, record_result_run s.status u)
              (l.runs ∙ ap (λ x. (ok x, l.reached)) (all_counted-cons s.status l.statuses r));
        one_by_one = attempted e s.status call l.one_by_one;
      }

-- What a dispatch does that no shutdown stops.
pub record DispatchRuns {P : Platform} (limit : ℕ) (force : Bool) (w : World P)
    (out : Result DispatchResult) (w' : World P) : Type 0 where
  pub selected : List OutboxEvent
  pub due : SelectsDue limit force w selected
  pub begun : World P
  pub begun_from : begun.db ≡ w.db
  pub statuses : List OutboxEventStatus
  pub reached : World P
  pub one_by_one : Attempted begun selected statuses reached
  pub reached_db : w'.db ≡ reached.db
  pub reached_metrics : w'.metrics ≡ reached.metrics
  pub returned :
      out
      ≡ ok (record {
        selected = length selected;
        published = ended_as OutboxEventStatus.published statuses;
        retried = ended_as OutboxEventStatus.pending statuses;
        dead_lettered = ended_as OutboxEventStatus.dead_letter statuses;
      })

module _ {P : Platform} (lawful : IsPlatform P) (limit : ℕ) (force : Bool) (w : World P)
    (positive : 0 < limit) where
  -- `dispatchPending` with a limit above 0, unless the shutdown has begun, selects just the events
  -- that are due, up to the limit and the oldest of them, and makes one attempt at each, one behind
  -- the other in the order of their creation. It answers how many it has selected, and how many of
  -- the attempts have answered `PUBLISHED`, `PENDING` and `DEAD_LETTER`; behind each attempt the
  -- metrics count what it has answered. Nothing but the attempts writes to the database.
  pub dispatch_pending-DispatchRuns :
      w.processor.shutting_down ≡ false
      → let (out, w') = dispatch_pending P limit force w in DispatchRuns limit force w out w'
  unfolding dispatch_pending do_dispatch
  dispatch_pending-DispatchRuns runs =
      let (l, v, selects, same_db, due) =
        select_due_run lawful limit force (set_active P suc w) positive in
      let n = length (filter is_pending (events v)) in
      let u : World P = record v { metrics = v.metrics ++ Metric.outbox_pending_gauge n ∷ [] } in
      let start : DispatchResult = record {
        selected = length l;
        published = 0;
        retried = 0;
        dead_lettered = 0;
      } in
      let loop = dispatch_events_run lawful l start u in
      rw (if_false runs, selects, count_events_run lawful v is_pending, loop.runs)
        (record {
          selected = l;
          due = record {
            left = due.left;
            just_the_due = due.just_the_due;
            oldest = due.oldest;
            ordered = due.ordered;
            few = due.few;
            left_beyond = due.left_beyond;
          };
          begun = u;
          begun_from = same_db;
          statuses = loop.statuses;
          reached = loop.reached;
          one_by_one = loop.one_by_one;
          reached_db = refl;
          reached_metrics = refl;
          returned = ap ok (
              results_equal (length l) _ _ _ _ _ _
                (zero-add (ended_as OutboxEventStatus.published loop.statuses))
                (zero-add (ended_as OutboxEventStatus.pending loop.statuses))
                (zero-add (ended_as OutboxEventStatus.dead_letter loop.statuses)));
        })
