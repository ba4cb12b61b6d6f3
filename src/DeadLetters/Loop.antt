-- ===== src/DeadLetters/Loop.antt =====
-- The loop of `reprocessDlqBatch`: what each target does, and what it adds to the result.
use mathlib.Core.List.{append-nil, append_assoc}
use order_orchestrator.Base.{
  ℕ, suc, ◌+◌, String, some, none, List, [], ◌∷◌, ◌++◌, ◌≡◌, refl, sym, ap, ◌∙◌, Bool, arith,
  length, filter, str_eq,
}
use order_orchestrator.Entities.{DeadLetterEvent}
use order_orchestrator.Platform.{Platform}
use order_orchestrator.Platform.Laws.{IsPlatform}
use order_orchestrator.Exceptions.{Exception, message, Result, ok, err}
use order_orchestrator.World.{World, Metric}
use order_orchestrator.DeadLetters.{
  DlqReprocessResult, ReprocessDetail, reprocess_dlq_event, reprocess_targets,
}
use order_orchestrator.DeadLetters.Reprocess.{ReprocessEnd, reprocess_dlq_event-ReprocessEnd}

-- The entries of `details` for a target that has returned to the outbox, and for one that has not.
abbrev pub passed_entry : String → ReprocessDetail
passed_entry id = record { id = id; status = "success"; error = none }

abbrev pub failed_entry : String → Exception → ReprocessDetail
failed_entry id x = record { id = id; status = "failed"; error = some (message x) }

abbrev pub has_passed : ReprocessDetail → Bool
has_passed e = str_eq e.status "success"

abbrev pub has_failed : ReprocessDetail → Bool
has_failed e = str_eq e.status "failed"

abbrev pub count_in : {P : Platform} → String → World P → World P
count_in status w = record w { metrics = w.metrics ++ Metric.dlq_reprocess_total status ∷ [] }

-- The targets are taken one behind the other, each of them as `ReprocessEnd` says, with an entry
-- and a count that say how it has ended.
pub data Reprocessed {P : Platform}
    : World P → List DeadLetterEvent → List ReprocessDetail → World P → Type 0 where
  finished : (w : World P) → Reprocessed w [] [] w
  passed :
      (d : DeadLetterEvent) {ds : List DeadLetterEvent} {es : List ReprocessDetail}
      {w u w' : World P}
      → ReprocessEnd d.id w (ok tt) u
      → Reprocessed (count_in "success" u) ds es w'
      → Reprocessed w (d ∷ ds) (passed_entry d.id ∷ es) w'
  threw :
      (d : DeadLetterEvent) (x : Exception) {ds : List DeadLetterEvent} {es : List ReprocessDetail}
      {w u w' : World P}
      → ReprocessEnd d.id w (err x) u
      → Reprocessed (count_in "failed" u) ds es w'
      → Reprocessed w (d ∷ ds) (failed_entry d.id x ∷ es) w'

-- A result with more entries, counted by their status.
abbrev pub added : DlqReprocessResult → List ReprocessDetail → DlqReprocessResult
added r es = record r {
  success = r.success + length (filter has_passed es);
  failed = r.failed + length (filter has_failed es);
  details = r.details ++ es;
}

plus_suc : (a n : ℕ) → a + 1 + n ≡ a + suc n
plus_suc a n = omega arith

plus_zero : (a : ℕ) → a + 0 ≡ a
plus_zero a = omega arith

added-nil : (r : DlqReprocessResult) → added r [] ≡ r
added-nil r =
    ap {B = DlqReprocessResult}
      (λ k. record r { success = k; failed = r.failed + 0; details = r.details ++ [] })
      (plus_zero r.success)
    ∙ ap {B = DlqReprocessResult} (λ k. record r { failed = k; details = r.details ++ [] })
        (plus_zero r.failed)
    ∙ ap {B = DlqReprocessResult} (λ l. record r { details = l }) (append-nil r.details)

added-passed :
    (r : DlqReprocessResult) (id : String) (es : List ReprocessDetail)
    → added (record r { success = r.success + 1; details = r.details ++ passed_entry id ∷ [] }) es
      ≡ added r (passed_entry id ∷ es)
added-passed r id es =
    ap {B = DlqReprocessResult}
      (λ k. record r {
        success = k;
        failed = r.failed + length (filter has_failed es);
        details = (r.details ++ passed_entry id ∷ []) ++ es;
      })
      (plus_suc r.success (length (filter has_passed es)))
    ∙ ap {B = DlqReprocessResult}
        (λ l. record r {
          success = r.success + suc (length (filter has_passed es));
          failed = r.failed + length (filter has_failed es);
          details = l;
        })
        (append_assoc r.details (passed_entry id ∷ []) es)

added-failed :
    (r : DlqReprocessResult) (id : String) (x : Exception) (es : List ReprocessDetail)
    → added (record r { failed = r.failed + 1; details = r.details ++ failed_entry id x ∷ [] }) es
      ≡ added r (failed_entry id x ∷ es)
added-failed r id x es =
    ap {B = DlqReprocessResult}
      (λ k. record r {
        success = r.success + length (filter has_passed es);
        failed = k;
        details = (r.details ++ failed_entry id x ∷ []) ++ es;
      })
      (plus_suc r.failed (length (filter has_failed es)))
    ∙ ap {B = DlqReprocessResult}
        (λ l. record r {
          success = r.success + length (filter has_passed es);
          failed = r.failed + suc (length (filter has_failed es));
          details = l;
        })
        (append_assoc r.details (failed_entry id x ∷ []) es)

-- The loop returns, with an entry for each target.
pub record LoopRuns (P : Platform) (ds : List DeadLetterEvent) (r : DlqReprocessResult)
    (w : World P) : Type 0 where
  pub entries : List ReprocessDetail
  pub reached : World P
  pub runs : reprocess_targets P ds r w ≡ (ok (added r entries), reached)
  pub one_by_one : Reprocessed w ds entries reached

module _ {P : Platform} where
  one_more :
      (d : DeadLetterEvent) (ds : List DeadLetterEvent) (r : DlqReprocessResult) (w : World P)
      (x : Result (Unit {0})) (u : World P)
      → reprocess_dlq_event P d.id w ≡ (x, u)
      → ReprocessEnd d.id w x u
      → ((s : DlqReprocessResult) (v : World P) → LoopRuns P ds s v)
      → LoopRuns P (d ∷ ds) r w
  unfolding reprocess_targets
  one_more d ds r w (ok o) u call ended rest =
      let l =
        rest (record r { success = r.success + 1; details = r.details ++ passed_entry d.id ∷ [] })
          (count_in "success" u) in
      record {
        entries = passed_entry d.id ∷ l.entries;
        reached = l.reached;
        runs = rw call (l.runs ∙ ap (λ s. (ok s, l.reached)) (added-passed r d.id l.entries));
        one_by_one = passed d ended l.one_by_one;
      }
  one_more d ds r w (err x) u call ended rest =
      let l =
        rest (record r { failed = r.failed + 1; details = r.details ++ failed_entry d.id x ∷ [] })
          (count_in "failed" u) in
      record {
        entries = failed_entry d.id x ∷ l.entries;
        reached = l.reached;
        runs = rw call (l.runs ∙ ap (λ s. (ok s, l.reached)) (added-failed r d.id x l.entries));
        one_by_one = threw d x ended l.one_by_one;
      }

  pub reprocess_targets_run :
      (lawful : IsPlatform P) (ds : List DeadLetterEvent) (r : DlqReprocessResult) (w : World P)
      → LoopRuns P ds r w
  unfolding reprocess_targets
  reprocess_targets_run lawful [] r w = record {
    entries = [];
    reached = w;
    runs = ap (λ s. (ok s, w)) (sym (added-nil r));
    one_by_one = finished w;
  }
  reprocess_targets_run lawful (d ∷ ds) r w =
      one_more d ds r w (reprocess_dlq_event P d.id w).0 (reprocess_dlq_event P d.id w).1 refl
        (reprocess_dlq_event-ReprocessEnd lawful d.id w) (reprocess_targets_run lawful ds)
