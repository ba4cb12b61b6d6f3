-- ===== src/DeadLetters/Batch.antt =====
-- `reprocessDlqBatch`: which dead letters it takes, what it answers, and what is left of them.
use native.Mathlib.Nat.{zero-add}
use order_orchestrator.Base.{
  suc, ◌+◌, String, Option, List, [], ◌∷◌, ◌≡◌, refl, ap, ◌∙◌, length, map, filter, All, Distinct,
}
use order_orchestrator.Entities.{DeadLetterEvent}
use order_orchestrator.Platform.{Platform}
use order_orchestrator.Platform.Laws.{IsPlatform}
use order_orchestrator.Exceptions.{Result, ok}
use order_orchestrator.World.{World}
use order_orchestrator.World.Reads.{dead_letters, event_of}
use order_orchestrator.DeadLetters.{DlqReprocessResult, ReprocessDetail, reprocess_dlq_batch}
use order_orchestrator.DeadLetters.Loop.{
  passed_entry, has_passed, has_failed, added, Reprocessed, reprocess_targets_run,
}
use order_orchestrator.DeadLetters.Targets.{letter_id, IsChosen, AreThere, select_targets_run}
use order_orchestrator.DeadLetters.Returns.{without, Restores, loop_returns}

-- The answer for these targets and entries.
abbrev pub result_of : List DeadLetterEvent → List ReprocessDetail → DlqReprocessResult
result_of targets details = record {
  total = length targets;
  success = length (filter has_passed details);
  failed = length (filter has_failed details);
  details = details;
}

-- How the batch ends.
pub record BatchEnd {P : Platform} (ids : List String) (event_type : Option String) (w : World P)
    (out : Result DlqReprocessResult) (w' : World P) : Type 0 where
  pub targets : List DeadLetterEvent
  pub chosen : IsChosen ids event_type w targets
  pub details : List ReprocessDetail
  pub one_by_one : Reprocessed w targets details w'
  pub listed : map (λ e. e.id) details ≡ map letter_id targets
  pub returned : out ≡ ok (result_of targets details)

-- How a batch ends that has reprocessed all its targets.
pub record AllReturn {P : Platform} (ids : List String) (event_type : Option String) (w : World P)
    (out : Result DlqReprocessResult) (w' : World P) : Type 0 where
  pub targets : List DeadLetterEvent
  pub chosen : IsChosen ids event_type w targets
  pub returned :
      out
      ≡ ok (record {
        total = length targets;
        success = length targets;
        failed = 0;
        details = map (λ d. passed_entry d.id) targets;
      })
  pub letters_gone : dead_letters w' ≡ without targets (dead_letters w)
  pub sources_back :
      All (λ d. Restores (event_of w d.source_event_id) (event_of w' d.source_event_id)) targets

listed_ids :
    {P : Platform} {w w' : World P} {ds : List DeadLetterEvent} {es : List ReprocessDetail}
    → Reprocessed w ds es w'
    → map (λ e. e.id) es ≡ map letter_id ds
listed_ids (Reprocessed.finished w) = refl
listed_ids (Reprocessed.passed d ended rest) = ap (λ l. d.id ∷ l) (listed_ids rest)
listed_ids (Reprocessed.threw d x ended rest) = ap (λ l. d.id ∷ l) (listed_ids rest)

all_passed :
    (ds : List DeadLetterEvent)
    → length (filter has_passed (map (λ d. passed_entry d.id) ds)) ≡ length ds
all_passed [] = refl
all_passed (d ∷ ds) = ap suc (all_passed ds)

none_failed :
    (ds : List DeadLetterEvent) → length (filter has_failed (map (λ d. passed_entry d.id) ds)) ≡ 0
none_failed [] = refl
none_failed (d ∷ ds) = none_failed ds

counted :
    (ds : List DeadLetterEvent) (es : List ReprocessDetail)
    → added (record { total = length ds; success = 0; failed = 0; details = [] }) es
      ≡ result_of ds es
counted ds es =
    let p = length (filter has_passed es) in
    let f = length (filter has_failed es) in
    ap {B = DlqReprocessResult}
      (λ k. record { total = length ds; success = k; failed = 0 + f; details = es }) (zero-add p)
    ∙ ap {B = DlqReprocessResult}
        (λ k. record { total = length ds; success = p; failed = k; details = es }) (zero-add f)

passed_result :
    (ds : List DeadLetterEvent)
    → result_of ds (map (λ d. passed_entry d.id) ds) ≡ record {
      total = length ds;
      success = length ds;
      failed = 0;
      details = map (λ d. passed_entry d.id) ds;
    }
passed_result ds =
    let es = map (λ d. passed_entry d.id) ds in
    ap {B = DlqReprocessResult}
      (λ k. record {
        total = length ds;
        success = k;
        failed = length (filter has_failed es);
        details = es;
      })
      (all_passed ds)
    ∙ ap {B = DlqReprocessResult}
        (λ k. record { total = length ds; success = length ds; failed = k; details = es })
        (none_failed ds)

module _ {P : Platform} (lawful : IsPlatform P) (ids : List String) (event_type : Option String)
    (w : World P) where
  batch_run :
      let (out, w') = reprocess_dlq_batch P ids event_type w in
      (e : BatchEnd ids event_type w out w') × (Distinct letter_id (dead_letters w)
        → AreThere w e.targets)
  unfolding reprocess_dlq_batch
  batch_run =
      let (l, selects, chosen, there) = select_targets_run lawful ids event_type w in
      let start : DlqReprocessResult = record {
        total = length l;
        success = 0;
        failed = 0;
        details = [];
      } in
      let loop = reprocess_targets_run lawful l start w in
      rw (selects, loop.runs)
        (
          record {
            targets = l;
            chosen = chosen;
            details = loop.entries;
            one_by_one = loop.one_by_one;
            listed = listed_ids loop.one_by_one;
            returned = ap ok (counted l loop.entries);
          },
          there,
        )

  -- `reprocessDlqBatch` never throws, whichever of its targets throw. With ids its targets are just
  -- the dead letters under those ids; without, they are dead letters of the type that the request
  -- names, or of any, and all of those unless there are more than 100. It takes the targets one
  -- behind the other, each of them in a call that returns or throws as `reprocessDlqEvent` does.
  -- `details` has an entry for each target, in their order, which says success or names the error;
  -- `total` is the number of targets, and the other two numbers are those of the entries of either
  -- status.
  pub reprocess_dlq_batch-BatchEnd :
      let (out, w') = reprocess_dlq_batch P ids event_type w in BatchEnd ids event_type w out w'
  reprocess_dlq_batch-BatchEnd = batch_run.0

  -- Where the ids of the dead letters differ, `reprocessDlqBatch` reprocesses all its targets: it
  -- counts and lists each of them as a success and none as failed, just their dead letters are
  -- gone, and the source of each of them, if it was there, is `PENDING` with no failure counted, no
  -- error and no time of a retry.
  pub reprocess_dlq_batch-AllReturn :
      Distinct letter_id (dead_letters w)
      → let (out, w') = reprocess_dlq_batch P ids event_type w in AllReturn ids event_type w out w'
  reprocess_dlq_batch-AllReturn distinct =
      let (e, there) = batch_run in
      let (entries, letters, sources) = loop_returns e.one_by_one (there distinct) in
      record {
        targets = e.targets;
        chosen = e.chosen;
        returned =
            e.returned
            ∙ ap (λ es. ok (result_of e.targets es)) entries
            ∙ ap ok (passed_result e.targets);
        letters_gone = letters;
        sources_back = sources;
      }
