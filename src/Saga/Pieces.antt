-- ===== src/Saga/Pieces.antt =====
-- A piece of the saga, with what it adds to the counters, and pieces that a failure rule may stop.
use mathlib.Core.List.{append_assoc}
use order_orchestrator.Base.{ℕ, String, none, List, [], ◌∷◌, ◌++◌, ◌≡◌, ◌≢◌, refl, ap, ◌∙◌}
use order_orchestrator.Entities.{AuditLog, Payload}
use order_orchestrator.Platform.{Platform}
use order_orchestrator.Exceptions.{Exception, Result, ok, err}
use order_orchestrator.World.{World, Metric, Action, continue}
use order_orchestrator.FailureInjection.RuleMap
use order_orchestrator.Aggregates.{Aggregate, Moves}
use order_orchestrator.Aggregates.Compose.{on_db, then_move}
use order_orchestrator.Saga.{count_step}
use order_orchestrator.Saga.Work.{entry, SameRule, StepEnd}

-- A piece of the run, with what it adds to the counters.
pub record Part {P : Platform} (id : String) (w w' : World P) (b : Aggregate) (logs : List AuditLog)
    (payloads : List Payload) (counts : List Metric) : Type 0 where
  pub moves : Moves id w w' b logs payloads
  pub counted : w'.metrics ≡ w.metrics ++ counts

module _ {P : Platform} where
  pub then-Part :
      (id : String) (u v w : World P) (a b : Aggregate) (k l : List AuditLog) (p q : List Payload)
      (m n : List Metric)
      → Part id u v a k p m
      → Part id v w b l q n
      → Part id u w b (k ++ l) (p ++ q) (m ++ n)
  then-Part id u v w a b k l p q m n x y = record {
    moves = then_move id u v w a b k l p q x.moves y.moves;
    counted = y.counted ∙ ap (λ z. z ++ n) x.counted ∙ append_assoc u.metrics m n;
  }

-- A piece that a failure rule for `key` may stop: how it stands when it has passed, and when the
-- rule has made it throw. The rules for other keys are as they were.
pub data Ended {P : Platform} (key text : String) (w : World P) (good bad : World P → Type 0)
    (r : Result (Unit {0})) (w' : World P) : Type 0 where
  passed :
      r ≡ ok tt
      → good w'
      → ((j : String) → j ≢ key → SameRule j w w')
      → Ended key text w good bad r w'
  injected :
      RuleMap.get key w.rules ≢ none
      → r ≡ err (Exception.error text)
      → bad w'
      → ((j : String) → j ≢ key → SameRule j w w')
      → Ended key text w good bad r w'

abbrev pub succeeded : String → Metric
succeeded step = Metric.saga_step_total step "success"

abbrev pub stopped : String → Metric
stopped step = Metric.saga_step_total step "failed"

module _ {P : Platform} (id actor key text action step : String) (w : World P) (a : Aggregate)
    (after : ℕ → Aggregate) where
  -- A step in its child span counts how it has ended.
  pub counted_step :
      (r : Result (Unit {0})) (w₁ : World P)
      → StepEnd id actor key text action w a after r w₁
      → let (r', w') = count_step P step (r, w₁) in
        Ended key text w
          (λ v.
            (t : ℕ) × Part id w v (after t) (entry id actor action ∷ []) [] (succeeded step ∷ []))
          (λ v. Part id w v a [] [] (stopped step ∷ []))
          r'
          w'
  counted_step r w₁ (StepEnd.passed t ended m others same) = rw ended (
      Ended.passed refl
        (
          t,
          record {
            moves = on_db id w w₁ w _ (after t) (entry id actor action ∷ []) [] refl refl m;
            counted = ap (λ x. x ++ succeeded step ∷ []) same;
          },
        )
        others)
  counted_step r w₁ (StepEnd.injected armed ended m others same) = rw ended (
      Ended.injected armed refl
        (record {
          moves = on_db id w w₁ w _ a [] [] refl refl m;
          counted = ap (λ x. x ++ stopped step ∷ []) same;
        })
        others)

abbrev pub KeepsRules : {P : Platform} → World P → World P → Type 0
KeepsRules v x = x.rules ≡ v.rules

-- A call that cannot be stopped, before or behind a piece that can.
module _ {P : Platform} (key text : String) (u w : World P) (r : Result (Unit {0})) (w' : World P)
    {good bad : World P → Type 0} where
  pub before-Ended :
      (good' bad' : World P → Type 0)
      → KeepsRules u w
      → ((x : World P) → good x → good' x)
      → ((x : World P) → bad x → bad' x)
      → Ended key text w good bad r w'
      → Ended key text u good' bad' r w'
  before-Ended good' bad' same f g (Ended.passed ended h others) =
      Ended.passed ended (f w' h) (λ j ne. others j ne ∙ ap (RuleMap.get j) same)
  before-Ended good' bad' same f g (Ended.injected armed ended h others) =
      Ended.injected (λ e. armed (ap (RuleMap.get key) same ∙ e)) ended (g w' h)
        (λ j ne. others j ne ∙ ap (RuleMap.get j) same)

  pub Ended-then :
      (k : Action P (Unit {0})) (good' : World P → Type 0)
      → ((x : World P) → good x → (y : World P) × (k x ≡ (ok tt, y)) × KeepsRules x y × good' y)
      → Ended key text w good bad r w'
      → let (r', y) = continue (r, w') (λ _. k) in Ended key text w good' bad r' y
  Ended-then k good' f (Ended.passed ended h others) =
      let (y, runs, same, h') = f w' h in
      rw ended (rw runs (Ended.passed refl h' (λ j ne. ap (RuleMap.get j) same ∙ others j ne)))
  Ended-then k good' f (Ended.injected armed ended h others) =
      rw ended (Ended.injected armed refl h others)
