-- ===== src/Outbox/Frame.antt =====
-- What consuming an event cannot do: the saga adds events to the outbox, and neither changes one
-- that is there nor touches the dead letters nor sets a failure rule.
use mathlib.Core.List.{append-nil, append_assoc}
use order_orchestrator.Base.{
  String, Option, none, some, Bool, true, false, List, [], ◌++◌, ◌≡◌, refl, sym, ap, ◌∙◌,
}
use order_orchestrator.Platform.{Platform}
use order_orchestrator.Platform.Laws.{IsPlatform}
use order_orchestrator.Entities.{OutboxEvent}
use order_orchestrator.Exceptions.{Exception, Result, ok, err}
use order_orchestrator.World.{
  World, Action, continue, ◌>>=◌, ◌>>◌, pure, throw, transaction, end_transaction, when, when_some,
  or_throw,
}
use order_orchestrator.FailureInjection.RuleMap
use order_orchestrator.World.Reads.{events, dead_letters}

-- From `w` to `w'` events have been added behind those that were there, and failure rules have
-- only been used up.
pub record Appends {P : Platform} (w w' : World P) : Type 0 where
  pub new_events : List OutboxEvent
  pub appended : events w' ≡ events w ++ new_events
  pub dead_letters_kept : dead_letters w' ≡ dead_letters w
  pub processor_kept : w'.processor ≡ w.processor
  pub no_new_rule : (j : String) → RuleMap.get j w.rules ≡ none → RuleMap.get j w'.rules ≡ none

-- An action that does no more than that, from every state.
pub record Framed {P : Platform} {A : Type 0} (m : Action P A) : Type 0 where
  pub frame : (w : World P) → Appends w (m w).1

module _ {P : Platform} where
  -- A state that differs in other tables only.
  pub Appends-same_tables :
      (w w' : World P)
      → w'.db.outbox ≡ w.db.outbox
      → w'.db.dead_letters ≡ w.db.dead_letters
      → w'.processor ≡ w.processor
      → ((j : String) → RuleMap.get j w.rules ≡ none → RuleMap.get j w'.rules ≡ none)
      → Appends w w'
  Appends-same_tables w w' same letters kept rules = record {
    new_events = [];
    appended = ap P.schema.outbox.rows same ∙ sym (append-nil (events w));
    dead_letters_kept = ap P.schema.dead_letters.rows letters;
    processor_kept = kept;
    no_new_rule = rules;
  }

  pub Appends-same_db :
      (w w' : World P)
      → w'.db ≡ w.db
      → w'.processor ≡ w.processor
      → ((j : String) → RuleMap.get j w.rules ≡ none → RuleMap.get j w'.rules ≡ none)
      → Appends w w'
  Appends-same_db w w' same kept rules =
      Appends-same_tables w w' (ap (λ d. d.outbox) same) (ap (λ d. d.dead_letters) same) kept rules

  pub Appends-trans : (u v w : World P) → Appends u v → Appends v w → Appends u w
  Appends-trans u v w h k = record {
    new_events = h.new_events ++ k.new_events;
    appended =
        k.appended
        ∙ ap (λ l. l ++ k.new_events) h.appended
        ∙ append_assoc (events u) h.new_events k.new_events;
    dead_letters_kept = k.dead_letters_kept ∙ h.dead_letters_kept;
    processor_kept = k.processor_kept ∙ h.processor_kept;
    no_new_rule = λ j none_before. k.no_new_rule j (h.no_new_rule j none_before);
  }

  -- An action whose run is known to write no event.
  pub Framed-run :
      {A : Type 0} (m : Action P A) (r : World P → Result A) (f : World P → World P)
      → ((w : World P) → m w ≡ (r w, f w))
      → ((w : World P) → Appends w (f w))
      → Framed m
  Framed-run m r f runs h = record { frame = λ w. rw (runs w) (h w) }

  pub Framed-pure : {A : Type 0} (a : A) → Framed {P = P} (pure a)
  Framed-pure a = record { frame = λ w. Appends-same_db w w refl refl (λ j h. h) }

  pub Framed-throw : {A : Type 0} (e : Exception) → Framed {P = P} {A = A} (throw e)
  Framed-throw e = record { frame = λ w. Appends-same_db w w refl refl (λ j h. h) }

  continue-Appends :
      {A B : Type 0} (w : World P) (r : Result A) (v : World P) (f : A → Action P B)
      → Appends w v
      → ((a : A) → Framed (f a))
      → Appends w (continue (r, v) f).1
  continue-Appends w (ok a) v f h k = Appends-trans w v (f a v).1 h ((k a).frame v)
  continue-Appends w (err e) v f h k = h

  -- A call that reads.
  pub Framed-read :
      {A : Type 0} (m : Action P A) (r : World P → Result A)
      → ((w : World P) → m w ≡ (r w, w))
      → Framed m
  Framed-read m r runs =
      Framed-run m r (λ w. w) runs (λ w. Appends-same_db w w refl refl (λ j h. h))

  pub Framed-bind :
      {A B : Type 0} {m : Action P A} {f : A → Action P B}
      → Framed m
      → ((a : A) → Framed (f a))
      → Framed (m >>= f)
  Framed-bind {m = m} {f = f} h k = record {
    frame = λ w. continue-Appends w (m w).0 (m w).1 f (h.frame w) k;
  }

  pub Framed-then :
      {A B : Type 0} {m : Action P A} {n : Action P B} → Framed m → Framed n → Framed (m >> n)
  Framed-then h k = Framed-bind h (λ _. k)

  pub Framed-when : (b : Bool) (m : Action P (Unit {0})) → Framed m → Framed (when b m)
  Framed-when true m h = h
  Framed-when false m h = Framed-pure tt

  pub Framed-when_some :
      {A : Type 0} (o : Option A) (f : A → Action P (Unit {0}))
      → ((a : A) → Framed (f a))
      → Framed (when_some o f)
  Framed-when_some none f h = Framed-pure tt
  Framed-when_some (some a) f h = h a

  pub Framed-or_throw : {A : Type 0} (o : Option A) (e : Exception) → Framed {P = P} (or_throw o e)
  Framed-or_throw none e = Framed-throw e
  Framed-or_throw (some a) e = Framed-pure a

module _ {P : Platform} (lawful : IsPlatform P) where
  end_transaction-Appends :
      {A : Type 0} (w : World P) (r : Result A) (v : World P)
      → Appends w v
      → Appends w (end_transaction w.db (r, v)).1
  end_transaction-Appends w (ok a) v h = rw (lawful.commit_lem w.db v.db) h
  end_transaction-Appends w (err e) v h =
      Appends-same_db w _ (lawful.rollback_lem w.db v.db) h.processor_kept h.no_new_rule

  pub Framed-transaction : {A : Type 0} (m : Action P A) → Framed m → Framed (transaction m)
  Framed-transaction m h = record {
    frame = λ w. end_transaction-Appends w (m w).0 (m w).1 (h.frame w);
  }
