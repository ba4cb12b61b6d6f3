-- ===== src/World/Monad.antt =====
-- A method: state and exceptions. What was written before a throw stays written, unless a
-- transaction takes it back.
use order_orchestrator.Base.{ℕ, Bool, Option, none, some, [], ◌∷◌, ◌++◌, if◌then◌else◌}
use order_orchestrator.Platform.{Db, Platform}
use order_orchestrator.Exceptions.{Exception, Result, ok, err}
use order_orchestrator.Host.{date_now}
use order_orchestrator.World.State.{World, Metric}

abbrev pub Action : Platform → Type 0 → Type 0
Action P A = World P → Result A × World P

module _ {P : Platform} where
  infixl 5 ◌>>=◌ ◌>>◌
  abbrev pub pure : {A : Type 0} → A → Action P A
  pure a w = (ok a, w)

  abbrev pub throw : {A : Type 0} → Exception → Action P A
  throw e w = (err e, w)

  -- What follows a call, by how the call has ended.
  abbrev pub continue : {A B : Type 0} → Result A × World P → (A → Action P B) → Result B × World P
  continue (ok a, w) f = f a w
  continue (err e, w) f = (err e, w)

  abbrev pub ◌>>=◌ : {A B : Type 0} → Action P A → (A → Action P B) → Action P B
  ◌>>=◌ m f w = continue (m w) f

  abbrev pub ◌>>◌ : {A B : Type 0} → Action P A → Action P B → Action P B
  m >> k = m >>= λ _. k

  -- `if (!x) throw e`
  abbrev pub or_throw : {A : Type 0} → Option A → Exception → Action P A
  or_throw none e = throw e
  or_throw (some a) e = pure a

  -- A function that throws and changes nothing.
  abbrev pub lift : {A : Type 0} → Result A → Action P A
  lift r w = (r, w)

  abbrev pub recover :
      {A : Type 0} → Result A × World P → (Exception → Action P A) → Result A × World P
  recover (ok a, w) handler = (ok a, w)
  recover (err e, w) handler = handler e w

  -- `try { m } catch (e) { handler }`
  abbrev pub try_catch : {A : Type 0} → Action P A → (Exception → Action P A) → Action P A
  try_catch m handler w = recover (m w) handler

  -- `if (x) { f(x) }`
  abbrev pub when_some : {A : Type 0} → Option A → (A → Action P (Unit {0})) → Action P (Unit {0})
  when_some none f = pure tt
  when_some (some a) f = f a

  abbrev pub when : Bool → Action P (Unit {0}) → Action P (Unit {0})
  when b m = if b then m else pure tt

  -- `metric.inc(…)`
  abbrev pub record_metric : Metric → Action P (Unit {0})
  record_metric m w = (ok tt, record w { metrics = w.metrics ++ m ∷ [] })

  -- `new Date()`, `Date.now()`
  abbrev pub current_time : Action P ℕ
  current_time w = let (t, h) = date_now P w.host in (ok t, record w { host = h })

  -- The end of a transaction that began with the first database.
  abbrev pub end_transaction : {A : Type 0} → Db P.schema → Result A × World P → Result A × World P
  end_transaction before (ok a, w) = (ok a, record w { db = P.commit before w.db })
  end_transaction before (err e, w) = (err e, record w { db = P.rollback before w.db })

  -- `dataSource.transaction(callback)`
  abbrev pub transaction : {A : Type 0} → Action P A → Action P A
  transaction m w = end_transaction w.db (m w)
