-- ===== src/Outbox/Selection.antt =====
-- The events that `_doDispatch` selects (`select_events`): which of them are due, and which are left
-- for a later dispatch.
use order_orchestrator.Base.{
  ℕ, ◌/◌, ◌≤◌, ◌<◌, Option, none, some, List, [], ◌++◌, ◌≡◌, refl, ap, subst, ◌⊎◌, Bool, true,
  false, ◌&&◌, ◌||◌, arith, leb, filter, filter_agree, length, All, All-imp, Permᴰ, Sort, IsSorted,
  Selects-SelectsFirst,
}
use order_orchestrator.DateText.{ms_per_day, text_leb, to_iso_string}
use order_orchestrator.Entities.{OutboxEvent, OutboxEventStatus, event_status_eq}
use order_orchestrator.Platform.{Platform}
use order_orchestrator.Platform.Laws.{IsPlatform, stored_text}
use order_orchestrator.Exceptions.{ok}
use order_orchestrator.World.{World}
use order_orchestrator.World.Reads.{events}
use order_orchestrator.Outbox.{oldest_first, is_pending, is_ready, select_events}
use order_orchestrator.Outbox.Dispatch.{selectable, select_events_run}

-- Whether the day of a retry, in UTC, has begun; an event without a retry is not held back.
abbrev pub has_come : ℕ → Option ℕ → Bool
has_come now none = true
has_come now (some t) = leb (t / ms_per_day) (now / ms_per_day)

-- The events that a dispatch at a time may select.
abbrev pub is_due : Bool → ℕ → OutboxEvent → Bool
is_due force now e =
    event_status_eq e.status OutboxEventStatus.pending && (force || has_come now e.next_retry_at)

abbrev pub created_at : OutboxEvent → ℕ
created_at e = e.created_at

-- What a selection answers, and the due events that it leaves.
pub record SelectsDue {P : Platform} (limit : ℕ) (force : Bool) (w : World P) (l : List OutboxEvent)
    : Type 0 where
  pub left : List OutboxEvent
  pub just_the_due : Permᴰ (l ++ left) (filter (is_due force (P.now w.host.clock_reads)) (events w))
  pub oldest : All (λ e. All (λ f. created_at e ≤ created_at f) left) l
  pub ordered : IsSorted (Sort.ascending created_at) l
  pub few : length l ≤ limit
  pub left_beyond : (left ≡ []) ⊎ (length l ≡ limit)

-- The texts of a column and of `toISOString()`: the day decides, since the space comes before `T`.
text_leb-days :
    (t now : ℕ)
    → text_leb (stored_text t) (to_iso_string now) ≡ leb (t / ms_per_day) (now / ms_per_day)
text_leb-days t now = ground arith

module _ {P : Platform} (lawful : IsPlatform P) where
  selectable-is_due :
      (force : Bool) (w : World P) (e : OutboxEvent)
      → selectable force w e ≡ is_due force (P.now w.host.clock_reads) e
  selectable-is_due true w e = ground arith
  selectable-is_due false w e = ap (λ b. is_pending e && b) (ready e.next_retry_at refl)
    where
      ready :
          (r : Option ℕ)
          → e.next_retry_at ≡ r
          → is_ready P (P.now w.host.clock_reads) e
            ≡ has_come (P.now w.host.clock_reads) e.next_retry_at
      ready none h = rw h refl
      ready (some t) h =
          rw (h, lawful.text_le_lem, lawful.column_text_lem t)
            (text_leb-days t (P.now w.host.clock_reads))

  -- The run of the selection, and what it selects.
  pub select_due_run :
      (limit : ℕ) (force : Bool) (w : World P)
      → 0 < limit
      → (l : List OutboxEvent) × (v : World P) × (select_events P limit force w ≡ (ok l, v))
        × (v.db ≡ w.db)
        × SelectsDue limit force w l
  select_due_run limit force w h =
      let (l, v, runs, same_db, same, s) = select_events_run lawful limit force w h in
      let now = P.now w.host.clock_reads in
      let rows = filter (selectable force w) (events w) in
      let first = Selects-SelectsFirst oldest_first rows limit l s in
      (
        l,
        v,
        runs,
        same_db,
        record {
          left = first.rest;
          just_the_due =
              subst (Permᴰ (l ++ first.rest))
                (filter_agree (selectable force w) (is_due force now) (selectable-is_due force w)
                  (events w))
                first.all_rows;
          oldest = All-imp l (λ e. All-imp first.rest (λ f k. ground arith)) first.in_front;
          ordered = first.ordered;
          few = first.few;
          left_beyond = first.rest_beyond;
        },
      )

  -- `_doDispatch` with a limit above 0 selects just the events that are due, up to the limit, and
  -- the oldest of them: each event that it leaves was created no earlier than those that it
  -- selects, and it leaves none unless the limit is reached. The selected events come in the order
  -- of their creation. An event is due if it is pending and, unless the dispatch is forced, it has
  -- no `nextRetryAt` or one whose UTC day has begun by the clock, whatever its time on that day.
  pub select_events-oldest_first :
      (limit : ℕ) (force : Bool) (w : World P)
      → 0 < limit
      → (l : List OutboxEvent) × ((select_events P limit force w).0 ≡ ok l)
        × SelectsDue limit force w l
  select_events-oldest_first limit force w h =
      let (l, v, runs, same_db, due) = select_due_run limit force w h in
      (l, ap (λ z. z.0) runs, due)
